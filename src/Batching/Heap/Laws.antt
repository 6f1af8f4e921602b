-- ===== src/Batching/Heap/Laws.antt =====
-- What taking the least entry does to the entries, their sum and their distinctness.
use mathlib.Core.Option.{some-injective}
use mathlib.Core.Path.{subst}
use quokka.Prelude.{
  Option, none, some, ℕ, ◌+◌, Bool-cases, ◌≡◌, refl, sym, ◌≢◌, inl, inr, List, [], ◌∷◌, arith, All,
  nat_key, text_key,
}
use quokka.Batching.Heap.{Entry, choose, pop_min, entry_le}

-- `rest` is `heap` without one occurrence of `e`.
pub data Takes (e : Entry) : List Entry → List Entry → Type 0 where
  here : (heap : List Entry) → Takes e (e ∷ heap) heap
  there : (f : Entry) {heap rest : List Entry} → Takes e heap rest → Takes e (f ∷ heap) (f ∷ rest)

choose-Takes :
    (f : Entry) (heap : List Entry) (o : Option (Entry × List Entry))
    → ((e : Entry) (rest : List Entry) → o ≡ some (e, rest) → Takes e heap rest)
    → Takes (choose f heap o).0 (f ∷ heap) (choose f heap o).1
unfolding choose
choose-Takes f heap none h = Takes.here heap
choose-Takes f heap (some (g, more)) h = elim (Bool-cases (entry_le f g)) [
  | inl e ↦ rw e (Takes.here heap)
  | inr e ↦ rw e (Takes.there f (h g more refl))
]

pub pop_min-Takes :
    (heap : List Entry) (e : Entry) (rest : List Entry)
    → pop_min heap ≡ some (e, rest)
    → Takes e heap rest
unfolding pop_min
pop_min-Takes [] e rest h = cc
pop_min-Takes (f ∷ heap) e rest h =
    let t = choose-Takes f heap (pop_min heap) (pop_min-Takes heap) in
    subst (λ r. Takes r.0 (f ∷ heap) r.1) (some-injective _ _ h) t

pub Takes-All :
    (P : Entry → Type 0) {e : Entry} {heap rest : List Entry}
    → Takes e heap rest
    → All P heap
    → P e × All P rest
Takes-All P (Takes.here heap) a = a
Takes-All P (Takes.there f t) a = let (p, q) = Takes-All P t a.1 in (p, (a.0, q))

unfoldable pub sum : (Entry → ℕ) → List Entry → ℕ
sum f [] = 0
sum f (e ∷ heap) = f e + sum f heap

-- Only an empty heap gives no entry.
pub pop_min-none : (f : Entry → ℕ) (heap : List Entry) → pop_min heap ≡ none → sum f heap ≡ 0
unfolding pop_min sum
pop_min-none f [] h = refl
pop_min-none f (e ∷ heap) h = cc

pub Takes-sum :
    (f : Entry → ℕ) {e : Entry} {heap rest : List Entry}
    → Takes e heap rest
    → sum f heap ≡ f e + sum f rest
unfolding sum
Takes-sum f (Takes.here heap) = refl
Takes-sum f (Takes.there d t) = omega (arith, Takes-sum f t)

-- No two entries are of one chunk.
abbrev pub IsDistinct : List Entry → Type 0
IsDistinct [] = Unit
IsDistinct (e ∷ heap) = All (λ f. f.1 ≢ e.1) heap × IsDistinct heap

pub Takes-IsDistinct :
    {e : Entry} {heap rest : List Entry}
    → Takes e heap rest
    → IsDistinct heap
    → All (λ f. f.1 ≢ e.1) rest × IsDistinct rest
Takes-IsDistinct (Takes.here heap) d = d
Takes-IsDistinct {e} (Takes.there f t) d =
    let (apart, others) = Takes-All (λ g. g.1 ≢ f.1) t d.0 in
    let (far, distinct) = Takes-IsDistinct t d.1 in
    (((λ h. apart (sym h)), far), (others, distinct))
