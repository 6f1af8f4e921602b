-- ===== src/Batching/Chunks.antt =====
-- The loop of `chunk_fixed_generic` (src/batching.rs): its chunks, their room and its heap.
pub mod Fixed
use quokka.Prelude.{
  Text, text, text_eq, text_eq_iff, text_eq_refl, strip_prefix, split_once, show_nat, Bool, true,
  false, not, ◌&&◌, ◌||◌, Option, none, some, ℕ, zero, suc, ◌+◌, ◌-◌, ◌*◌, ◌/◌, ◌%◌, ◌^◌, ◌≤◌, ◌<◌,
  max, min, ltb, leb, ◌==◌, if◌then◌else◌, ==_iff, Bool-cases, Option-cases, ◌≡◌, refl, sym, ap,
  ◌∙◌, ◌≢◌, ◌↔◌, ◌⊎◌, inl, inr, List, [], ◌∷◌, ◌++◌, map, Perm, arith, length, get_elem?, take,
  drop, replicate, any, filter, is_empty, All, flatten, Result, ok, err, ◌>>=◌, Key, Map, lookup,
  insert, remove, lookup-insert, lookup-insert_self, lookup-insert_ne, nat_key, text_key,
}
use mathlib.Core.List.Perm
use mathlib.Core.List.{perm_middle, append_assoc}
use quokka.Prelude.{sort, sort-perm, div_ceil, length-append}
use quokka.Batching.{push_at, len_at, push_back, chunk_loop, chunk_fixed_generic, start_heap}
use quokka.Batching.Heap.{Entry, pop_min}
use quokka.Batching.Heap.Laws.{
  Takes, pop_min-Takes, pop_min-none, Takes-All, Takes-sum, sum, IsDistinct, Takes-IsDistinct,
}

module _ {T : Type 0} where
  length-push_at :
      (chunks : List (List T)) (i : ℕ) (x : T) → length (push_at chunks i x) ≡ length chunks
  length-push_at [] i x = refl
  length-push_at (c ∷ cs) zero x = refl
  length-push_at (c ∷ cs) (suc i) x = ap suc (length-push_at cs i x)

  len_at-push_at_self :
      (chunks : List (List T)) (i : ℕ) (x : T)
      → i < length chunks
      → len_at (push_at chunks i x) i ≡ len_at chunks i + 1
  len_at-push_at_self [] i x h = absurd (omega arith)
  len_at-push_at_self (c ∷ cs) zero x h = length-append c (x ∷ [])
  len_at-push_at_self (c ∷ cs) (suc i) x h = len_at-push_at_self cs i x (omega arith)

  len_at-push_at_ne :
      (chunks : List (List T)) (i j : ℕ) (x : T)
      → j ≢ i
      → len_at (push_at chunks i x) j ≡ len_at chunks j
  len_at-push_at_ne [] i j x h = refl
  len_at-push_at_ne (c ∷ cs) zero zero x h = absurd (h refl)
  len_at-push_at_ne (c ∷ cs) zero (suc j) x h = refl
  len_at-push_at_ne (c ∷ cs) (suc i) zero x h = refl
  len_at-push_at_ne (c ∷ cs) (suc i) (suc j) x h = len_at-push_at_ne cs i j x (λ e. h (ap suc e))

  flatten-push_at-perm :
      (chunks : List (List T)) (i : ℕ) (x : T)
      → i < length chunks
      → Perm (flatten (push_at chunks i x)) (x ∷ flatten chunks)
  flatten-push_at-perm [] i x h = absurd (omega arith)
  flatten-push_at-perm (c ∷ cs) zero x h =
      rw (append_assoc c (x ∷ []) (flatten cs)) (perm_middle c (flatten cs))
  flatten-push_at-perm (c ∷ cs) (suc i) x h =
      Perm.trans (Perm.append_left c (flatten-push_at-perm cs i x (omega arith)))
        (perm_middle c (flatten cs))

  module _ (size : ℕ) where
    abbrev pub IsCapped : List (List T) → Type 0
    IsCapped chunks = All (λ c. length c ≤ size) chunks

    push_at-IsCapped :
        (chunks : List (List T)) (i : ℕ) (x : T)
        → len_at chunks i < size
        → IsCapped chunks
        → IsCapped (push_at chunks i x)
    push_at-IsCapped [] i x h a = tt
    push_at-IsCapped (c ∷ cs) zero x h a = (omega (arith, length-append c (x ∷ [])), a.1)
    push_at-IsCapped (c ∷ cs) (suc i) x h a = (a.0, push_at-IsCapped cs i x h a.1)

    -- The places that are left in the chunks on the heap.
    abbrev room : List (List T) → List Entry → ℕ
    room chunks heap = sum (λ e. size - len_at chunks e.1) heap

    abbrev IsOpen : List (List T) → Entry → Type 0
    IsOpen chunks e = (len_at chunks e.1 < size) × (e.1 < length chunks)

    room-push_at_ne :
        (chunks : List (List T)) (i : ℕ) (x : T) (heap : List Entry)
        → All (λ e. e.1 ≢ i) heap
        → room (push_at chunks i x) heap ≡ room chunks heap
    unfolding sum
    room-push_at_ne chunks i x [] h = refl
    room-push_at_ne chunks i x (e ∷ heap) h =
        omega (arith, len_at-push_at_ne chunks i e.1 x h.0, room-push_at_ne chunks i x heap h.1)

    All-IsOpen-push_at_ne :
        (chunks : List (List T)) (i : ℕ) (x : T) (heap : List Entry)
        → All (λ e. e.1 ≢ i) heap
        → All (IsOpen chunks) heap
        → All (IsOpen (push_at chunks i x)) heap
    All-IsOpen-push_at_ne chunks i x [] h a = tt
    All-IsOpen-push_at_ne chunks i x (e ∷ heap) h a = (
      (
        omega (arith, len_at-push_at_ne chunks i e.1 x h.0),
        omega (arith, length-push_at chunks i x),
      ),
      All-IsOpen-push_at_ne chunks i x heap h.1 a.1,
    )

    pub record Inv (order : List T) (chunks : List (List T)) (heap : List Entry) : Type 0 where
      pub open_ : All (IsOpen chunks) heap
      pub distinct : IsDistinct heap
      pub fits : length order ≤ room chunks heap
      pub capped : IsCapped chunks

    module _ (weight_fn : T → ℕ) where
      -- One round keeps the invariant: the popped chunk gets the test, and only it.
      Inv-step :
          (x : T) (order : List T) (chunks : List (List T)) (heap : List Entry) (e : Entry)
          (rest : List Entry)
          → Takes e heap rest
          → Inv (x ∷ order) chunks heap
          → Inv order
              (push_at chunks e.1 x)
              (push_back size weight_fn e.0 e.1 x (push_at chunks e.1 x) rest)
      unfolding push_back sum
      Inv-step x order chunks heap e rest t inv =
          let chunks' = push_at chunks e.1 x in
          let (at, others) = Takes-All (IsOpen chunks) t inv.open_ in
          let (apart, distinct) = Takes-IsDistinct t inv.distinct in
          let kept = All-IsOpen-push_at_ne chunks e.1 x rest apart others in
          let same = room-push_at_ne chunks e.1 x rest apart in
          let total = Takes-sum (λ e. size - len_at chunks e.1) t in
          let grown = len_at-push_at_self chunks e.1 x at.1 in
          let long = length-push_at chunks e.1 x in
          let capped = push_at-IsCapped chunks e.1 x at.0 inv.capped in
          elim (Bool-cases (ltb (len_at chunks' e.1) size)) [
            | inl more ↦ rw more (record {
              open_ = ((ground arith, omega arith), kept);
              distinct = (apart, distinct);
              fits = ground (arith, inv.fits);
              capped = capped;
            })
            | inr full ↦ rw full (record {
              open_ = kept;
              distinct = distinct;
              fits = ground (arith, inv.fits);
              capped = capped;
            })
          ]

      pub chunk_loop_lem :
          (order : List T) (chunks : List (List T)) (heap : List Entry)
          → Inv order chunks heap
          → (out : List (List T)) × (chunk_loop size weight_fn order chunks heap ≡ some out)
            × Perm (flatten out) (order ++ flatten chunks)
            × IsCapped out
            × (length out ≡ length chunks)
      unfolding chunk_loop
      chunk_loop_lem [] chunks heap inv = (chunks, refl, Perm.rfl, inv.capped, refl)
      chunk_loop_lem (x ∷ order) chunks heap inv = elim (Option-cases (pop_min heap)) [
        | inl n ↦
            absurd (omega (arith, pop_min-none (λ e. size - len_at chunks e.1) heap n, inv.fits))
        | inr ((e, rest), s) ↦
            let t = pop_min-Takes heap e rest s in
            let chunks' = push_at chunks e.1 x in
            let inside = (Takes-All (IsOpen chunks) t inv.open_).0.1 in
            let (out, runs, same, capped, long) =
              chunk_loop_lem order chunks' (push_back size weight_fn e.0 e.1 x chunks' rest)
                (Inv-step x order chunks heap e rest t inv) in
            (
              out,
              rw (s, chunk_loop) runs,
              Perm.trans same (
                  Perm.trans (Perm.append_left order (flatten-push_at-perm chunks e.1 x inside))
                    (perm_middle order (flatten chunks))),
              capped,
              long ∙ length-push_at chunks e.1 x,
            )
      ]
