-- ===== src/DurationDb/Percentile/Laws.antt =====
-- The rank of the percentile among the samples.
use quokka.Prelude.{
  true, some, ℕ, zero, suc, ◌+◌, ◌-◌, ◌*◌, ◌≤◌, ◌<◌, max, min, leb, Bool-cases, ◌≡◌, refl, sym, ap,
  inl, inr, List, [], ◌∷◌, arith, length, get_elem?, filter, All, nat_key, text_key,
}
use quokka.Prelude.{sort, length-sort, length-filter-sort, div_ceil, IsSorted, sort_insert}
use native.Mathlib.Nat.{div-add-mod, mul-le-mul_right}
use quokka.DurationDb.Percentile.{percentile, rank, or_default}

All-trans :
    (x y : ℕ) (xs : List ℕ) → x ≤ y → All (λ z. leb y z ≡ true) xs → All (λ z. leb x z ≡ true) xs
All-trans x y [] h a = tt
All-trans x y (z ∷ xs) h a = (ground (arith, a.0), All-trans x y xs h a.1)

All-insert :
    (x a : ℕ) (xs : List ℕ)
    → leb x a ≡ true
    → All (λ z. leb x z ≡ true) xs
    → All (λ z. leb x z ≡ true) (sort_insert leb a xs)
unfolding sort_insert
All-insert x a [] h k = (h, tt)
All-insert x a (y ∷ xs) h k = elim (Bool-cases (leb a y)) [
  | inl e ↦ rw e (h, k)
  | inr e ↦ rw e (k.0, All-insert x a xs h k.1)
]

insert-IsSorted : (a : ℕ) (xs : List ℕ) → IsSorted leb xs → IsSorted leb (sort_insert leb a xs)
unfolding sort_insert
insert-IsSorted a [] h = (tt, tt)
insert-IsSorted a (x ∷ xs) h = elim (Bool-cases (leb a x)) [
  | inl e ↦ rw e ((e, All-trans a x xs (ground arith) h.0), h)
  | inr e ↦ rw e (All-insert x a xs (ground arith) h.0, insert-IsSorted a xs h.1)
]

sort-IsSorted : (xs : List ℕ) → IsSorted leb (sort leb xs)
unfolding sort
sort-IsSorted [] = tt
sort-IsSorted (x ∷ xs) = insert-IsSorted x (sort leb xs) (sort-IsSorted xs)

All-get_elem? : (P : ℕ → Type 0) (xs : List ℕ) (i v : ℕ) → All P xs → get_elem? xs i ≡ some v → P v
All-get_elem? P [] i v a h = absurd (ground (arith, h))
All-get_elem? P (x ∷ xs) zero v a h = let same : x ≡ v = ground (arith, h) in rw (sym same) a.0
All-get_elem? P (x ∷ xs) (suc i) v a h = All-get_elem? P xs i v a.1 h

-- At least `i + 1` members of a sorted list are at most its member number `i`.
rank-count :
    (xs : List ℕ) (i v : ℕ)
    → IsSorted leb xs
    → get_elem? xs i ≡ some v
    → i + 1 ≤ length (filter (λ y. leb y v) xs)
rank-count [] i v s h = absurd (ground (arith, h))
rank-count (x ∷ xs) zero v s h =
    let same : leb x v ≡ true = ground (arith, h) in rw same (omega arith)
rank-count (x ∷ xs) (suc i) v s h =
    let below = All-get_elem? (λ z. leb x z ≡ true) xs i v s.0 h in
    let more = rank-count xs i v s.1 h in rw below (omega (arith, more))

get_elem?-within : (xs : List ℕ) (i : ℕ) → i < length xs → (v : ℕ) × (get_elem? xs i ≡ some v)
get_elem?-within [] i h = absurd (omega arith)
get_elem?-within (x ∷ xs) zero h = (x, refl)
get_elem?-within (x ∷ xs) (suc i) h = get_elem?-within xs i (omega arith)

rank-within : (n p : ℕ) → 1 ≤ n → min (rank n p) n - 1 < n
unfolding rank
rank-within n p h = ground arith

div_ceil-reaches : (n : ℕ) → n ≤ 100 * div_ceil n 100
div_ceil-reaches n = grind (arith, div-add-mod n 100)

capped-reaches :
    (x n : ℕ) → 1 ≤ n → x ≤ 100 * n → x ≤ 100 * (min (max (div_ceil x 100) 1) n - 1 + 1)
capped-reaches x n h k = let r = div_ceil-reaches x in ground (arith, r)

rank-reaches : (n p : ℕ) → 1 ≤ n → p ≤ 100 → p * n ≤ 100 * (min (rank n p) n - 1 + 1)
unfolding rank
rank-reaches n p h k = capped-reaches (p * n) n h (mul-le-mul_right n k)

-- At least `p` in a hundred of the samples are at most `v`.
abbrev pub Covers : List ℕ → ℕ → ℕ → Type 0
Covers xs p v = p * length xs ≤ 100 * length (filter (λ y. leb y v) xs)

place : List ℕ → ℕ → ℕ
place xs p = min (rank (length xs) p) (length xs) - 1

found-Covers :
    (xs : List ℕ) (p v : ℕ)
    → 1 ≤ length xs
    → p ≤ 100
    → get_elem? (sort leb xs) (place (sort leb xs) p) ≡ some v
    → Covers xs p v
unfolding place
found-Covers xs p v some_sample h found =
    let long = length-sort leb xs in
    let far = rank-reaches (length (sort leb xs)) p (omega (arith, long, some_sample)) h in
    let reached = rank-count (sort leb xs) (place (sort leb xs) p) v (sort-IsSorted xs) found in
    let counted = length-filter-sort leb (λ y. leb y v) xs in
    let mul_long : p * length (sort leb xs) ≡ p * length xs = ap (λ n. p * n) long in
    omega (arith, reached, far, counted, mul_long)

Covers-same : (xs : List ℕ) (p v w : ℕ) → w ≡ v → Covers xs p v → Covers xs p w
Covers-same xs p v w e h = rw e h

-- For a percentage up to 100 and at least one sample, at least that share of the samples is at most
-- the percentile.
pub percentile-Covers :
    (s : ℕ) (ss : List ℕ) (p : ℕ) → p ≤ 100 → Covers (s ∷ ss) p (percentile (s ∷ ss) p)
unfolding percentile place
percentile-Covers s ss p h =
    let samples = s ∷ ss in
    let sorted = sort leb samples in
    let long = length-sort leb samples in
    let (v, found) =
      get_elem?-within sorted (place sorted p)
        (rank-within (length sorted) p (omega (arith, long))) in
    Covers-same samples p v (percentile samples p) (ap or_default found)
      (found-Covers samples p v (omega arith) h found)
