-- ===== src/Scheduler/Shard/Laws.antt =====
-- All the shards of a run (`shard_filter`) side by side.
use quokka.Prelude.{
  Text, true, false, ℕ, zero, suc, ◌%◌, ◌≤◌, ◌<◌, ltb, ◌==◌, Bool-cases, ◌≡◌, refl, inl, inr, List,
  [], ◌∷◌, ◌++◌, Perm, arith, filter, nat_key, text_key,
}
use native.Mathlib.Nat.{mod-lt}
use mathlib.Core.List.Perm
use mathlib.Core.List.{perm_middle, append-nil}
use quokka.Translator.{TestCase}
use quokka.Config.{RunnerConfig, is_sharded}
use quokka.Scheduler.Shard.{owner_shard, shard_filter, fnv1a}

-- What the shards `n - 1` down to 0 of `count` keep.
unfoldable pub kept_by : Text → List TestCase → RunnerConfig → ℕ → ℕ → List TestCase
kept_by target tests config count zero = []
kept_by target tests config count (suc n) =
    shard_filter target tests (record config { shard = record { index = n; count = count } })
    ++ kept_by target tests config count n

module _ {A : Type 0} (h : A → ℕ) where
  split_class :
      (n : ℕ) (xs : List A)
      → Perm
          (filter (λ x. h x == n) xs ++ filter (λ x. ltb (h x) n) xs)
          (filter (λ x. ltb (h x) (suc n)) xs)
  split_class n [] = Perm.rfl
  split_class n (x ∷ xs) = elim (Bool-cases (h x == n)) [
    | inl e ↦
        let below : ltb (h x) n ≡ false = ground arith in
        let within : ltb (h x) (suc n) ≡ true = ground arith in
        rw (e, below, within) (Perm.cons x (split_class n xs))
    | inr e ↦ elim (Bool-cases (ltb (h x) n)) [
      | inl f ↦
          let within : ltb (h x) (suc n) ≡ true = ground arith in
          rw (e, f, within)
            (Perm.trans (perm_middle (filter (λ y. h y == n) xs) _)
              (Perm.cons x (split_class n xs)))
      | inr f ↦
          let beyond : ltb (h x) (suc n) ≡ false = ground arith in
          rw (e, f, beyond) (split_class n xs)
    ]
  ]

  filter_all : (n : ℕ) (xs : List A) → ((x : A) → h x < n) → filter (λ x. ltb (h x) n) xs ≡ xs
  filter_all n [] lower = refl
  filter_all n (x ∷ xs) lower =
      let inside : ltb (h x) n ≡ true = ground (arith, lower x) in
      rw (inside, filter_all n xs lower)

  none_below : (xs : List A) → filter (λ x. ltb (h x) 0) xs ≡ []
  none_below [] = refl
  none_below (x ∷ xs) = ground (arith, none_below xs)

mod_le : (n : ℕ) → n % 65536 ≤ n
mod_le n = omega arith

module _ (target : Text) (tests : List TestCase) (config : RunnerConfig) (count : ℕ) where
  kept_by-below :
      (n : ℕ)
      → 1 < count
      → Perm
          (kept_by target tests config count n)
          (filter (λ t. ltb (owner_shard target count t) n) tests)
  unfolding kept_by shard_filter is_sharded
  kept_by-below zero sharded = rw (none_below (owner_shard target count) tests) Perm.rfl
  kept_by-below (suc n) sharded =
      let many : ltb 1 count ≡ true = ground arith in
      rw many (
        Perm.trans (Perm.append_left _ (kept_by-below n sharded))
          (split_class (owner_shard target count) n tests))

  owner_shard-lt : 1 ≤ count → (t : TestCase) → owner_shard target count t < count
  unfolding owner_shard
  owner_shard-lt h t =
      let hash = fnv1a (target ++ 1 ∷ t.name) in omega (arith, mod-lt hash h, mod_le (hash % count))

  one_shard : count ≡ 1 → kept_by target tests config count count ≡ tests
  unfolding kept_by shard_filter is_sharded
  one_shard e = rw (e, append-nil tests)

  -- For any count of shards from one on, the shards 0 to `count - 1` together keep every test of a
  -- target exactly as often as the target lists it.
  pub kept_by-perm : 1 ≤ count → Perm (kept_by target tests config count count) tests
  kept_by-perm h = elim (Bool-cases (ltb 1 count)) [
    | inl e ↦
        Perm.trans (kept_by-below count (ground arith))
          (rw (filter_all (owner_shard target count) count tests (owner_shard-lt h)) Perm.rfl)
    | inr e ↦ rw (one_shard (ground arith)) Perm.rfl
  ]
