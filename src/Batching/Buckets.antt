-- ===== src/Batching/Buckets.antt =====
-- `bucket_generic` and the partition of every batch mode (src/batching.rs).
use quokka.Prelude.{
  Bool, true, some, ℕ, ◌≤◌, ◌<◌, ltb, leb, Bool-cases, ◌≡◌, refl, sym, ◌∙◌, ◌⊎◌, inl, inr, List, [],
  ◌∷◌, ◌++◌, map, Perm, arith, length, All, flatten, nat_key, text_key,
}
use mathlib.Core.List.Perm
use mathlib.Core.List.{append-nil, append_assoc}
use quokka.Prelude.{length-append, All-append}
use quokka.Batching.{
  BatchMode, per_test, duration_bucketed, fixed_chunk, target, TestSelection, all, explicit,
  bucket_loop, close, bucket_generic, partition, max_batch,
}
use quokka.Batching.Chunks.Fixed.{chunk_fixed_generic_lem}

abbrev pub IsUsable : BatchMode → Type 0
IsUsable (fixed_chunk size) = 1 ≤ size
IsUsable _ = Unit

module _ {T : Type 0} where
  flatten-snoc : (ls : List (List T)) (l : List T) → flatten (ls ++ l ∷ []) ≡ flatten ls ++ l
  flatten-snoc [] l = append-nil l
  flatten-snoc (k ∷ ls) l = rw (flatten-snoc ls l) (sym (append_assoc k (flatten ls) l))

  flatten-close :
      (batches : List (List T)) (current : List T)
      → flatten (close batches current) ≡ flatten batches ++ current
  flatten-close batches [] = sym (append-nil (flatten batches))
  flatten-close batches (c ∷ cs) = flatten-snoc batches (c ∷ cs)

  module _ (limit : ℕ) (is_small : T → Bool) where
    -- A batch of small tests within the limit, or one test alone.
    abbrev pub IsBucket : List T → Type 0
    IsBucket batch =
        (length batch ≤ limit) × All (λ t. is_small t ≡ true) batch ⊎ (length batch ≡ 1)

    bucket_loop-flatten :
        (items : List T) (batches : List (List T)) (current : List T)
        → flatten (bucket_loop limit is_small items batches current)
          ≡ flatten batches ++ (current ++ items)
    unfolding bucket_loop
    bucket_loop-flatten [] batches current = rw (append-nil current) (flatten-close batches current)
    bucket_loop-flatten (x ∷ items) batches current = elim (Bool-cases (is_small x)) [
      | inl s ↦ elim (Bool-cases (leb limit (length (current ++ x ∷ [])))) [
        | inl f ↦
            rw (s, f)
              (bucket_loop-flatten items (batches ++ (current ++ x ∷ []) ∷ []) []
                ∙ simp (flatten-snoc, append_assoc))
        | inr f ↦
            rw (s, f) (bucket_loop-flatten items batches (current ++ x ∷ []) ∙ simp append_assoc)
      ]
      | inr s ↦ rw s (
          bucket_loop-flatten items (close batches current ++ (x ∷ []) ∷ []) []
          ∙ simp (flatten-snoc, flatten-close, append_assoc))
    ]

    close-IsBucket :
        (batches : List (List T)) (current : List T)
        → All IsBucket batches
        → length current ≤ limit
        → All (λ t. is_small t ≡ true) current
        → All IsBucket (close batches current)
    close-IsBucket batches [] b h s = b
    close-IsBucket batches (c ∷ cs) b h s =
        All-append IsBucket batches ((c ∷ cs) ∷ []) b (inl (h, s), tt)

    bucket_loop-IsBucket :
        (items : List T) (batches : List (List T)) (current : List T)
        → All IsBucket batches
        → length current < limit
        → All (λ t. is_small t ≡ true) current
        → All IsBucket (bucket_loop limit is_small items batches current)
    unfolding bucket_loop
    bucket_loop-IsBucket [] batches current b h s = close-IsBucket batches current b (omega arith) s
    bucket_loop-IsBucket (x ∷ items) batches current b h s =
        let grown = current ++ x ∷ [] in
        let long = length-append current (x ∷ []) in
        let smalls = λ (e : is_small x ≡ true).
          All-append (λ t. is_small t ≡ true) current (x ∷ []) s (e, tt) in
        elim (Bool-cases (is_small x)) [
          | inl e ↦ elim (Bool-cases (leb limit (length grown))) [
            | inl f ↦
                rw (e, f)
                  (bucket_loop-IsBucket items (batches ++ grown ∷ []) []
                    (All-append IsBucket batches (grown ∷ []) b (inl (omega arith, smalls e), tt))
                    (omega arith) tt)
            | inr f ↦
                rw (e, f) (bucket_loop-IsBucket items batches grown b (ground arith) (smalls e))
          ]
          | inr e ↦ rw e (
              bucket_loop-IsBucket items (close batches current ++ (x ∷ []) ∷ []) []
                (All-append IsBucket (close batches current) ((x ∷ []) ∷ [])
                  (close-IsBucket batches current b (omega arith) s) (inr refl, tt))
                (omega arith) tt)
        ]

    -- For a limit of at least one, the buckets in their order hold the tests in their order, and
    -- each bucket is a test alone or small tests within the limit.
    pub bucket_generic_lem :
        (items : List T)
        → 1 ≤ limit
        → (flatten (bucket_generic items limit is_small) ≡ items)
          × All IsBucket (bucket_generic items limit is_small)
    unfolding bucket_generic
    bucket_generic_lem items h =
        (bucket_loop-flatten items [] [], bucket_loop-IsBucket items [] [] tt (omega arith) tt)

  -- The tests that the actions of a target run, `all` standing for every test.
  unfoldable pub members : List T → List (TestSelection T) → List T
  members tests [] = []
  members tests (all ∷ sels) = tests ++ members tests sels
  members tests (explicit group ∷ sels) = group ++ members tests sels

  members-explicit :
      (tests : List T) (groups : List (List T))
      → members tests (map explicit groups) ≡ flatten groups
  unfolding members
  members-explicit tests [] = refl
  members-explicit tests (g ∷ gs) = rw (members-explicit tests gs)

  members-singles : (tests ts : List T) → members tests (map (λ t. explicit (t ∷ [])) ts) ≡ ts
  unfolding members
  members-singles tests [] = refl
  members-singles tests (t ∷ ts) = rw (members-singles tests ts)

  -- In every mode (with a chunk size of at least one) the partition exists and its actions run
  -- each test of the target exactly as often as the target lists it.
  pub partition-perm :
      (weight_ms p50_ms : T → ℕ) (mode : BatchMode) (tests : List T)
      → IsUsable mode
      → (sels : List (TestSelection T)) × (partition weight_ms p50_ms mode tests ≡ some sels)
        × Perm (members tests sels) tests
  unfolding partition members
  partition-perm w p per_test tests u = (_, refl, rw (members-singles tests tests) Perm.rfl)
  partition-perm w p target tests u = (_, refl, rw (append-nil tests) Perm.rfl)
  partition-perm w p (duration_bucketed lt) tests u =
      let (same, _) = bucket_generic_lem max_batch (λ t. ltb (p t) lt) tests (omega arith) in
      (_, refl, rw (members-explicit tests _, same) Perm.rfl)
  partition-perm w p (fixed_chunk size) tests u =
      let (chunks, runs, same, _, _) = chunk_fixed_generic_lem w tests size u in
      (map explicit chunks, rw (runs, partition), rw (members-explicit tests chunks) same)
