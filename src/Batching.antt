-- ===== src/Batching.antt =====
-- src/batching.rs: the tests of a target grouped into actions.
pub mod Heap
pub mod Chunks
pub mod Buckets
use quokka.Prelude.{
  Text, text, text_eq, text_eq_iff, text_eq_refl, strip_prefix, split_once, show_nat, Bool, true,
  false, not, ◌&&◌, ◌||◌, Option, none, some, ℕ, zero, suc, ◌+◌, ◌-◌, ◌*◌, ◌/◌, ◌%◌, ◌^◌, ◌≤◌, ◌<◌,
  max, min, ltb, leb, ◌==◌, if◌then◌else◌, ==_iff, Bool-cases, Option-cases, ◌≡◌, refl, sym, ap,
  ◌∙◌, ◌≢◌, ◌↔◌, ◌⊎◌, inl, inr, List, [], ◌∷◌, ◌++◌, map, Perm, arith, length, get_elem?, take,
  drop, replicate, any, filter, is_empty, All, flatten, Result, ok, err, ◌>>=◌, Key, Map, lookup,
  insert, remove, lookup-insert, lookup-insert_self, lookup-insert_ne, nat_key, text_key,
}
use quokka.Prelude.{sort, div_ceil, add_u64}
use Heap.{pop_min}

pub data BatchMode : Type 0 where
  per_test : BatchMode
  duration_bucketed : (p50_lt_ms : ℕ) → BatchMode
  fixed_chunk : (size : ℕ) → BatchMode  -- NonZeroUsize
  target : BatchMode

pub data BatchFailurePolicy : Type 0 where
  fail_all rerun_per_test_to_isolate : BatchFailurePolicy

abbrev pub max_batch : ℕ
max_batch = 64

pub data TestSelection (T : Type 0) : Type 0 where
  all : TestSelection T
  explicit : List T → TestSelection T

-- `(0..num_chunks).map(|i| Reverse((0, i)))`, from `i` on.
start_heap : ℕ → ℕ → List (ℕ × ℕ)
start_heap i zero = []
start_heap i (suc n) = (0, i) ∷ start_heap (suc i) n

module _ {T : Type 0} where
  -- `chunks[idx].push(input)`
  abbrev push_at : List (List T) → ℕ → T → List (List T)
  push_at [] idx input = []
  push_at (c ∷ cs) zero input = (c ++ input ∷ []) ∷ cs
  push_at (c ∷ cs) (suc idx) input = c ∷ push_at cs idx input

  abbrev len_at : List (List T) → ℕ → ℕ
  len_at [] idx = 0
  len_at (c ∷ cs) zero = length c
  len_at (c ∷ cs) (suc idx) = len_at cs idx

  module _ (size : ℕ) (weight_fn : T → ℕ) where
    -- The chunk goes back on the heap unless the push filled it.
    pub push_back : ℕ → ℕ → T → List (List T) → List (ℕ × ℕ) → List (ℕ × ℕ)
    push_back weight idx input chunks heap =
        if ltb (len_at chunks idx) size
        then (add_u64 weight (weight_fn input), idx) ∷ heap
        else heap

    -- The `for` loop; `none` is the panic of `expect` on an empty heap.
    pub chunk_loop : List T → List (List T) → List (ℕ × ℕ) → Option (List (List T))
    unfolding push_back pop_min
    chunk_loop [] chunks heap = some chunks
    chunk_loop (input ∷ order) chunks heap = elim (pop_min heap) [
      | none ↦ none
      | some ((weight, idx), rest) ↦
          let chunks' = push_at chunks idx input in
          chunk_loop order chunks' (push_back weight idx input chunks' rest)
    ]

  unfoldable pub chunk_fixed_generic : List T → ℕ → (T → ℕ) → Option (List (List T))
  unfolding chunk_loop start_heap
  chunk_fixed_generic [] size weight_fn = some []
  chunk_fixed_generic (t ∷ ts) size weight_fn =
      let items = t ∷ ts in
      let num_chunks = div_ceil (length items) size in
      let order = sort (λ a b. leb (weight_fn b) (weight_fn a)) items in
      chunk_loop size weight_fn order (replicate num_chunks []) (start_heap 0 num_chunks)

  -- `if !current.is_empty() { batches.push(take(&mut current)) }`
  abbrev close : List (List T) → List T → List (List T)
  close batches [] = batches
  close batches (c ∷ cs) = batches ++ (c ∷ cs) ∷ []

  module _ (limit : ℕ) (is_small : T → Bool) where
    bucket_loop : List T → List (List T) → List T → List (List T)
    bucket_loop [] batches current = close batches current
    bucket_loop (input ∷ items) batches current =
        let grown = current ++ input ∷ [] in
        let full = bucket_loop items (batches ++ grown ∷ []) [] in
        let more = bucket_loop items batches grown in
        let alone = bucket_loop items (close batches current ++ (input ∷ []) ∷ []) [] in
        if is_small input then (if leb limit (length grown) then full else more) else alone

  unfoldable pub bucket_generic : List T → ℕ → (T → Bool) → List (List T)
  unfolding bucket_loop
  bucket_generic items limit is_small = bucket_loop limit is_small items [] []

  -- `BatchMode::partition`, for items with a weight and a typical duration; `none` is a panic.
  unfoldable pub partition :
      (weight_ms p50_ms : T → ℕ) → BatchMode → List T → Option (List (TestSelection T))
  unfolding bucket_generic chunk_fixed_generic
  partition weight_ms p50_ms per_test tests = some (map (λ t. explicit (t ∷ [])) tests)
  partition weight_ms p50_ms target tests = some (all ∷ [])
  partition weight_ms p50_ms (duration_bucketed p50_lt_ms) tests =
      some (map explicit (bucket_generic tests max_batch (λ t. ltb (p50_ms t) p50_lt_ms)))
  partition weight_ms p50_ms (fixed_chunk size) tests =
      elim (chunk_fixed_generic tests size weight_ms) [
        | none ↦ none
        | some chunks ↦ some (map explicit chunks)
      ]
