-- ===== src/Batching/Chunks/Fixed.antt =====
-- `chunk_fixed_generic` (src/batching.rs) from its start.
use quokka.Prelude.{
  some, ℕ, zero, suc, ◌+◌, ◌-◌, ◌*◌, ◌≤◌, ◌<◌, leb, ◌≡◌, refl, ap, ◌∙◌, ◌≢◌, List, [], ◌∷◌, Perm,
  arith, length, replicate, All, flatten, nat_key, text_key,
}
use native.Mathlib.Nat.{div-add-mod}
use mathlib.Core.List.Perm
use mathlib.Core.List.{append-nil}
use quokka.Prelude.{sort, sort-perm, length-sort, div_ceil}
use quokka.Batching.{chunk_fixed_generic, start_heap, len_at}
use quokka.Batching.Heap.{Entry}
use quokka.Batching.Heap.Laws.{sum, IsDistinct}
use quokka.Batching.Chunks.{Inv, chunk_loop_lem, IsCapped}

All-start_heap :
    (P : Entry → Type 0) (i n : ℕ)
    → ((j : ℕ) → i ≤ j → j < i + n → P (0, j))
    → All P (start_heap i n)
unfolding start_heap
All-start_heap P i zero h = tt
All-start_heap P i (suc n) h = (
  h i (omega arith) (omega arith),
  All-start_heap P (suc i) n (λ j l m. h j (omega arith) (omega arith)),
)

start_heap-IsDistinct : (i n : ℕ) → IsDistinct (start_heap i n)
unfolding start_heap
start_heap-IsDistinct i zero = tt
start_heap-IsDistinct i (suc n) = (
  All-start_heap (λ e. e.1 ≢ i) (suc i) n (λ j l m e. omega arith),
  start_heap-IsDistinct (suc i) n,
)

sum-start_heap :
    (f : Entry → ℕ) (size i n : ℕ) → ((e : Entry) → f e ≡ size) → sum f (start_heap i n) ≡ n * size
unfolding sum start_heap
sum-start_heap f size i zero h = omega arith
sum-start_heap f size i (suc n) h = grind (arith, h (0, i), sum-start_heap f size (suc i) n h)

module _ (T : Type 0) where
  abbrev empty_chunks : ℕ → List (List T)
  empty_chunks n = replicate n []

  len_at-empty : (n j : ℕ) → len_at (empty_chunks n) j ≡ 0
  len_at-empty zero j = refl
  len_at-empty (suc n) zero = refl
  len_at-empty (suc n) (suc j) = len_at-empty n j

  length-empty : (n : ℕ) → length (empty_chunks n) ≡ n
  length-empty zero = refl
  length-empty (suc n) = ap suc (length-empty n)

  flatten-empty : (n : ℕ) → flatten (empty_chunks n) ≡ []
  flatten-empty zero = refl
  flatten-empty (suc n) = flatten-empty n

  empty-IsCapped : (size n : ℕ) → IsCapped size (empty_chunks n)
  empty-IsCapped size zero = tt
  empty-IsCapped size (suc n) = (omega arith, empty-IsCapped size n)

div_ceil-covers : (n size : ℕ) → 1 ≤ size → n ≤ div_ceil n size * size
div_ceil-covers n size h = grind (arith, div-add-mod n size)

module _ {T : Type 0} (weight_fn : T → ℕ) where
  start-Inv :
      (size n : ℕ) (order : List T)
      → 1 ≤ size
      → length order ≤ n * size
      → Inv size order (empty_chunks T n) (start_heap 0 n)
  start-Inv size n order h fits = record {
    open_ =
        All-start_heap _ 0 n
          (λ j l m. (omega (arith, len_at-empty T n j), omega (arith, length-empty T n)));
    distinct = start_heap-IsDistinct 0 n;
    fits = omega (
      arith,
      sum-start_heap (λ e. size - len_at (empty_chunks T n) e.1) size 0 n
          (λ e. omega (arith, len_at-empty T n e.1)),
    );
    capped = empty-IsCapped T size n;
  }

  -- For a chunk size of at least one, the chunks exist (the heap never runs empty), hold every
  -- test exactly once, have at most `size` tests each, and are as few as that size allows.
  pub chunk_fixed_generic_lem :
      (items : List T) (size : ℕ)
      → 1 ≤ size
      → (chunks : List (List T)) × (chunk_fixed_generic items size weight_fn ≡ some chunks)
        × Perm (flatten chunks) items
        × All (λ c. length c ≤ size) chunks
        × (length chunks ≡ div_ceil (length items) size)
  unfolding chunk_fixed_generic
  chunk_fixed_generic_lem [] size h = ([], refl, Perm.rfl, tt, grind arith)
  chunk_fixed_generic_lem (t ∷ ts) size h =
      let items = t ∷ ts in
      let before = λ (a b : T). leb (weight_fn b) (weight_fn a) in
      let n = div_ceil (length items) size in
      let (out, runs, same, capped, long) =
        chunk_loop_lem size weight_fn (sort before items) (empty_chunks T n) (start_heap 0 n) (
          start-Inv size n (sort before items) h
            (omega (arith, length-sort before items, div_ceil-covers (length items) size h))) in
      (
        out,
        runs,
        Perm.trans (rw (flatten-empty T n, append-nil) at same) (sort-perm before items),
        capped,
        long ∙ length-empty T n,
      )
