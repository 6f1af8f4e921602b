-- ===== src/Batching/Heap.antt =====
-- The `BinaryHeap` of src/batching.rs as a list from which the least pair is taken.
pub mod Laws
use quokka.Prelude.{
  Text, text, text_eq, text_eq_iff, text_eq_refl, strip_prefix, split_once, show_nat, Bool, true,
  false, not, ◌&&◌, ◌||◌, Option, none, some, ℕ, zero, suc, ◌+◌, ◌-◌, ◌*◌, ◌/◌, ◌%◌, ◌^◌, ◌≤◌, ◌<◌,
  max, min, ltb, leb, ◌==◌, if◌then◌else◌, ==_iff, Bool-cases, Option-cases, ◌≡◌, refl, sym, ap,
  ◌∙◌, ◌≢◌, ◌↔◌, ◌⊎◌, inl, inr, List, [], ◌∷◌, ◌++◌, map, Perm, arith, length, get_elem?, take,
  drop, replicate, any, filter, is_empty, All, flatten, Result, ok, err, ◌>>=◌, Key, Map, lookup,
  insert, remove, lookup-insert, lookup-insert_self, lookup-insert_ne, nat_key, text_key,
}

abbrev pub Entry : Type 0
Entry = ℕ × ℕ

-- The lexicographic order of pairs.
entry_le : Entry → Entry → Bool
entry_le (w, i) (v, j) = ltb w v || (w == v) && leb i j

choose : Entry → List Entry → Option (Entry × List Entry) → Entry × List Entry
unfolding entry_le
choose e heap none = (e, heap)
choose e heap (some (f, rest)) = if entry_le e f then (e, heap) else (f, e ∷ rest)

-- `heap.pop()`: the least entry, and the others in their order.
unfoldable pub pop_min : List Entry → Option (Entry × List Entry)
unfolding choose
pop_min [] = none
pop_min (e ∷ heap) = some (choose e heap (pop_min heap))
