-- ===== src/DurationDb/Percentile.antt =====
-- The nearest-rank percentile of src/duration_db.rs.
pub mod Laws
use quokka.Prelude.{
  Text, text, text_eq, text_eq_iff, text_eq_refl, strip_prefix, split_once, show_nat, Bool, true,
  false, not, ◌&&◌, ◌||◌, Option, none, some, ℕ, zero, suc, ◌+◌, ◌-◌, ◌*◌, ◌/◌, ◌%◌, ◌^◌, ◌≤◌, ◌<◌,
  max, min, ltb, leb, ◌==◌, if◌then◌else◌, ==_iff, Bool-cases, Option-cases, ◌≡◌, refl, sym, ap,
  ◌∙◌, ◌≢◌, ◌↔◌, ◌⊎◌, inl, inr, List, [], ◌∷◌, ◌++◌, map, Perm, arith, length, get_elem?, take,
  drop, replicate, any, filter, is_empty, All, flatten, Result, ok, err, ◌>>=◌, Key, Map, lookup,
  insert, remove, lookup-insert, lookup-insert_self, lookup-insert_ne, nat_key, text_key,
}
use quokka.Prelude.{sort, div_ceil}

abbrev or_default : Option ℕ → ℕ
or_default none = 0
or_default (some n) = n

rank : ℕ → ℕ → ℕ
rank n p = max (div_ceil (p * n) 100) 1

-- The index of the source panics outside the samples; here a default stands for that.
unfoldable pub percentile : List ℕ → ℕ → ℕ
unfolding rank
percentile [] p = 0
percentile (s ∷ ss) p =
    let sorted = sort leb (s ∷ ss) in
    or_default (get_elem? sorted (min (rank (length sorted) p) (length sorted) - 1))
