-- ===== src/DurationDb/Combine.antt =====
-- src/duration_db.rs: `combine` of two stores, and the keys and names of a store.
use quokka.Prelude.{
  Option, none, some, ℕ, leb, ◌==◌, if◌then◌else◌, ==_iff, Bool-cases, ◌≡◌, refl, ap, ◌∙◌, inl, inr,
  List, [], ◌∷◌, ◌++◌, arith, Map, lookup, insert, lookup-insert, nat_key, text_key,
}
use mathlib.Core.Path.{subst}
use quokka.Prelude.{sort}
use quokka.Outcome.{TestIdentity}
use quokka.DurationDb.{
  DurationDb, PerfRecord, FlakeRecord, combine_perf, combine_flake, perf_or_default,
  flake_or_default,
}
use quokka.DurationDb.Snapshot.Laws.{DistinctKeys}

module _ {V : Type 0} (combine_with : Option V → V → V) where
  -- `for (k, v) in other { table.entry(k).or_default().combine(&v); }`
  unfoldable pub combine_table : Map ℕ V → Map ℕ V → Map ℕ V
  combine_table table [] = table
  combine_table table ((k, v) ∷ other) =
      combine_table (insert k (combine_with (lookup k table) v) table) other

  abbrev pub combined : Option V → Option V → Option V
  combined mine none = mine
  combined mine (some v) = some (combine_with mine v)

  combine_table-absent :
      (table other : Map ℕ V) (k : ℕ)
      → lookup k other ≡ none
      → lookup k (combine_table table other) ≡ lookup k table
  unfolding combine_table lookup
  combine_table-absent table [] k h = refl
  combine_table-absent table ((j, v) ∷ other) k h =
      let grown = insert j (combine_with (lookup j table) v) table in
      ground (
        arith,
        combine_table-absent grown other k,
        lookup-insert j k (combine_with (lookup j table) v) table,
      )

  -- A table combined with another has, under each key of the other, its own record, or a fresh one,
  -- combined with the other's; the records of the other keys stay.
  pub lookup-combine_table :
      (table other : Map ℕ V) (k : ℕ)
      → DistinctKeys other
      → lookup k (combine_table table other) ≡ combined (lookup k table) (lookup k other)
  unfolding combine_table lookup
  lookup-combine_table table [] k h = refl
  lookup-combine_table table ((j, v) ∷ other) k h =
      let grown = insert j (combine_with (lookup j table) v) table in
      elim (Bool-cases (j == k)) [
        | inl same ↦
            let e = (==_iff j k).0 same in
            rw same (
              combine_table-absent grown other k (subst (λ i. lookup i other ≡ none) e h.0)
              ∙ lookup-insert j k (combine_with (lookup j table) v) table
              ∙ rw (same, e) refl)
        | inr other_key ↦ rw other_key (
            lookup-combine_table grown other k h.1
            ∙ ap (λ o. combined o (lookup k other))
                (lookup-insert j k (combine_with (lookup j table) v) table ∙ rw other_key refl))
      ]

abbrev pub perf_with : Option PerfRecord → PerfRecord → PerfRecord
unfolding combine_perf
perf_with mine v = combine_perf (perf_or_default mine) v

abbrev pub flake_with : Option FlakeRecord → FlakeRecord → FlakeRecord
unfolding combine_flake
flake_with mine v = combine_flake (flake_or_default mine) v

add_if_missing : DurationDb → ℕ → TestIdentity → Option TestIdentity → DurationDb
add_if_missing db k v (some known) = db
add_if_missing db k v none = record db {
  names = insert k v db.names;
  new_names = db.new_names ++ (k, v) ∷ [];
}

combine_names : DurationDb → Map ℕ TestIdentity → DurationDb
unfolding add_if_missing
combine_names db [] = db
combine_names db ((k, v) ∷ other) = combine_names (add_if_missing db k v (lookup k db.names)) other

unfoldable pub combine : DurationDb → DurationDb → DurationDb
unfolding combine_table combine_names perf_with flake_with
combine db other =
    let tables = record db {
      perf = record {
        of_local = combine_table perf_with db.perf.of_local other.perf.of_local;
        of_remote = combine_table perf_with db.perf.of_remote other.perf.of_remote;
      };
      flakes = record {
        of_local = combine_table flake_with db.flakes.of_local other.flakes.of_local;
        of_remote = combine_table flake_with db.flakes.of_remote other.flakes.of_remote;
      };
    } in
    let named = combine_names tables other.names in
    record named {
      new_perf_samples = named.new_perf_samples ++ other.new_perf_samples;
      new_flake_records = named.new_flake_records ++ other.new_flake_records;
    }

keys_of : {V : Type 0} → Map ℕ V → List ℕ
keys_of [] = []
keys_of ((k, v) ∷ m) = k ∷ keys_of m

-- `dedup()`: of equal neighbours the first is kept.
dedup_keys : List ℕ → List ℕ
dedup_keys [] = []
dedup_keys (x ∷ []) = x ∷ []
dedup_keys (x ∷ (y ∷ ys)) = let rest = dedup_keys (y ∷ ys) in if x == y then rest else x ∷ rest

unfoldable pub all_keys : DurationDb → List ℕ
unfolding keys_of dedup_keys
all_keys db = dedup_keys (
    sort leb (
      keys_of db.perf.of_local
      ++ (keys_of db.perf.of_remote
          ++ (keys_of db.flakes.of_local ++ keys_of db.flakes.of_remote))))

unfoldable pub get_name : DurationDb → ℕ → Option TestIdentity
get_name db key = lookup key db.names
