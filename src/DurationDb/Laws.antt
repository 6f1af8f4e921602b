-- ===== src/DurationDb/Laws.antt =====
-- What recording a run keeps of the history.
use quokka.Prelude.{
  Bool, true, false, Option, some, ℕ, zero, suc, ◌+◌, ◌^◌, ◌≤◌, ◌<◌, ◌==◌, Bool-cases, Option-cases,
  ◌≡◌, refl, sym, inl, inr, List, [], ◌∷◌, arith, length, take, All, Map, lookup, insert, nat_key,
  text_key,
}
use quokka.Outcome.{Duration, FailureClass, TestIdentity}
use quokka.DurationDb.{
  Environment, local, remote, max_samples, PerfRecord, sort_and_truncate, record_perf, FlakeRecord,
  record_flake, at, update, DurationDb, record_discovered_name, record_at, perf_or_default, millis,
  flake_or_default,
}

length-take : {A : Type 0} → (n : ℕ) (xs : List A) → length (take n xs) ≤ n
length-take zero xs = omega arith
length-take (suc n) [] = omega arith
length-take (suc n) (x ∷ xs) = omega (arith, length-take n xs)

-- Every value of the map has the property.
abbrev pub AllValues : {V : Type 0} → (V → Type 0) → Map ℕ V → Type 0
AllValues P m = All (λ e. P e.1) m

AllValues-insert :
    {V : Type 0}
    → (P : V → Type 0) (k : ℕ) (v : V) (m : Map ℕ V) → P v
    → AllValues P m
    → AllValues P (insert k v m)
unfolding insert
AllValues-insert P k v [] p h = (p, tt)
AllValues-insert P k v ((j, w) ∷ m) p h = elim (Bool-cases (j == k)) [
  | inl e ↦ rw e (p, h.1)
  | inr e ↦ rw e (h.0, AllValues-insert P k v m p h.1)
]

AllValues-lookup :
    {V : Type 0}
    → (P : V → Type 0) (k : ℕ) (m : Map ℕ V) (v : V) → AllValues P m
    → lookup k m ≡ some v
    → P v
unfolding lookup
AllValues-lookup P k [] v h e = cc
AllValues-lookup P k ((j, w) ∷ m) v h e = elim (Bool-cases (j == k)) [
  | inl f ↦ let same : w ≡ v = ground arith in rw (sym same) h.0
  | inr f ↦ AllValues-lookup P k m v h.1 (ground arith)
]

abbrev pub IsBounded : PerfRecord → Type 0
IsBounded samples = length samples ≤ max_samples

abbrev pub IsCounted : FlakeRecord → Type 0
IsCounted r = r.failures ≤ r.runs

pub record IsValid (db : DurationDb) : Type 0 where
  pub perf_local : AllValues IsBounded (at db.perf local)
  pub perf_remote : AllValues IsBounded (at db.perf remote)
  pub flakes_local : AllValues IsCounted (at db.flakes local)
  pub flakes_remote : AllValues IsCounted (at db.flakes remote)

-- One more run of any test can be counted.
abbrev pub HasRoom : FlakeRecord → Type 0
HasRoom r = r.runs + 1 < 2 ^ 64

record_perf-IsBounded :
    (r : PerfRecord) (timestamp_ms duration_ms : ℕ)
    → IsBounded (record_perf r timestamp_ms duration_ms)
unfolding record_perf sort_and_truncate
record_perf-IsBounded r timestamp_ms duration_ms = length-take max_samples _

record_flake-IsCounted :
    (r : FlakeRecord) (failed : Bool) (class : Option FailureClass) (timestamp_ms : ℕ)
    → IsCounted r
    → HasRoom r
    → IsCounted (record_flake r failed class timestamp_ms)
unfolding record_flake
record_flake-IsCounted r failed class timestamp_ms h room = ground arith

flake_or_default-IsCounted :
    (k : ℕ) (m : Map ℕ FlakeRecord)
    → AllValues IsCounted m
    → AllValues HasRoom m
    → IsCounted (flake_or_default (lookup k m)) × HasRoom (flake_or_default (lookup k m))
flake_or_default-IsCounted k m h room = elim (Option-cases (lookup k m)) [
  | inl e ↦ rw e (omega arith, omega arith)
  | inr (v, e) ↦ rw e (AllValues-lookup IsCounted k m v h e, AllValues-lookup HasRoom k m v room e)
]

module _ (hash_key : TestIdentity → ℕ) where
  discovered_keeps :
      (db : DurationDb) (test_id : TestIdentity)
      → ((record_discovered_name hash_key db test_id).perf ≡ db.perf)
        × ((record_discovered_name hash_key db test_id).flakes ≡ db.flakes)
  unfolding record_discovered_name
  discovered_keeps db test_id = elim (Option-cases (lookup (hash_key test_id) db.names)) [
    | inl e ↦ rw e (refl, refl)
    | inr (v, e) ↦ rw e (refl, refl)
  ]

  flakes_recorded :
      (failed : Bool) (class : Option FailureClass) (timestamp_ms key : ℕ) (m : Map ℕ FlakeRecord)
      → AllValues IsCounted m
      → AllValues HasRoom m
      → AllValues IsCounted
          (insert key (record_flake (flake_or_default (lookup key m)) failed class timestamp_ms) m)
  flakes_recorded failed class timestamp_ms key m h room =
      let (counted, mine) = flake_or_default-IsCounted key m h room in
      AllValues-insert IsCounted key _ m
        (record_flake-IsCounted (flake_or_default (lookup key m)) failed class timestamp_ms counted
          mine)
        h

  perf_recorded :
      (timestamp_ms duration_ms key : ℕ) (m : Map ℕ PerfRecord)
      → AllValues IsBounded m
      → AllValues IsBounded
          (insert key (record_perf (perf_or_default (lookup key m)) timestamp_ms duration_ms) m)
  perf_recorded timestamp_ms duration_ms key m h =
      AllValues-insert IsBounded key _ m
        (record_perf-IsBounded (perf_or_default (lookup key m)) timestamp_ms duration_ms) h

  -- No write of the history breaks its bounds: no test keeps more than 64 samples in an environment,
  -- and none has more failures than runs there. In the environment of the write, every counter of
  -- runs is at least two below 2 ^ 64, where it would wrap around.
  pub record_at-IsValid :
      (db : DurationDb) (env : Environment) (test_id : TestIdentity) (duration : Duration)
      (failed : Bool) (failure_class : Option FailureClass) (timestamp_ms : ℕ)
      → IsValid db
      → AllValues HasRoom (at db.flakes env)
      → IsValid (record_at hash_key db env test_id duration failed failure_class timestamp_ms)
  unfolding record_at at update
  record_at-IsValid db local test_id duration true class timestamp_ms h room =
      let (perf, flakes) = discovered_keeps db test_id in
      record {
        perf_local = rw perf (h.perf_local);
        perf_remote = rw perf (h.perf_remote);
        flakes_local = rw flakes (
            flakes_recorded true class timestamp_ms (hash_key test_id) (at db.flakes local)
              h.flakes_local room);
        flakes_remote = rw flakes (h.flakes_remote);
      }
  record_at-IsValid db local test_id duration false class timestamp_ms h room =
      let (perf, flakes) = discovered_keeps db test_id in
      record {
        perf_local = rw perf (
            perf_recorded timestamp_ms (millis hash_key duration) (hash_key test_id)
              (at db.perf local) h.perf_local);
        perf_remote = rw perf (h.perf_remote);
        flakes_local = rw flakes (
            flakes_recorded false class timestamp_ms (hash_key test_id) (at db.flakes local)
              h.flakes_local room);
        flakes_remote = rw flakes (h.flakes_remote);
      }
  record_at-IsValid db remote test_id duration true class timestamp_ms h room =
      let (perf, flakes) = discovered_keeps db test_id in
      record {
        perf_local = rw perf (h.perf_local);
        perf_remote = rw perf (h.perf_remote);
        flakes_local = rw flakes (h.flakes_local);
        flakes_remote = rw flakes (
            flakes_recorded true class timestamp_ms (hash_key test_id) (at db.flakes remote)
              h.flakes_remote room);
      }
  record_at-IsValid db remote test_id duration false class timestamp_ms h room =
      let (perf, flakes) = discovered_keeps db test_id in
      record {
        perf_local = rw perf (h.perf_local);
        perf_remote = rw perf (
            perf_recorded timestamp_ms (millis hash_key duration) (hash_key test_id)
              (at db.perf remote) h.perf_remote);
        flakes_local = rw flakes (h.flakes_local);
        flakes_remote = rw flakes (
            flakes_recorded false class timestamp_ms (hash_key test_id) (at db.flakes remote)
              h.flakes_remote room);
      }
