-- ===== src/DurationDb.antt =====
-- src/duration_db.rs: the history of durations and failures of tests.
-- The hash of an identity (`hash_key`, over a third-party hasher) is a parameter.
pub mod Percentile
pub mod Laws
pub mod Bytes
pub mod Identity
pub mod Snapshot
pub mod Log
pub mod Store
pub mod Combine
use quokka.Prelude.{
  Text, text, text_eq, text_eq_iff, text_eq_refl, strip_prefix, split_once, show_nat, Bool, true,
  false, not, ◌&&◌, ◌||◌, Option, none, some, ℕ, zero, suc, ◌+◌, ◌-◌, ◌*◌, ◌/◌, ◌%◌, ◌^◌, ◌≤◌, ◌<◌,
  max, min, ltb, leb, ◌==◌, if◌then◌else◌, ==_iff, Bool-cases, Option-cases, ◌≡◌, refl, sym, ap,
  ◌∙◌, ◌≢◌, ◌↔◌, ◌⊎◌, inl, inr, List, [], ◌∷◌, ◌++◌, map, Perm, arith, length, get_elem?, take,
  drop, replicate, any, filter, is_empty, All, flatten, Result, ok, err, ◌>>=◌, Key, Map, lookup,
  insert, remove, lookup-insert, lookup-insert_self, lookup-insert_ne, nat_key, text_key,
}
use quokka.Prelude.{sort, add_u64}
use quokka.Outcome.{Duration, FailureClass, TestIdentity}
use Percentile.{percentile}

pub data Environment : Type 0 where
  local remote : Environment

pub data DurationEstimate : Type 0 where
  measured : (p50_ms p95_ms : ℕ) → DurationEstimate
  unseen : DurationEstimate

unfoldable pub weight_ms : DurationEstimate → ℕ → ℕ
weight_ms (measured p50_ms p95_ms) unseen_default_ms = p95_ms
weight_ms unseen unseen_default_ms = unseen_default_ms

unfoldable pub p50_ms : DurationEstimate → ℕ → ℕ
p50_ms (measured p50 p95) unseen_default_ms = p50
p50_ms unseen unseen_default_ms = unseen_default_ms

pub record DurationSample : Type 0 where
  pub timestamp_ms : ℕ
  pub duration_ms : ℕ

abbrev pub max_samples : ℕ
max_samples = 64

-- A `PerfRecord` is its samples. The derived order compares the timestamp, then the duration.
abbrev pub PerfRecord : Type 0
PerfRecord = List DurationSample

-- `b.cmp(a)` does not put `a` behind `b`.
sample_before : DurationSample → DurationSample → Bool
sample_before a b =
    ltb b.timestamp_ms a.timestamp_ms
    || (b.timestamp_ms == a.timestamp_ms) && leb b.duration_ms a.duration_ms

unfoldable pub sort_and_truncate : PerfRecord → PerfRecord
unfolding sample_before
sort_and_truncate samples = take max_samples (sort sample_before samples)

unfoldable pub record_perf : PerfRecord → ℕ → ℕ → PerfRecord
record_perf r timestamp_ms duration_ms =
    sort_and_truncate (r ++ record { timestamp_ms = timestamp_ms; duration_ms = duration_ms } ∷ [])

unfoldable pub combine_perf : PerfRecord → PerfRecord → PerfRecord
combine_perf r other = sort_and_truncate (r ++ other)

pub record FlakeRecord : Type 0 where
  pub runs : ℕ
  pub failures : ℕ
  pub last_failure_timestamp_ms : Option ℕ
  pub last_failure_class : Option FailureClass

abbrev empty_flake : FlakeRecord
empty_flake = record {
  runs = 0;
  failures = 0;
  last_failure_timestamp_ms = none;
  last_failure_class = none;
}

abbrev or_zero : Option ℕ → ℕ
or_zero none = 0
or_zero (some n) = n

unfoldable pub record_flake : FlakeRecord → Bool → Option FailureClass → ℕ → FlakeRecord
record_flake r false class timestamp_ms = record r { runs = add_u64 r.runs 1 }
record_flake r true class timestamp_ms =
    let counted = record r { runs = add_u64 r.runs 1; failures = add_u64 r.failures 1 } in
    if leb (or_zero r.last_failure_timestamp_ms) timestamp_ms
    then record counted {
      last_failure_timestamp_ms = some timestamp_ms;
      last_failure_class = class;
    }
    else counted

abbrev adopt_last : FlakeRecord → Option ℕ → Option FailureClass → FlakeRecord
adopt_last r none class = r
adopt_last r (some other_ts) class =
    if leb (or_zero r.last_failure_timestamp_ms) other_ts
    then record r { last_failure_timestamp_ms = some other_ts; last_failure_class = class }
    else r

unfoldable pub combine_flake : FlakeRecord → FlakeRecord → FlakeRecord
combine_flake r other =
    adopt_last
      (record r { runs = add_u64 r.runs other.runs; failures = add_u64 r.failures other.failures })
      other.last_failure_timestamp_ms other.last_failure_class

-- `[T; 2]`, indexed by `Environment::to_index`.
pub record PerEnvironment (A : Type 0) : Type 0 where
  pub of_local : A
  pub of_remote : A

unfoldable pub at : {A : Type 0} → PerEnvironment A → Environment → A
at t local = t.of_local
at t remote = t.of_remote

unfoldable pub update : {A : Type 0} → PerEnvironment A → Environment → A → PerEnvironment A
update t local a = record t { of_local = a }
update t remote a = record t { of_remote = a }

pub record DurationDb : Type 0 where
  pub perf : PerEnvironment (Map ℕ PerfRecord)
  pub flakes : PerEnvironment (Map ℕ FlakeRecord)
  pub names : Map ℕ TestIdentity
  pub new_perf_samples : List (Environment × ℕ × ℕ × ℕ)
  pub new_flake_records : List (Environment × ℕ × Bool × Option FailureClass × ℕ)
  pub new_names : List (ℕ × TestIdentity)

abbrev pub ephemeral : DurationDb
ephemeral = record {
  perf = record { of_local = []; of_remote = [] };
  flakes = record { of_local = []; of_remote = [] };
  names = [];
  new_perf_samples = [];
  new_flake_records = [];
  new_names = [];
}

-- `entry(key).or_default()` read without the write.
abbrev perf_or_default : Option PerfRecord → PerfRecord
perf_or_default none = []
perf_or_default (some r) = r

abbrev flake_or_default : Option FlakeRecord → FlakeRecord
flake_or_default none = empty_flake
flake_or_default (some r) = r

abbrev add_perf : PerfRecord → Option PerfRecord → PerfRecord
add_perf combined none = combined
add_perf combined (some r) = combine_perf combined r

-- The records of one environment, or of both in the order of `Environment::ALL`.
unfoldable pub get_perf_samples : DurationDb → Option Environment → ℕ → List DurationSample
unfolding at
get_perf_samples db (some e) key = add_perf [] (lookup key (at db.perf e))
get_perf_samples db none key =
    add_perf (add_perf [] (lookup key (at db.perf local))) (lookup key (at db.perf remote))

unfoldable pub estimate_by_key : DurationDb → Option Environment → ℕ → DurationEstimate
unfolding get_perf_samples
estimate_by_key db env key =
    let samples = get_perf_samples db env key in
    let ms_samples = map (λ s. s.duration_ms) samples in
    if is_empty samples
    then unseen
    else measured (percentile ms_samples 50) (percentile ms_samples 95)

abbrev add_flake : Option FlakeRecord → Option FlakeRecord → Option FlakeRecord
add_flake combined none = combined
add_flake combined (some r) = some (combine_flake (flake_or_default combined) r)

unfoldable pub get_flake_record : DurationDb → Option Environment → ℕ → Option FlakeRecord
unfolding at
get_flake_record db (some e) key = add_flake none (lookup key (at db.flakes e))
get_flake_record db none key =
    add_flake (add_flake none (lookup key (at db.flakes local))) (lookup key (at db.flakes remote))

module _ (hash_key : TestIdentity → ℕ) where
  unfoldable pub estimate : DurationDb → Option Environment → TestIdentity → DurationEstimate
  unfolding estimate_by_key
  estimate db env test_id = estimate_by_key db env (hash_key test_id)

  unfoldable pub flake : DurationDb → Option Environment → TestIdentity → Option FlakeRecord
  unfolding get_flake_record
  flake db env test_id = get_flake_record db env (hash_key test_id)

  abbrev name_if_new : DurationDb → ℕ → TestIdentity → Option TestIdentity → DurationDb
  name_if_new db key test_id (some known) = db
  name_if_new db key test_id none = record db {
    names = insert key test_id db.names;
    new_names = db.new_names ++ (key, test_id) ∷ [];
  }

  unfoldable pub record_discovered_name : DurationDb → TestIdentity → DurationDb
  record_discovered_name db test_id =
      let key = hash_key test_id in name_if_new db key test_id (lookup key db.names)

  -- `as_millis() as u64`
  abbrev millis : Duration → ℕ
  millis duration = (duration / 1_000_000) % 2 ^ 64

  abbrev with_perf : Bool → DurationDb → Environment → ℕ → Duration → ℕ → DurationDb
  unfolding at update
  with_perf true db env key duration timestamp_ms = db
  with_perf false db env key duration timestamp_ms =
      let table = at db.perf env in
      let perf = perf_or_default (lookup key table) in
      record db {
        perf =
            update db.perf env (insert key (record_perf perf timestamp_ms (millis duration)) table);
        new_perf_samples = db.new_perf_samples ++ (env, key, timestamp_ms, millis duration) ∷ [];
      }

  unfoldable pub record_at :
      DurationDb
      → Environment
      → TestIdentity
      → Duration
      → Bool
      → Option FailureClass
      → ℕ
      → DurationDb
  unfolding record_discovered_name with_perf
  record_at db env test_id duration failed failure_class timestamp_ms =
      let key = hash_key test_id in
      let named = record_discovered_name db test_id in
      let timed = with_perf failed named env key duration timestamp_ms in
      let table = at timed.flakes env in
      let flake = flake_or_default (lookup key table) in
      record timed {
        flakes =
            update timed.flakes env
              (insert key (record_flake flake failed failure_class timestamp_ms) table);
        new_flake_records =
            timed.new_flake_records ++ (env, key, failed, failure_class, timestamp_ms) ∷ [];
      }
