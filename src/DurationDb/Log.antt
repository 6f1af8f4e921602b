-- ===== src/DurationDb/Log.antt =====
-- src/duration_db.rs: the logs perf.log, flake.log and names.log, which `flush` appends to and
-- `load` replays.
pub mod Laws
pub mod Names
use quokka.Prelude.{
  Text, text, text_eq, text_eq_iff, text_eq_refl, strip_prefix, split_once, show_nat, Bool, true,
  false, not, ◌&&◌, ◌||◌, Option, none, some, ℕ, zero, suc, ◌+◌, ◌-◌, ◌*◌, ◌/◌, ◌%◌, ◌^◌, ◌≤◌, ◌<◌,
  max, min, ltb, leb, ◌==◌, if◌then◌else◌, ==_iff, Bool-cases, Option-cases, ◌≡◌, refl, sym, ap,
  ◌∙◌, ◌≢◌, ◌↔◌, ◌⊎◌, inl, inr, List, [], ◌∷◌, ◌++◌, map, Perm, arith, length, get_elem?, take,
  drop, replicate, any, filter, is_empty, All, flatten, Result, ok, err, ◌>>=◌, Key, Map, lookup,
  insert, remove, lookup-insert, lookup-insert_self, lookup-insert_ne, nat_key, text_key,
}
use quokka.Std.{le_bytes}
use quokka.Outcome.{TestIdentity, FailureClass}
use quokka.DurationDb.{
  Environment, local, remote, PerfRecord, FlakeRecord, PerEnvironment, at, update, record_perf,
  record_flake, perf_or_default, flake_or_default,
}
use quokka.DurationDb.Bytes.{from_le_bytes, read_uint}
use quokka.DurationDb.Identity.{
  failure_class_from_u8, class_byte, read_test_identity, write_test_identity,
}

abbrev pub PerfSample : Type 0
PerfSample = Environment × ℕ × ℕ × ℕ

abbrev pub FlakeEvent : Type 0
FlakeEvent = Environment × ℕ × Bool × Option FailureClass × ℕ

abbrev pub PerfTables : Type 0
PerfTables = PerEnvironment (Map ℕ PerfRecord)

abbrev pub FlakeTables : Type 0
FlakeTables = PerEnvironment (Map ℕ FlakeRecord)

-- `Environment::to_index`
unfoldable pub to_index : Environment → ℕ
to_index local = 0
to_index remote = 1

unfoldable pub from_index : ℕ → Option Environment
from_index zero = some local
from_index (suc zero) = some remote
from_index (suc (suc i)) = none

-- `buf[i..i + n]` as a number.
unfoldable pub uint_at : ℕ → ℕ → Text → ℕ
uint_at i n buf = from_le_bytes (take n (drop i buf))

-- `while i + size <= buf.len()`; each round takes a byte at least, so `length buf` rounds do.
unfoldable pub chunks : ℕ → ℕ → Text → List Text
chunks size zero buf = []
chunks size (suc fuel) buf =
    let rest = chunks size fuel (drop size buf) in
    if leb size (length buf) then take size buf ∷ rest else []

-- `perf[env].entry(k).or_default().record(ts, dur)`
unfoldable pub add_sample : PerfTables → Environment → ℕ → ℕ → ℕ → PerfTables
add_sample tables env key ts dur =
    let table = at tables env in
    update tables env (insert key (record_perf (perf_or_default (lookup key table)) ts dur) table)

-- `flake[env].entry(k).or_default().record(failed, class, ts)`
unfoldable pub add_event :
    FlakeTables → Environment → ℕ → Bool → Option FailureClass → ℕ → FlakeTables
add_event tables env key failed class ts =
    let table = at tables env in
    update tables env
      (insert key (record_flake (flake_or_default (lookup key table)) failed class ts) table)

unfoldable pub encode_sample : PerfSample → Text
encode_sample (env, key, ts, dur) =
    (to_index env ∷ []) ++ (le_bytes 8 key ++ (le_bytes 8 ts ++ le_bytes 8 dur))

bool_byte : Bool → ℕ
bool_byte true = 1
bool_byte false = 0

unfoldable pub encode_event : FlakeEvent → Text
unfolding bool_byte
encode_event (env, key, failed, class, ts) =
    (to_index env ∷ [])
    ++ (le_bytes 8 key ++ ((bool_byte failed ∷ []) ++ ((class_byte class ∷ []) ++ le_bytes 8 ts)))

sample_in : PerfTables → Text → Option Environment → PerfTables
sample_in tables record_ none = tables
sample_in tables record_ (some env) =
    add_sample tables env (uint_at 1 8 record_) (uint_at 9 8 record_) (uint_at 17 8 record_)

unfoldable pub replay_sample : PerfTables → Text → PerfTables
unfolding sample_in
replay_sample tables record_ = sample_in tables record_ (from_index (uint_at 0 1 record_))

event_in : FlakeTables → Text → Option Environment → FlakeTables
event_in tables record_ none = tables
event_in tables record_ (some env) =
    add_event tables env (uint_at 1 8 record_) (not (uint_at 9 1 record_ == 0))
      (failure_class_from_u8 (uint_at 10 1 record_)) (uint_at 11 8 record_)

unfoldable pub replay_event : FlakeTables → Text → FlakeTables
unfolding event_in
replay_event tables record_ = event_in tables record_ (from_index (uint_at 0 1 record_))

abbrev pub fold : {S A : Type 0} → (S → A → S) → S → List A → S
fold f s [] = s
fold f s (a ∷ as_) = fold f (f s a) as_

unfoldable pub replay_perf_log : PerfTables → Text → PerfTables
replay_perf_log tables buf = fold replay_sample tables (chunks 25 (length buf) buf)

unfoldable pub replay_flake_log : FlakeTables → Text → FlakeTables
replay_flake_log tables buf = fold replay_event tables (chunks 19 (length buf) buf)

unfoldable pub encode_name : ℕ × TestIdentity → Text
encode_name (key, tid) = le_bytes 8 key ++ write_test_identity tid

name_in : ℕ → Option TestIdentity → Map ℕ TestIdentity → Map ℕ TestIdentity
name_in key none names = names
name_in key (some tid) names = insert key tid names

-- The body of the loop behind the key; a key that cannot be read ends the loop.
after_key :
    (Map ℕ TestIdentity → Text → Map ℕ TestIdentity)
    → Map ℕ TestIdentity
    → Option ℕ × Text
    → Map ℕ TestIdentity
unfolding name_in
after_key more names (none, rest) = names
after_key more names (some key, rest) =
    let (tid, left) = read_test_identity rest in more (name_in key tid names) left

-- `while reader.position() < len`; each round takes a byte at least.
names_loop : ℕ → Map ℕ TestIdentity → Text → Map ℕ TestIdentity
unfolding after_key
names_loop zero names input = names
names_loop (suc fuel) names [] = names
names_loop (suc fuel) names (b ∷ input) =
    after_key (names_loop fuel) names (read_uint 8 (b ∷ input))

unfoldable pub replay_names_log : Map ℕ TestIdentity → Text → Map ℕ TestIdentity
unfolding names_loop
replay_names_log names buf = names_loop (length buf) names buf
