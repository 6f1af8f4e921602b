-- ===== src/DurationDb/Snapshot/Laws.antt =====
-- The compacted files, written and read.
use quokka.Prelude.{
  Text, text_eq_refl, Option, none, some, ℕ, ◌^◌, ◌<◌, ==_iff, ◌≡◌, refl, sym, ap, ◌∙◌, ◌≢◌, [],
  ◌∷◌, ◌++◌, map, arith, length, All, flatten, Map, lookup, insert, nat_key, text_key,
}
use mathlib.Core.Path.{subst}
use mathlib.Core.List.{append_assoc, append-nil}
use quokka.Std.{le_bytes}
use quokka.Outcome.{TestIdentity}
use quokka.DurationDb.{DurationSample, PerfRecord, FlakeRecord}
use quokka.DurationDb.Bytes.{Reader}
use quokka.DurationDb.Bytes.Laws.{
  read_exact-append, read_uint-le_bytes, read_many-write, Reads, read_uint-byte,
}
use quokka.DurationDb.Identity.{class_byte, write_test_identity}
use quokka.DurationDb.Identity.Laws.{from_u8-class_byte, read-write_test_identity}
use quokka.DurationDb.Log.Laws.{IsU64}
use quokka.DurationDb.Log.Names.{NameFits}
use quokka.DurationDb.Snapshot.{
  u64_max, write_sample, read_sample, write_perf_entry, read_samples, read_perf_entry,
  timestamp_or_max, timestamp_of, write_flake_entry, read_flake_entry, write_name_entry,
  read_name_entry, insert_all, table_of_len, read_table, write_table, if_magic, read_file,
}

-- No key stands twice in the list of a map.
abbrev pub DistinctKeys : {V : Type 0} → Map ℕ V → Type 0
DistinctKeys [] = Unit
DistinctKeys ((k, v) ∷ m) = (lookup k m ≡ none) × DistinctKeys m

module _ {V : Type 0} where
  insert-absent :
      (k : ℕ) (v : V) (m : Map ℕ V) → lookup k m ≡ none → insert k v m ≡ m ++ (k, v) ∷ []
  unfolding insert lookup
  insert-absent k v [] h = refl
  insert-absent k v ((j, w) ∷ m) h = ground (arith, insert-absent k v m)

  lookup-middle : (k : ℕ) (v : V) (m n : Map ℕ V) → lookup k (m ++ (k, v) ∷ n) ≢ none
  unfolding lookup
  lookup-middle k v [] n = ground (arith, ==_iff k k)
  lookup-middle k v ((j, w) ∷ m) n = ground (arith, lookup-middle k v m n)

  absent-before :
      (k : ℕ) (v : V) (m n : Map ℕ V) → DistinctKeys (m ++ (k, v) ∷ n) → lookup k m ≡ none
  unfolding lookup
  absent-before k v [] n h = refl
  absent-before k v ((j, w) ∷ m) n h =
      ground (arith, h.0, lookup-middle k v m n, absent-before k v m n h.1, ==_iff j k)

  insert_all-append :
      (m entries : Map ℕ V) → DistinctKeys (m ++ entries) → insert_all m entries ≡ m ++ entries
  unfolding insert_all
  insert_all-append m [] h = sym (append-nil m)
  insert_all-append m ((k, v) ∷ entries) h =
      let e = append_assoc m ((k, v) ∷ []) entries in
      ap (λ t. insert_all t entries) (insert-absent k v m (absent-before k v m entries h))
      ∙ insert_all-append (m ++ (k, v) ∷ []) entries (subst DistinctKeys (sym e) h)
      ∙ e

  module _ (read : Reader (ℕ × V)) (write : ℕ × V → Text) where
    pub record TableFits (m : Map ℕ V) : Type 0 where
      pub distinct : DistinctKeys m
      pub short : length m < 256 ^ 4
      pub entries : All (Reads read write) m

    pub read_table-write_table :
        (m : Map ℕ V) (rest : Text)
        → TableFits m
        → read_table read (write_table write m ++ rest) ≡ (m, rest)
    unfolding read_table write_table table_of_len
    read_table-write_table m rest h = rw (
      append_assoc (le_bytes 4 (length m)) (flatten (map write m)) rest,
      read_uint-le_bytes 4 (length m) (flatten (map write m) ++ rest) h.short,
      read_many-write read write m rest h.entries,
      insert_all-append [] m h.distinct,
    )

pub read_file-append :
    {A : Type 0} (magic rest : Text) (default : A) (read : Text → A)
    → length magic ≡ 4
    → read_file magic default read (magic ++ rest) ≡ read rest
unfolding read_file if_magic
read_file-append magic rest default read e =
    rw (read_exact-append 4 magic rest e, text_eq_refl magic)

abbrev pub SampleOk : DurationSample → Type 0
SampleOk s = IsU64 s.timestamp_ms × IsU64 s.duration_ms

read-write_sample : (s : DurationSample) → SampleOk s → Reads read_sample write_sample s
unfolding read_sample write_sample
read-write_sample s h rest = rw (
  append_assoc (le_bytes 8 s.timestamp_ms) (le_bytes 8 s.duration_ms) rest,
  read_uint-le_bytes 8 s.timestamp_ms (le_bytes 8 s.duration_ms ++ rest) h.0,
  read_uint-le_bytes 8 s.duration_ms rest h.1,
)

pub record PerfEntryFits (k : ℕ) (samples : PerfRecord) : Type 0 where
  pub key : IsU64 k
  pub count : length samples < 256
  pub all : All SampleOk samples

read-write_samples :
    (samples : PerfRecord) → All SampleOk samples → All (Reads read_sample write_sample) samples
read-write_samples [] h = tt
read-write_samples (s ∷ samples) h = (read-write_sample s h.0, read-write_samples samples h.1)

pub read-write_perf_entry :
    (k : ℕ) (samples : PerfRecord)
    → PerfEntryFits k samples
    → Reads read_perf_entry write_perf_entry (k, samples)
unfolding read_perf_entry write_perf_entry read_samples
read-write_perf_entry k samples h rest =
    let body = flatten (map write_sample samples) in
    let count = le_bytes 1 (length samples) in
    rw (
      append_assoc (le_bytes 8 k) (count ++ body) rest,
      append_assoc count body rest,
      read_uint-le_bytes 8 k (count ++ (body ++ rest)) h.key,
      read_uint-le_bytes 1 (length samples) (body ++ rest) (omega (arith, h.count)),
      read_many-write read_sample write_sample samples rest (read-write_samples samples h.all),
    )

-- A timestamp is less than `u64::MAX`, which is written for none.
abbrev pub TimestampFits : Option ℕ → Type 0
TimestampFits none = Unit
TimestampFits (some ts) = ts < u64_max

timestamp-or_max : (o : Option ℕ) → TimestampFits o → timestamp_of (timestamp_or_max o) ≡ o
unfolding timestamp_of
timestamp-or_max none h = refl
timestamp-or_max (some ts) h = ground (arith, ==_iff ts u64_max)

timestamp_or_max-IsU64 : (o : Option ℕ) → TimestampFits o → IsU64 (timestamp_or_max o)
timestamp_or_max-IsU64 none h = omega arith
timestamp_or_max-IsU64 (some ts) h = omega arith

pub record FlakeEntryFits (k : ℕ) (v : FlakeRecord) : Type 0 where
  pub key : IsU64 k
  pub runs : IsU64 v.runs
  pub failures : IsU64 v.failures
  pub timestamp : TimestampFits v.last_failure_timestamp_ms

pub read-write_flake_entry :
    (k : ℕ) (v : FlakeRecord) → FlakeEntryFits k v → Reads read_flake_entry write_flake_entry (k, v)
unfolding read_flake_entry write_flake_entry
read-write_flake_entry k v h rest =
    let ts = timestamp_or_max v.last_failure_timestamp_ms in
    let c = class_byte v.last_failure_class ∷ [] in
    let b1 = le_bytes 8 ts ++ c in
    let b2 = le_bytes 8 v.failures ++ b1 in
    let b3 = le_bytes 8 v.runs ++ b2 in
    rw (
      append_assoc (le_bytes 8 k) b3 rest,
      append_assoc (le_bytes 8 v.runs) b2 rest,
      append_assoc (le_bytes 8 v.failures) b1 rest,
      append_assoc (le_bytes 8 ts) c rest,
      read_uint-le_bytes 8 k
          (le_bytes 8 v.runs ++ (le_bytes 8 v.failures ++ (le_bytes 8 ts ++ (c ++ rest)))) h.key,
      read_uint-le_bytes 8 v.runs (le_bytes 8 v.failures ++ (le_bytes 8 ts ++ (c ++ rest))) h.runs,
      read_uint-le_bytes 8 v.failures (le_bytes 8 ts ++ (c ++ rest)) h.failures,
      read_uint-le_bytes 8 ts (c ++ rest)
          (timestamp_or_max-IsU64 v.last_failure_timestamp_ms h.timestamp),
      read_uint-byte (class_byte v.last_failure_class) rest,
      timestamp-or_max v.last_failure_timestamp_ms h.timestamp,
      from_u8-class_byte v.last_failure_class,
    )

pub read-write_name_entry :
    (k : ℕ) (tid : TestIdentity)
    → NameFits (k, tid)
    → Reads read_name_entry write_name_entry (k, tid)
unfolding read_name_entry write_name_entry
read-write_name_entry k tid h rest = rw (
  append_assoc (le_bytes 8 k) (write_test_identity tid) rest,
  read_uint-le_bytes 8 k (write_test_identity tid ++ rest) h.0,
  read-write_test_identity tid rest h.1,
)
