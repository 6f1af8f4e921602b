-- ===== src/DurationDb/Snapshot.antt =====
-- src/duration_db.rs: the compacted files perf.bin, flake.bin and names.bin, as `load` reads them and
-- `flush` writes them. A hash map is read and written in the order of its list.
pub mod Laws
pub mod Files
use quokka.Prelude.{
  Text, text, text_eq, text_eq_iff, text_eq_refl, strip_prefix, split_once, show_nat, Bool, true,
  false, not, ◌&&◌, ◌||◌, Option, none, some, ℕ, zero, suc, ◌+◌, ◌-◌, ◌*◌, ◌/◌, ◌%◌, ◌^◌, ◌≤◌, ◌<◌,
  max, min, ltb, leb, ◌==◌, if◌then◌else◌, ==_iff, Bool-cases, Option-cases, ◌≡◌, refl, sym, ap,
  ◌∙◌, ◌≢◌, ◌↔◌, ◌⊎◌, inl, inr, List, [], ◌∷◌, ◌++◌, map, Perm, arith, length, get_elem?, take,
  drop, replicate, any, filter, is_empty, All, flatten, Result, ok, err, Key, Map, lookup, insert,
  remove, lookup-insert, lookup-insert_self, lookup-insert_ne, nat_key, text_key,
}
use quokka.Std.{le_bytes}
use quokka.Outcome.{TestIdentity}
use quokka.DurationDb.{DurationSample, PerfRecord, FlakeRecord}
use quokka.DurationDb.Bytes.{Reader, read_exact, read_uint, read_many, pure, fail, ◌>>=◌}
use quokka.DurationDb.Identity.{
  failure_class_from_u8, class_byte, read_test_identity, write_test_identity,
}
use quokka.DurationDb.Log.{PerfTables, FlakeTables}

-- `u64::MAX`, which stands for no timestamp.
abbrev pub u64_max : ℕ
u64_max = 0xFFFF_FFFF_FFFF_FFFF

unfoldable pub write_sample : DurationSample → Text
write_sample s = le_bytes 8 s.timestamp_ms ++ le_bytes 8 s.duration_ms

unfoldable pub read_sample : Reader DurationSample
read_sample = do
  ts ← read_uint 8
  dur ← read_uint 8
  pure (record { timestamp_ms = ts; duration_ms = dur })

-- The number of samples is cast to `u8`.
unfoldable pub write_perf_entry : ℕ × PerfRecord → Text
write_perf_entry (k, samples) =
    le_bytes 8 k ++ (le_bytes 1 (length samples) ++ flatten (map write_sample samples))

read_samples : ℕ → Reader PerfRecord
read_samples n input = let (samples, rest) = read_many read_sample n input in (some samples, rest)

unfoldable pub read_perf_entry : Reader (ℕ × PerfRecord)
unfolding read_samples
read_perf_entry = do
  k ← read_uint 8
  s_len ← read_uint 1
  samples ← read_samples s_len
  pure (k, samples)

abbrev timestamp_or_max : Option ℕ → ℕ
timestamp_or_max none = u64_max
timestamp_or_max (some ts) = ts

unfoldable pub write_flake_entry : ℕ × FlakeRecord → Text
write_flake_entry (k, v) =
    le_bytes 8 k
    ++ (le_bytes 8 v.runs
        ++ (le_bytes 8 v.failures
            ++ (le_bytes 8 (timestamp_or_max v.last_failure_timestamp_ms)
                ++ (class_byte v.last_failure_class ∷ []))))

unfoldable pub timestamp_of : ℕ → Option ℕ
timestamp_of ts = if ts == u64_max then none else some ts

unfoldable pub read_flake_entry : Reader (ℕ × FlakeRecord)
unfolding timestamp_of
read_flake_entry = do
  k ← read_uint 8
  runs ← read_uint 8
  failures ← read_uint 8
  ts ← read_uint 8
  class ← read_uint 1
  pure (
    k,
    record {
      runs = runs;
      failures = failures;
      last_failure_timestamp_ms = timestamp_of ts;
      last_failure_class = failure_class_from_u8 class;
    },
  )

unfoldable pub write_name_entry : ℕ × TestIdentity → Text
write_name_entry (k, tid) = le_bytes 8 k ++ write_test_identity tid

unfoldable pub read_name_entry : Reader (ℕ × TestIdentity)
read_name_entry = do k ← read_uint 8; tid ← read_test_identity; pure (k, tid)

module _ {V : Type 0} where
  insert_all : Map ℕ V → List (ℕ × V) → Map ℕ V
  insert_all m [] = m
  insert_all m ((k, v) ∷ entries) = insert_all (insert k v m) entries

  table_of_len : Reader (ℕ × V) → Option ℕ × Text → Map ℕ V × Text
  unfolding insert_all
  table_of_len read (none, rest) = ([], rest)
  table_of_len read (some len, rest) =
      let (entries, left) = read_many read len rest in (insert_all [] entries, left)

  -- The number of entries, then the entries; those that cannot be read are left out.
  unfoldable pub read_table : Reader (ℕ × V) → Text → Map ℕ V × Text
  unfolding table_of_len
  read_table read input = table_of_len read (read_uint 4 input)

  -- The number of entries is cast to `u32`.
  unfoldable pub write_table : (ℕ × V → Text) → Map ℕ V → Text
  write_table write m = le_bytes 4 (length m) ++ flatten (map write m)

if_magic : {A : Type 0} → Text → A → (Text → A) → Option Text × Text → A
if_magic magic default read (none, rest) = default
if_magic magic default read (some bytes, rest) = if text_eq bytes magic then read rest else default

-- A file whose first four bytes are another format's is empty.
unfoldable pub read_file : {A : Type 0} → Text → A → (Text → A) → Text → A
unfolding if_magic
read_file magic default read input = if_magic magic default read (read_exact 4 input)

unfoldable pub read_perf_bin : Text → PerfTables
unfolding read_file
read_perf_bin input =
    read_file (text "PRF1") (record { of_local = []; of_remote = [] })
      (λ s0.
        let (of_local, s1) = read_table read_perf_entry s0 in
        let (of_remote, s2) = read_table read_perf_entry s1 in
        record { of_local = of_local; of_remote = of_remote })
      input

unfoldable pub write_perf_bin : PerfTables → Text
write_perf_bin tables =
    text "PRF1"
    ++ (write_table write_perf_entry tables.of_local
        ++ write_table write_perf_entry tables.of_remote)

unfoldable pub read_flake_bin : Text → FlakeTables
unfolding read_file
read_flake_bin input =
    read_file (text "FLK1") (record { of_local = []; of_remote = [] })
      (λ s0.
        let (of_local, s1) = read_table read_flake_entry s0 in
        let (of_remote, s2) = read_table read_flake_entry s1 in
        record { of_local = of_local; of_remote = of_remote })
      input

unfoldable pub write_flake_bin : FlakeTables → Text
write_flake_bin tables =
    text "FLK1"
    ++ (write_table write_flake_entry tables.of_local
        ++ write_table write_flake_entry tables.of_remote)

unfoldable pub read_names_bin : Text → Map ℕ TestIdentity
unfolding read_file
read_names_bin input = read_file (text "NMS1") [] (λ s. (read_table read_name_entry s).0) input

unfoldable pub write_names_bin : Map ℕ TestIdentity → Text
write_names_bin names = text "NMS1" ++ write_table write_name_entry names
