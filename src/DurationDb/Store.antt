-- ===== src/DurationDb/Store.antt =====
-- src/duration_db.rs: the store on disk, `load` and `flush`. A file is its bytes, none where it is
-- missing; the lock file and the names of the files are not modelled. What the file system does is a
-- parameter: an append that fails leaves part of its bytes, a compaction fails before or after the
-- rename.
pub mod Laws
pub mod Appends
pub mod Failures
pub mod History
use quokka.Prelude.{
  Text, text, text_eq, text_eq_iff, text_eq_refl, strip_prefix, split_once, show_nat, Bool, true,
  false, not, ◌&&◌, ◌||◌, Option, none, some, ℕ, zero, suc, ◌+◌, ◌-◌, ◌*◌, ◌/◌, ◌%◌, ◌^◌, ◌≤◌, ◌<◌,
  max, min, ltb, leb, ◌==◌, if◌then◌else◌, ==_iff, Bool-cases, Option-cases, ◌≡◌, refl, sym, ap,
  ◌∙◌, ◌≢◌, ◌↔◌, ◌⊎◌, inl, inr, List, [], ◌∷◌, ◌++◌, map, Perm, arith, length, get_elem?, take,
  drop, replicate, any, filter, is_empty, All, flatten, Result, ok, err, ◌>>=◌, Key, Map, lookup,
  insert, remove, lookup-insert, lookup-insert_self, lookup-insert_ne, nat_key, text_key,
}
use quokka.Outcome.{TestIdentity}
use quokka.DurationDb.{DurationDb, PerEnvironment, ephemeral}
use quokka.DurationDb.Log.{
  PerfTables, FlakeTables, encode_sample, encode_event, encode_name, replay_perf_log,
  replay_flake_log, replay_names_log,
}
use quokka.DurationDb.Snapshot.{
  read_perf_bin, write_perf_bin, read_flake_bin, write_flake_bin, read_names_bin, write_names_bin,
}

pub record Disk : Type 0 where
  pub perf_bin : Text
  pub perf_log : Text
  pub flake_bin : Text
  pub flake_log : Text
  pub names_bin : Text
  pub names_log : Text

pub data Append : Type 0 where
  appended : Append
  cut_off : (written : ℕ) → Append

pub data Compaction : Type 0 where
  compacted not_renamed not_truncated : Compaction

pub record FileSystem : Type 0 where
  pub create_dir : Bool
  pub perf : Append
  pub flakes : Append
  pub names : Append
  pub compact_perf : Compaction
  pub compact_flakes : Compaction
  pub compact_names : Compaction

pub data Failure : Type 0 where
  perf_samples flake_records names_of : (count : ℕ) → Failure
  compact_perf_bin compact_flake_bin compact_names_bin : Failure

pub data Flushed : Type 0 where
  flushed : Flushed
  no_directory : Flushed
  incomplete : (failures : List Failure) → Flushed

unfoldable pub load : Disk → DurationDb
load d = record ephemeral {
  perf = replay_perf_log (read_perf_bin d.perf_bin) d.perf_log;
  flakes = replay_flake_log (read_flake_bin d.flake_bin) d.flake_log;
  names = replay_names_log (read_names_bin d.names_bin) d.names_log;
}

unfoldable pub append_records : Append → Text → Text → Bool × Text
append_records appended file buf = (true, file ++ buf)
append_records (cut_off written) file buf = (false, file ++ take written buf)

-- What a flush works on: the store in memory, the one on disk, and the failures so far.
pub record Flushing : Type 0 where
  pub db : DurationDb
  pub disk : Disk
  pub errors : List Failure

unfoldable pub flush_perf : Append → Flushing → Flushing
unfolding append_records
flush_perf fs s =
    let samples = s.db.new_perf_samples in
    let (done, log) = append_records fs s.disk.perf_log (flatten (map encode_sample samples)) in
    if is_empty samples
    then s
    else (let disk = record s.disk { perf_log = log } in
        if done
        then record s { db = record s.db { new_perf_samples = [] }; disk = disk }
        else record s { disk = disk; errors = s.errors ++ perf_samples (length samples) ∷ [] })

unfoldable pub flush_flakes : Append → Flushing → Flushing
unfolding append_records
flush_flakes fs s =
    let events = s.db.new_flake_records in
    let (done, log) = append_records fs s.disk.flake_log (flatten (map encode_event events)) in
    if is_empty events
    then s
    else (let disk = record s.disk { flake_log = log } in
        if done
        then record s { db = record s.db { new_flake_records = [] }; disk = disk }
        else record s { disk = disk; errors = s.errors ++ flake_records (length events) ∷ [] })

unfoldable pub flush_names : Append → Flushing → Flushing
unfolding append_records
flush_names fs s =
    let names = s.db.new_names in
    let (done, log) = append_records fs s.disk.names_log (flatten (map encode_name names)) in
    if is_empty names
    then s
    else (let disk = record s.disk { names_log = log } in
        if done
        then record s { db = record s.db { new_names = [] }; disk = disk }
        else record s { disk = disk; errors = s.errors ++ names_of (length names) ∷ [] })

abbrev pub log_limit : ℕ
log_limit = 512 * 1024

unfoldable pub needs_compaction : Disk → Bool
needs_compaction d =
    ltb log_limit (length d.perf_log)
    || (ltb log_limit (length d.flake_log) || ltb log_limit (length d.names_log))

unfoldable pub write_perf : PerfTables → Compaction → Flushing → Flushing
write_perf t compacted s = record s {
  disk = record s.disk { perf_bin = write_perf_bin t; perf_log = [] };
}
write_perf t not_renamed s = record s { errors = s.errors ++ compact_perf_bin ∷ [] }
write_perf t not_truncated s = record s {
  disk = record s.disk { perf_bin = write_perf_bin t };
  errors = s.errors ++ compact_perf_bin ∷ [];
}

unfoldable pub write_flakes : FlakeTables → Compaction → Flushing → Flushing
write_flakes t compacted s = record s {
  disk = record s.disk { flake_bin = write_flake_bin t; flake_log = [] };
}
write_flakes t not_renamed s = record s { errors = s.errors ++ compact_flake_bin ∷ [] }
write_flakes t not_truncated s = record s {
  disk = record s.disk { flake_bin = write_flake_bin t };
  errors = s.errors ++ compact_flake_bin ∷ [];
}

unfoldable pub write_names : Map ℕ TestIdentity → Compaction → Flushing → Flushing
write_names t compacted s = record s {
  disk = record s.disk { names_bin = write_names_bin t; names_log = [] };
}
write_names t not_renamed s = record s { errors = s.errors ++ compact_names_bin ∷ [] }
write_names t not_truncated s = record s {
  disk = record s.disk { names_bin = write_names_bin t };
  errors = s.errors ++ compact_names_bin ∷ [];
}

unfoldable pub compact : FileSystem → Flushing → Flushing
unfolding load write_perf write_flakes write_names
compact fs s =
    let db_disk = load s.disk in
    write_names db_disk.names fs.compact_names
      (write_flakes db_disk.flakes fs.compact_flakes (write_perf db_disk.perf fs.compact_perf s))

-- The three logs, one after the other.
unfoldable pub append_all : FileSystem → Flushing → Flushing
unfolding flush_perf flush_flakes flush_names
append_all fs s = flush_names fs.names (flush_flakes fs.flakes (flush_perf fs.perf s))

abbrev pub start : DurationDb → Disk → Flushing
start db disk = record { db = db; disk = disk; errors = [] }

unfoldable pub flush_sections : FileSystem → DurationDb → Disk → Flushing
unfolding append_all compact needs_compaction
flush_sections fs db disk =
    let s = append_all fs (start db disk) in if needs_compaction s.disk then compact fs s else s

abbrev verdict : List Failure → Flushed
verdict [] = flushed
verdict (f ∷ errors) = incomplete (f ∷ errors)

-- A store whose directory is empty is not written.
unfoldable pub flush : Text → FileSystem → DurationDb → Disk → Flushed × DurationDb × Disk
unfolding flush_sections
flush dir fs db disk =
    if is_empty dir
    then (flushed, db, disk)
    else if fs.create_dir
    then (let s = flush_sections fs db disk in (verdict s.errors, s.db, s.disk))
    else (no_directory, db, disk)
