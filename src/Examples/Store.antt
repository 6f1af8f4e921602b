-- ===== src/Examples/Store.antt =====
-- The statements on the files of the history at concrete inputs.
use quokka.Prelude.{
  Text, text, false, none, ℕ, zero, suc, ◌≡◌, refl, ap, [], ◌∷◌, ◌++◌, map, arith, length,
  replicate, flatten, Map, lookup, insert, nat_key, text_key,
}
use quokka.Prelude.{sort}
use quokka.Std.{from_utf8, from_utf8_lossy}
use quokka.Variant.{parse, variant_text, identity}
use quokka.DurationDb
use quokka.DurationDb.{
  DurationDb, record_at, record_discovered_name, at, update, record_perf, record_flake,
  sort_and_truncate, PerfRecord,
}
use quokka.DurationDb.Bytes.{read_exact}
use quokka.DurationDb.Identity.{read_string, write_string}
use quokka.DurationDb.Identity.Laws.{IsRecordable, read_string-long}
use quokka.DurationDb.Log.{
  fold, encode_sample, chunks, replay_perf_log, replay_flake_log, encode_name, replay_names_log,
}
use quokka.DurationDb.Log.Laws.{apply_sample, replay_perf_log-encoded}
use quokka.DurationDb.Log.Names.{apply_name, replay_names_log-encoded}
use quokka.DurationDb.Snapshot.{read_names_bin, read_perf_bin, read_flake_bin}
use quokka.DurationDb.Snapshot.Files.{Holdable}
use quokka.DurationDb.Store.{Disk, load, flush, cut_off, FileSystem}
use quokka.DurationDb.Store.Appends.{kept}
use quokka.DurationDb.Store.Laws.{Whole, NewFits, Tracks, Compactable, SameTables, working}
use quokka.DurationDb.Store.Failures.{flush-kept, flush-IsSaved, IsSaved}
use quokka.DurationDb.Store.History.{Run, loaded, recorded, Run-Tracks, load-flush}
use quokka.DurationDb.Combine.{combine_table, combined, lookup-combine_table, perf_with}
use quokka.Examples.Data.{hash_key, id_of, parser_ok}

abbrev empty_disk : Disk
empty_disk = record {
  perf_bin = [];
  perf_log = [];
  flake_bin = [];
  flake_log = [];
  names_bin = [];
  names_log = [];
}

abbrev dir : Text
dir = text "/var/quokka"

-- A store that was loaded from nothing, and a test that passed in a millisecond.
abbrev db : DurationDb
db = record_at hash_key (load empty_disk) DurationDb.local (id_of parser_ok) 1_000_000 false none 17

db-Run : Run hash_key empty_disk db
db-Run =
    recorded (load empty_disk) DurationDb.local (id_of parser_ok) 1_000_000 false none 17 loaded

whole : Whole empty_disk
whole = record {
  samples = [];
  events = [];
  entries = [];
  perf_log = refl;
  flake_log = refl;
  names_log = refl;
  samples_fit = tt;
  events_fit = tt;
  entries_fit = tt;
}

recordable : IsRecordable (id_of parser_ok)
unfolding from_utf8 from_utf8_lossy variant_text parse identity
recordable = record {
  target = record { valid = refl; short = omega arith };
  name = record { valid = refl; short = omega arith };
  variant = record { valid = refl; short = omega arith };
  parsed = refl;
}

new_fits : NewFits db
unfolding load record_at record_discovered_name lookup replay_names_log read_names_bin read_exact
new_fits = record {
  samples = ((omega arith, omega arith, omega arith), tt);
  events = ((omega arith, omega arith), tt);
  entries = ((omega arith, recordable), tt);
}

no_entries : {V : Type 0} {Fits : ℕ × V → Type 0} → Holdable Fits []
no_entries = record { distinct = tt; short = omega arith; entries = tt }

compactable : Compactable db
unfolding load record_at record_discovered_name lookup insert at update record_perf record_flake
    sort_and_truncate replay_names_log replay_perf_log replay_flake_log read_names_bin read_perf_bin
    read_flake_bin read_exact chunks sort
compactable = record {
  perf = (
    record {
      distinct = (refl, tt);
      short = omega arith;
      entries = (
        record { key = omega arith; count = omega arith; all = ((omega arith, omega arith), tt) },
        tt,
      );
    },
    no_entries,
  );
  flakes = (
    record {
      distinct = (refl, tt);
      short = omega arith;
      entries = (
        record { key = omega arith; runs = omega arith; failures = omega arith; timestamp = tt },
        tt,
      );
    },
    no_entries,
  );
  names = record {
    distinct = (refl, tt);
    short = omega arith;
    entries = ((omega arith, recordable), tt);
  };
}

load-flush_example : SameTables (load (flush dir working db empty_disk).2) db
load-flush_example = load-flush hash_key empty_disk dir db refl db-Run whole new_fits compactable

Run-Tracks_example : Tracks db empty_disk
Run-Tracks_example = Run-Tracks hash_key empty_disk db db-Run

-- The append to perf.log is cut off behind seven bytes.
abbrev full_disk : FileSystem
full_disk = record working { perf = cut_off 7 }

flush-kept_example : (flush dir full_disk db empty_disk).1 ≡ kept full_disk db
flush-kept_example = flush-kept dir full_disk db empty_disk refl refl

flush-IsSaved_example : IsSaved (flush dir working (load empty_disk) empty_disk).1
unfolding flush load
flush-IsSaved_example = flush-IsSaved dir working (load empty_disk) empty_disk refl refl

replay_perf_log_example :
    replay_perf_log (load empty_disk).perf (
      flatten
        (map encode_sample ((DurationDb.local, 3, 17, 250) ∷ (DurationDb.remote, 4, 18, 1) ∷ []))
      ++ 1 ∷ 2 ∷ [])
    ≡ fold apply_sample
        (load empty_disk).perf
        ((DurationDb.local, 3, 17, 250) ∷ (DurationDb.remote, 4, 18, 1) ∷ [])
replay_perf_log_example =
    replay_perf_log-encoded (load empty_disk).perf
      ((DurationDb.local, 3, 17, 250) ∷ (DurationDb.remote, 4, 18, 1) ∷ []) (1 ∷ 2 ∷ [])
      ((omega arith, omega arith, omega arith), ((omega arith, omega arith, omega arith), tt))
      (omega arith)

replay_names_log_example :
    replay_names_log [] (flatten (map encode_name ((3, id_of parser_ok) ∷ [])))
    ≡ fold apply_name [] ((3, id_of parser_ok) ∷ [])
replay_names_log_example =
    replay_names_log-encoded [] ((3, id_of parser_ok) ∷ []) ((omega arith, recordable), tt)

length-replicate : (n c : ℕ) → length (replicate n c) ≡ n
length-replicate zero c = refl
length-replicate (suc n) c = ap suc (length-replicate n c)

abbrev long_name : Text
long_name = replicate 10_001 b'n'

abbrev no_bytes : Text
no_bytes = []

abbrev one_record : Map ℕ PerfRecord
one_record = (3, record { timestamp_ms = 5; duration_ms = 7 } ∷ []) ∷ []

abbrev no_record : Map ℕ PerfRecord
no_record = []

lookup-combine_table_example :
    lookup 3 (combine_table perf_with no_record one_record)
    ≡ combined perf_with (lookup 3 no_record) (lookup 3 one_record)
unfolding lookup
lookup-combine_table_example = lookup-combine_table perf_with no_record one_record 3 (refl, tt)

read_string-long_example :
    read_string (write_string long_name ++ no_bytes) ≡ (none, long_name ++ no_bytes)
read_string-long_example =
    read_string-long long_name no_bytes (omega (arith, length-replicate 10_001 b'n'))
      (omega (arith, length-replicate 10_001 b'n'))
