-- ===== src/DurationDb/Store/Laws.antt =====
-- Loading what a flush wrote.
use quokka.Prelude.{
  Bool, true, false, ℕ, if◌then◌else◌, ◌≡◌, sym, ◌∙◌, List, [], map, arith, All, flatten, nat_key,
  text_key,
}
use mathlib.Core.Path.{subst}
use quokka.Outcome.{TestIdentity}
use quokka.DurationDb.{DurationDb}
use quokka.DurationDb.Log.{PerfSample, FlakeEvent, encode_sample, encode_event, encode_name, fold}
use quokka.DurationDb.Log.Laws.{
  SampleFits, EventFits, apply_sample, apply_event, replay_perf_log-encoded,
  replay_flake_log-encoded,
}
use quokka.DurationDb.Log.Names.{NameFits, apply_name, replay_names_log-encoded}
use quokka.DurationDb.Snapshot.{
  read_perf_bin, write_perf_bin, read_flake_bin, write_flake_bin, read_names_bin, write_names_bin,
}
use quokka.DurationDb.Snapshot.Files.{
  Holdable, PerfHoldable, FlakeHoldable, read-write_perf_bin, read-write_flake_bin,
  read-write_names_bin,
}
use quokka.DurationDb.Store.{
  Disk, appended, compacted, FileSystem, load, Flushing, compact, needs_compaction, flush_sections,
  write_perf, write_flakes, write_names, append_records,
}
use quokka.DurationDb.Store.Appends.{
  replay_perf_log-append, replay_flake_log-append, replay_names_log-append, kept, written, lost,
  append_all_lem, log_after,
}

-- The logs of the disk are those of whole records.
pub record Whole (disk : Disk) : Type 0 where
  pub samples : List PerfSample
  pub events : List FlakeEvent
  pub entries : List (ℕ × TestIdentity)
  pub perf_log : disk.perf_log ≡ flatten (map encode_sample samples)
  pub flake_log : disk.flake_log ≡ flatten (map encode_event events)
  pub names_log : disk.names_log ≡ flatten (map encode_name entries)
  pub samples_fit : All SampleFits samples
  pub events_fit : All EventFits events
  pub entries_fit : All NameFits entries

-- The store's new records can be written.
pub record NewFits (db : DurationDb) : Type 0 where
  pub samples : All SampleFits db.new_perf_samples
  pub events : All EventFits db.new_flake_records
  pub entries : All NameFits db.new_names

-- The tables of the store are those on disk with the new records.
pub record Tracks (db : DurationDb) (disk : Disk) : Type 0 where
  pub perf : db.perf ≡ fold apply_sample (load disk).perf db.new_perf_samples
  pub flakes : db.flakes ≡ fold apply_event (load disk).flakes db.new_flake_records
  pub names : db.names ≡ fold apply_name (load disk).names db.new_names

-- The tables of the store can be compacted.
pub record Compactable (db : DurationDb) : Type 0 where
  pub perf : PerfHoldable db.perf
  pub flakes : FlakeHoldable db.flakes
  pub names : Holdable NameFits db.names

-- The two stores answer alike.
pub record SameTables (a b : DurationDb) : Type 0 where
  pub perf : a.perf ≡ b.perf
  pub flakes : a.flakes ≡ b.flakes
  pub names : a.names ≡ b.names

abbrev pub working : FileSystem
working = record {
  create_dir = true;
  perf = appended;
  flakes = appended;
  names = appended;
  compact_perf = compacted;
  compact_flakes = compacted;
  compact_names = compacted;
}

load-written :
    (db : DurationDb) (disk : Disk)
    → Whole disk
    → NewFits db
    → Tracks db disk
    → SameTables (load (written working db disk)) db
unfolding load log_after append_records
load-written db disk whole new tracks = record {
  perf =
      replay_perf_log-append (read_perf_bin disk.perf_bin) disk.perf_log whole.samples
        db.new_perf_samples whole.perf_log whole.samples_fit new.samples
      ∙ sym tracks.perf;
  flakes =
      replay_flake_log-append (read_flake_bin disk.flake_bin) disk.flake_log whole.events
        db.new_flake_records whole.flake_log whole.events_fit new.events
      ∙ sym tracks.flakes;
  names =
      replay_names_log-append (read_names_bin disk.names_bin) disk.names_log whole.entries
        db.new_names whole.names_log whole.entries_fit new.entries
      ∙ sym tracks.names;
}

-- A compaction that goes through keeps what is loaded.
load-compact :
    (s : Flushing) (db : DurationDb)
    → Compactable db
    → SameTables (load s.disk) db
    → SameTables (load (compact working s).disk) db
unfolding load compact write_perf write_flakes write_names
load-compact s db h same =
    let d = load s.disk in
    let perf : PerfHoldable d.perf = subst PerfHoldable (sym same.perf) h.perf in
    let flakes : FlakeHoldable d.flakes = subst FlakeHoldable (sym same.flakes) h.flakes in
    let names : Holdable NameFits d.names = subst (Holdable NameFits) (sym same.names) h.names in
    record {
      perf =
          replay_perf_log-encoded (read_perf_bin (write_perf_bin d.perf)) [] [] tt (omega arith)
          ∙ read-write_perf_bin d.perf perf
          ∙ same.perf;
      flakes =
          replay_flake_log-encoded (read_flake_bin (write_flake_bin d.flakes)) [] [] tt
            (omega arith)
          ∙ read-write_flake_bin d.flakes flakes
          ∙ same.flakes;
      names =
          replay_names_log-encoded (read_names_bin (write_names_bin d.names)) [] tt
          ∙ read-write_names_bin d.names names
          ∙ same.names;
    }

load-compact_if :
    (needed : Bool) (s : Flushing) (db : DurationDb)
    → Compactable db
    → SameTables (load s.disk) db
    → SameTables (load (if needed then compact working s else s).disk) db
load-compact_if true s db h same = load-compact s db h same
load-compact_if false s db h same = same

pub load-flush_sections :
    (db : DurationDb) (disk : Disk)
    → Whole disk
    → NewFits db
    → Tracks db disk
    → Compactable db
    → SameTables (load (flush_sections working db disk).disk) db
unfolding flush_sections
load-flush_sections db disk whole new tracks h =
    subst
      (λ s. SameTables (load (if needs_compaction s.disk then compact working s else s).disk) db)
      (sym (append_all_lem working db disk))
      (load-compact_if (needs_compaction (written working db disk))
        (record { db = kept working db; disk = written working db disk; errors = lost working db })
        db h (load-written db disk whole new tracks))
