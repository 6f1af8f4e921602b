-- ===== src/DurationDb/Snapshot/Files.antt =====
-- Whole files of the compacted history, written and read.
use quokka.Prelude.{
  Text, text, ℕ, ◌^◌, ◌<◌, ◌≡◌, refl, sym, ap, ◌∙◌, [], ◌∷◌, ◌++◌, length, All, Map, nat_key,
  text_key,
}
use mathlib.Core.List.{append-nil}
use quokka.Outcome.{TestIdentity}
use quokka.DurationDb.{PerfRecord, FlakeRecord}
use quokka.DurationDb.Bytes.{Reader}
use quokka.DurationDb.Bytes.Laws.{Reads}
use quokka.DurationDb.Log.{PerfTables, FlakeTables}
use quokka.DurationDb.Log.Names.{NameFits}
use quokka.DurationDb.Snapshot.{
  write_perf_entry, read_perf_entry, write_flake_entry, read_flake_entry, write_name_entry,
  read_name_entry, read_table, write_table, read_perf_bin, write_perf_bin, read_flake_bin,
  write_flake_bin, read_names_bin, write_names_bin,
}
use quokka.DurationDb.Snapshot.Laws.{
  DistinctKeys, TableFits, read_table-write_table, read_file-append, PerfEntryFits, FlakeEntryFits,
  read-write_perf_entry, read-write_flake_entry, read-write_name_entry,
}

-- What a file of the format can hold of a table.
pub record Holdable {V : Type 0} (EntryFits : ℕ × V → Type 0) (m : Map ℕ V) : Type 0 where
  pub distinct : DistinctKeys m
  pub short : length m < 256 ^ 4
  pub entries : All EntryFits m

module _ {V : Type 0} (read : Reader (ℕ × V)) (write : ℕ × V → Text) (EntryFits : ℕ × V → Type 0)
    (reads : (e : ℕ × V) → EntryFits e → Reads read write e) where
  All-reads : (m : Map ℕ V) → All EntryFits m → All (Reads read write) m
  All-reads [] h = tt
  All-reads (e ∷ m) h = (reads e h.0, All-reads m h.1)

  table_fits : (m : Map ℕ V) → Holdable EntryFits m → TableFits read write m
  table_fits m h = record {
    distinct = h.distinct;
    short = h.short;
    entries = All-reads m h.entries;
  }

  read-write_table :
      (m : Map ℕ V) (rest : Text)
      → Holdable EntryFits m
      → read_table read (write_table write m ++ rest) ≡ (m, rest)
  read-write_table m rest h = read_table-write_table read write m rest (table_fits m h)

  read-write_last :
      (m : Map ℕ V) → Holdable EntryFits m → read_table read (write_table write m) ≡ (m, [])
  read-write_last m h =
      ap (read_table read) (sym (append-nil (write_table write m))) ∙ read-write_table m [] h

abbrev pub PerfFits : ℕ × PerfRecord → Type 0
PerfFits (k, samples) = PerfEntryFits k samples

abbrev pub FlakeFits : ℕ × FlakeRecord → Type 0
FlakeFits (k, v) = FlakeEntryFits k v

abbrev perf_reads : (e : ℕ × PerfRecord) → PerfFits e → Reads read_perf_entry write_perf_entry e
perf_reads (k, samples) h = read-write_perf_entry k samples h

abbrev flake_reads :
    (e : ℕ × FlakeRecord) → FlakeFits e → Reads read_flake_entry write_flake_entry e
flake_reads (k, v) h = read-write_flake_entry k v h

abbrev name_reads : (e : ℕ × TestIdentity) → NameFits e → Reads read_name_entry write_name_entry e
name_reads (k, tid) h = read-write_name_entry k tid h

abbrev pub PerfHoldable : PerfTables → Type 0
PerfHoldable t = Holdable PerfFits t.of_local × Holdable PerfFits t.of_remote

abbrev pub FlakeHoldable : FlakeTables → Type 0
FlakeHoldable t = Holdable FlakeFits t.of_local × Holdable FlakeFits t.of_remote

pub read-write_perf_bin :
    (tables : PerfTables) → PerfHoldable tables → read_perf_bin (write_perf_bin tables) ≡ tables
unfolding read_perf_bin write_perf_bin
read-write_perf_bin tables h =
    let local_part = write_table write_perf_entry tables.of_local in
    let remote_part = write_table write_perf_entry tables.of_remote in
    read_file-append (text "PRF1") (local_part ++ remote_part) _ _ refl
    ∙ rw (
      read-write_table read_perf_entry write_perf_entry PerfFits perf_reads tables.of_local
          remote_part h.0,
      read-write_last read_perf_entry write_perf_entry PerfFits perf_reads tables.of_remote h.1,
    )

pub read-write_flake_bin :
    (tables : FlakeTables) → FlakeHoldable tables → read_flake_bin (write_flake_bin tables) ≡ tables
unfolding read_flake_bin write_flake_bin
read-write_flake_bin tables h =
    let local_part = write_table write_flake_entry tables.of_local in
    let remote_part = write_table write_flake_entry tables.of_remote in
    read_file-append (text "FLK1") (local_part ++ remote_part) _ _ refl
    ∙ rw (
      read-write_table read_flake_entry write_flake_entry FlakeFits flake_reads tables.of_local
          remote_part h.0,
      read-write_last read_flake_entry write_flake_entry FlakeFits flake_reads tables.of_remote h.1,
    )

pub read-write_names_bin :
    (names : Map ℕ TestIdentity)
    → Holdable NameFits names
    → read_names_bin (write_names_bin names) ≡ names
unfolding read_names_bin write_names_bin
read-write_names_bin names h =
    read_file-append (text "NMS1") (write_table write_name_entry names) _ _ refl
    ∙ rw (read-write_last read_name_entry write_name_entry NameFits name_reads names h)
