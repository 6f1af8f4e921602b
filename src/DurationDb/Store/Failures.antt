-- ===== src/DurationDb/Store/Failures.antt =====
-- What a flush keeps and reports when the file system fails.
use quokka.Prelude.{
  Text, Bool, true, false, ℕ, if◌then◌else◌, Bool-cases, ◌≡◌, refl, sym, ap, ◌∙◌, ◌≢◌, inl, inr,
  List, [], ◌∷◌, ◌++◌, is_empty, Map, nat_key, text_key,
}
use mathlib.Core.Path.{subst}
use quokka.Outcome.{TestIdentity}
use quokka.DurationDb.{DurationDb}
use quokka.DurationDb.Log.{PerfTables, FlakeTables}
use quokka.DurationDb.Store.{
  Disk, Append, appended, cut_off, Compaction, compacted, not_renamed, not_truncated, FileSystem,
  Failure, perf_samples, flake_records, names_of, load, Flushing, append_all, start, compact,
  needs_compaction, flush_sections, write_perf, write_flakes, write_names, flush, flushed, verdict,
}
use quokka.DurationDb.Store.Appends.{kept, written, lost, retained, failed, append_all_lem}

-- A compaction leaves the store in memory alone and takes back no failure.
record Only (s t : Flushing) : Type 0 where
  db : t.db ≡ s.db
  errors : t.errors ≡ [] → s.errors ≡ []

snoc-nil : (xs : List Failure) (x : Failure) → xs ++ x ∷ [] ≡ [] → xs ≡ []
snoc-nil [] x h = refl
snoc-nil (y ∷ xs) x h = cc

Only-write_perf : (t : PerfTables) (c : Compaction) (s : Flushing) → Only s (write_perf t c s)
unfolding write_perf
Only-write_perf t compacted s = record { db = refl; errors = λ h. h }
Only-write_perf t not_renamed s = record { db = refl; errors = snoc-nil s.errors _ }
Only-write_perf t not_truncated s = record { db = refl; errors = snoc-nil s.errors _ }

Only-write_flakes : (t : FlakeTables) (c : Compaction) (s : Flushing) → Only s (write_flakes t c s)
unfolding write_flakes
Only-write_flakes t compacted s = record { db = refl; errors = λ h. h }
Only-write_flakes t not_renamed s = record { db = refl; errors = snoc-nil s.errors _ }
Only-write_flakes t not_truncated s = record { db = refl; errors = snoc-nil s.errors _ }

Only-write_names :
    (t : Map ℕ TestIdentity) (c : Compaction) (s : Flushing) → Only s (write_names t c s)
unfolding write_names
Only-write_names t compacted s = record { db = refl; errors = λ h. h }
Only-write_names t not_renamed s = record { db = refl; errors = snoc-nil s.errors _ }
Only-write_names t not_truncated s = record { db = refl; errors = snoc-nil s.errors _ }

then-Only : {s t u : Flushing} → Only s t → Only t u → Only s u
then-Only a b = record { db = b.db ∙ a.db; errors = λ h. a.errors (b.errors h) }

Only-compact : (fs : FileSystem) (s : Flushing) → Only s (compact fs s)
unfolding compact
Only-compact fs s =
    let d = load s.disk in
    let s1 = write_perf d.perf fs.compact_perf s in
    let s2 = write_flakes d.flakes fs.compact_flakes s1 in
    then-Only (Only-write_perf d.perf fs.compact_perf s) (
      then-Only (Only-write_flakes d.flakes fs.compact_flakes s1)
        (Only-write_names d.names fs.compact_names s2))

Only-compact_if :
    (needed : Bool) (fs : FileSystem) (s : Flushing) → Only s (if needed then compact fs s else s)
Only-compact_if true fs s = Only-compact fs s
Only-compact_if false fs s = record { db = refl; errors = λ h. h }

Only-flush_sections :
    (fs : FileSystem) (db : DurationDb) (disk : Disk)
    → Only
        (record { db = kept fs db; disk = written fs db disk; errors = lost fs db })
        (flush_sections fs db disk)
unfolding flush_sections
Only-flush_sections fs db disk =
    subst (λ s. Only s (flush_sections fs db disk)) (append_all_lem fs db disk)
      (Only-compact_if (needs_compaction (append_all fs (start db disk)).disk) fs
        (append_all fs (start db disk)))

pub flush_lem :
    (dir : Text) (fs : FileSystem) (db : DurationDb) (disk : Disk)
    → is_empty dir ≡ false
    → fs.create_dir ≡ true
    → let s = flush_sections fs db disk in flush dir fs db disk ≡ (verdict s.errors, s.db, s.disk)
unfolding flush
flush_lem dir fs db disk named made = rw (named, made)

-- Where the directory can be made, a flush keeps the new records of exactly those sections whose
-- append failed, and changes nothing else of the store in memory, whatever else fails.
pub flush-kept :
    (dir : Text) (fs : FileSystem) (db : DurationDb) (disk : Disk)
    → is_empty dir ≡ false
    → fs.create_dir ≡ true
    → (flush dir fs db disk).1 ≡ kept fs db
flush-kept dir fs db disk named made =
    ap (λ r. r.1) (flush_lem dir fs db disk named made) ∙ (Only-flush_sections fs db disk).db

verdict-flushed : (errors : List Failure) → verdict errors ≡ flushed → errors ≡ []
verdict-flushed [] h = refl
verdict-flushed (e ∷ errors) h = cc

append-nil_iff : (xs ys : List Failure) → xs ++ ys ≡ [] → (xs ≡ []) × (ys ≡ [])
append-nil_iff [] ys h = (refl, h)
append-nil_iff (x ∷ xs) ys h = absurd cc

failed-retained :
    {A : Type 0} (failure : ℕ → Failure) (fs : Append) (xs : List A)
    → failed failure fs xs ≡ []
    → retained fs xs ≡ []
failed-retained failure appended xs h = refl
failed-retained failure (cut_off n) [] h = refl
failed-retained failure (cut_off n) (x ∷ xs) h = absurd cc

-- No record waits to be written.
pub record IsSaved (db : DurationDb) : Type 0 where
  pub samples : db.new_perf_samples ≡ []
  pub events : db.new_flake_records ≡ []
  pub entries : db.new_names ≡ []

kept-IsSaved : (fs : FileSystem) (db : DurationDb) → lost fs db ≡ [] → IsSaved (kept fs db)
kept-IsSaved fs db h =
    let (first, names) = append-nil_iff _ _ h in
    let (perf, flakes) = append-nil_iff _ _ first in
    record {
      samples = failed-retained perf_samples fs.perf db.new_perf_samples perf;
      events = failed-retained flake_records fs.flakes db.new_flake_records flakes;
      entries = failed-retained names_of fs.names db.new_names names;
    }

no_directory-flushed :
    (dir : Text) (fs : FileSystem) (db : DurationDb) (disk : Disk)
    → is_empty dir ≡ false
    → fs.create_dir ≡ false
    → (flush dir fs db disk).0 ≢ flushed
unfolding flush
no_directory-flushed dir fs db disk named refused h = cc

-- A flush to a directory reports success only when no record of the store waits to be written any
-- more, whatever the file system did.
pub flush-IsSaved :
    (dir : Text) (fs : FileSystem) (db : DurationDb) (disk : Disk)
    → is_empty dir ≡ false
    → (flush dir fs db disk).0 ≡ flushed
    → IsSaved (flush dir fs db disk).1
flush-IsSaved dir fs db disk named h = elim (Bool-cases fs.create_dir) [
  | inl made ↦
      let reported = sym (ap (λ r. r.0) (flush_lem dir fs db disk named made)) ∙ h in
      let none_lost = (Only-flush_sections fs db disk).errors (verdict-flushed _ reported) in
      subst IsSaved (sym (flush-kept dir fs db disk named made)) (kept-IsSaved fs db none_lost)
  | inr refused ↦ absurd (no_directory-flushed dir fs db disk named refused h)
]
