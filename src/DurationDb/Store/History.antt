-- ===== src/DurationDb/Store/History.antt =====
-- A run of the program between a load of the store and its flush.
use quokka.Prelude.{
  Text, Bool, true, false, Option, none, some, ℕ, ◌≡◌, refl, sym, ap, ◌∙◌, [], ◌∷◌, is_empty,
  lookup, insert, nat_key, text_key,
}
use mathlib.Core.Path.{subst}
use quokka.Outcome.{TestIdentity, Duration, FailureClass}
use quokka.DurationDb.{
  DurationDb, Environment, record_discovered_name, record_at, with_perf, name_if_new, millis,
}
use quokka.DurationDb.Log.{add_sample, add_event}
use quokka.DurationDb.Log.Laws.{apply_sample, apply_event}
use quokka.DurationDb.Log.Names.{apply_name}
use quokka.DurationDb.Store.{Disk, load, flush}
use quokka.DurationDb.Store.Appends.{fold-append}
use quokka.DurationDb.Store.Laws.{
  Whole, NewFits, Tracks, Compactable, SameTables, working, load-flush_sections,
}
use quokka.DurationDb.Store.Failures.{flush_lem}

module _ (hash_key : TestIdentity → ℕ) (disk : Disk) where
  -- What a run makes of the store that it loaded.
  pub data Run : DurationDb → Type 0 where
    loaded : Run (load disk)
    discovered :
        (db : DurationDb) (test_id : TestIdentity)
        → Run db
        → Run (record_discovered_name hash_key db test_id)
    recorded :
        (db : DurationDb) (env : Environment) (test_id : TestIdentity) (duration : Duration)
        (failed : Bool) (class : Option FailureClass) (timestamp_ms : ℕ)
        → Run db
        → Run (record_at hash_key db env test_id duration failed class timestamp_ms)

  load-Tracks : Tracks (load disk) disk
  unfolding load
  load-Tracks = record { perf = refl; flakes = refl; names = refl }

  name_if_new-Tracks :
      (db : DurationDb) (key : ℕ) (test_id : TestIdentity) (known : Option TestIdentity)
      → Tracks db disk
      → Tracks (name_if_new hash_key db key test_id known) disk
  name_if_new-Tracks db key test_id (some known) t = t
  name_if_new-Tracks db key test_id none t = record {
    perf = t.perf;
    flakes = t.flakes;
    names =
        ap (insert key test_id) t.names
        ∙ sym (fold-append apply_name (load disk).names db.new_names ((key, test_id) ∷ []));
  }

  discovered-Tracks :
      (db : DurationDb) (test_id : TestIdentity)
      → Tracks db disk
      → Tracks (record_discovered_name hash_key db test_id) disk
  unfolding record_discovered_name
  discovered-Tracks db test_id t =
      name_if_new-Tracks db (hash_key test_id) test_id (lookup (hash_key test_id) db.names) t

  with_perf-Tracks :
      (failed : Bool) (db : DurationDb) (env : Environment) (key : ℕ) (duration : Duration)
      (timestamp_ms : ℕ)
      → Tracks db disk
      → Tracks (with_perf hash_key failed db env key duration timestamp_ms) disk
  unfolding with_perf add_sample
  with_perf-Tracks true db env key duration timestamp_ms t = t
  with_perf-Tracks false db env key duration timestamp_ms t = record {
    perf =
        ap (λ p. add_sample p env key timestamp_ms (millis hash_key duration)) t.perf
        ∙ sym (
            fold-append apply_sample (load disk).perf db.new_perf_samples
              ((env, key, timestamp_ms, millis hash_key duration) ∷ []));
    flakes = t.flakes;
    names = t.names;
  }

  recorded-Tracks :
      (db : DurationDb) (env : Environment) (test_id : TestIdentity) (duration : Duration)
      (failed : Bool) (class : Option FailureClass) (timestamp_ms : ℕ)
      → Tracks db disk
      → Tracks (record_at hash_key db env test_id duration failed class timestamp_ms) disk
  unfolding record_at add_event
  recorded-Tracks db env test_id duration failed class timestamp_ms t =
      let key = hash_key test_id in
      let named = record_discovered_name hash_key db test_id in
      let timed = with_perf hash_key failed named env key duration timestamp_ms in
      let timed_lem : Tracks timed disk =
        with_perf-Tracks failed named env key duration timestamp_ms
          (discovered-Tracks db test_id t) in
      record {
        perf = timed_lem.perf;
        flakes =
            ap (λ p. add_event p env key failed class timestamp_ms) timed_lem.flakes
            ∙ sym (
                fold-append apply_event (load disk).flakes timed.new_flake_records
                  ((env, key, failed, class, timestamp_ms) ∷ []));
        names = timed_lem.names;
      }

  -- However the tests of a run are discovered and recorded, the tables of the store stay those on
  -- disk with the new records replayed onto them.
  pub Run-Tracks : (db : DurationDb) → Run db → Tracks db disk
  Run-Tracks db loaded = load-Tracks
  Run-Tracks db (discovered before test_id r) =
      discovered-Tracks before test_id (Run-Tracks before r)
  Run-Tracks db (recorded before env test_id duration failed class timestamp_ms r) =
      recorded-Tracks before env test_id duration failed class timestamp_ms (Run-Tracks before r)

  -- A store that was loaded, used in a run and flushed to a working file system is loaded again with
  -- the same tables of durations, of failures and of names, whether or not the flush compacted its
  -- logs. The logs on disk are of whole records, and the numbers and texts fit their fields.
  pub load-flush :
      (dir : Text) (db : DurationDb)
      → is_empty dir ≡ false
      → Run db
      → Whole disk
      → NewFits db
      → Compactable db
      → SameTables (load (flush dir working db disk).2) db
  load-flush dir db named run whole new h =
      subst (λ d. SameTables (load d) db)
        (sym (ap (λ r. r.2) (flush_lem dir working db disk named refl)))
        (load-flush_sections db disk whole new (Run-Tracks db run) h)
