-- ===== src/DurationDb/Store/Appends.antt =====
-- The three logs of the store, appended to.
use quokka.Prelude.{
  Text, ℕ, zero, suc, ◌≡◌, refl, sym, ap, ◌∙◌, List, [], ◌∷◌, ◌++◌, map, arith, length, take, All,
  flatten, Map, nat_key, text_key,
}
use mathlib.Core.List.{append_assoc, append-nil}
use quokka.Prelude.{All-append}
use quokka.Outcome.{TestIdentity}
use quokka.DurationDb.{DurationDb}
use quokka.DurationDb.Log.{
  PerfSample, FlakeEvent, PerfTables, FlakeTables, encode_sample, encode_event, encode_name, fold,
  replay_perf_log, replay_flake_log, replay_names_log,
}
use quokka.DurationDb.Log.Laws.{
  SampleFits, EventFits, apply_sample, apply_event, replay_perf_log-encoded,
  replay_flake_log-encoded,
}
use quokka.DurationDb.Log.Names.{NameFits, apply_name, replay_names_log-encoded}
use quokka.DurationDb.Store.{
  Disk, Append, appended, cut_off, FileSystem, Failure, perf_samples, flake_records, names_of,
  append_records, flush_perf, flush_flakes, flush_names, append_all, start,
}

module _ {S A : Type 0} (f : S → A → S) where
  pub fold-append : (s : S) (xs ys : List A) → fold f s (xs ++ ys) ≡ fold f (fold f s xs) ys
  fold-append s [] ys = refl
  fold-append s (x ∷ xs) ys = fold-append (f s x) xs ys

module _ {A : Type 0} (encode : A → Text) where
  flatten-append :
      (xs ys : List A)
      → flatten (map encode (xs ++ ys)) ≡ flatten (map encode xs) ++ flatten (map encode ys)
  flatten-append [] ys = refl
  flatten-append (x ∷ xs) ys =
      ap (λ t. encode x ++ t) (flatten-append xs ys)
      ∙ sym (append_assoc (encode x) (flatten (map encode xs)) (flatten (map encode ys)))

  -- A log that replays as its records does so with more of them.
  module _ {S : Type 0} (apply : S → A → S) (replay : S → Text → S) (Fits : A → Type 0)
      (replays : (s : S) (xs : List A)
        → All Fits xs
        → replay s (flatten (map encode xs)) ≡ fold apply s xs) where
    replay-append :
        (s : S) (log : Text) (xs ys : List A)
        → log ≡ flatten (map encode xs)
        → All Fits xs
        → All Fits ys
        → replay s (log ++ flatten (map encode ys)) ≡ fold apply (replay s log) ys
    replay-append s log xs ys e hx hy =
        ap (λ t. replay s (t ++ flatten (map encode ys))) e
        ∙ ap (replay s) (sym (flatten-append xs ys))
        ∙ replays s (xs ++ ys) (All-append Fits xs ys hx hy)
        ∙ fold-append apply s xs ys
        ∙ ap (λ t. fold apply t ys) (sym (ap (replay s) e ∙ replays s xs hx))

abbrev perf_replays :
    (t : PerfTables) (xs : List PerfSample)
    → All SampleFits xs
    → replay_perf_log t (flatten (map encode_sample xs)) ≡ fold apply_sample t xs
perf_replays t xs h =
    ap (replay_perf_log t) (sym (append-nil (flatten (map encode_sample xs))))
    ∙ replay_perf_log-encoded t xs [] h (omega arith)

abbrev flake_replays :
    (t : FlakeTables) (xs : List FlakeEvent)
    → All EventFits xs
    → replay_flake_log t (flatten (map encode_event xs)) ≡ fold apply_event t xs
flake_replays t xs h =
    ap (replay_flake_log t) (sym (append-nil (flatten (map encode_event xs))))
    ∙ replay_flake_log-encoded t xs [] h (omega arith)

pub replay_perf_log-append :
    (t : PerfTables) (log : Text) (xs ys : List PerfSample)
    → log ≡ flatten (map encode_sample xs)
    → All SampleFits xs
    → All SampleFits ys
    → replay_perf_log t (log ++ flatten (map encode_sample ys))
      ≡ fold apply_sample (replay_perf_log t log) ys
replay_perf_log-append =
    replay-append encode_sample apply_sample replay_perf_log SampleFits perf_replays

pub replay_flake_log-append :
    (t : FlakeTables) (log : Text) (xs ys : List FlakeEvent)
    → log ≡ flatten (map encode_event xs)
    → All EventFits xs
    → All EventFits ys
    → replay_flake_log t (log ++ flatten (map encode_event ys))
      ≡ fold apply_event (replay_flake_log t log) ys
replay_flake_log-append =
    replay-append encode_event apply_event replay_flake_log EventFits flake_replays

pub replay_names_log-append :
    (t : Map ℕ TestIdentity) (log : Text) (xs ys : List (ℕ × TestIdentity))
    → log ≡ flatten (map encode_name xs)
    → All NameFits xs
    → All NameFits ys
    → replay_names_log t (log ++ flatten (map encode_name ys))
      ≡ fold apply_name (replay_names_log t log) ys
replay_names_log-append =
    replay-append encode_name apply_name replay_names_log NameFits replay_names_log-encoded

-- The records that a section keeps.
abbrev pub retained : {A : Type 0} → Append → List A → List A
retained appended xs = []
retained (cut_off written) xs = xs

-- The log behind an append.
unfoldable pub log_after : Append → Text → Text → Text
unfolding append_records
log_after fs log buf = (append_records fs log buf).1

abbrev pub failed : {A : Type 0} → (ℕ → Failure) → Append → List A → List Failure
failed failure appended xs = []
failed failure (cut_off written) [] = []
failed failure (cut_off written) (x ∷ xs) = failure (length (x ∷ xs)) ∷ []

append-written : (log : Text) (n : ℕ) → log ++ take n [] ≡ log
append-written log zero = append-nil log
append-written log (suc n) = append-nil log

module _ (db : DurationDb) (disk : Disk) (errors : List Failure) where
  flush_perf_lem :
      (fs : Append) (xs : List PerfSample)
      → flush_perf fs
          (record { db = record db { new_perf_samples = xs }; disk = disk; errors = errors })
        ≡ record {
          db = record db { new_perf_samples = retained fs xs };
          disk = record disk {
            perf_log = log_after fs disk.perf_log (flatten (map encode_sample xs));
          };
          errors = errors ++ failed perf_samples fs xs;
        }
  unfolding flush_perf log_after
  flush_perf_lem appended [] = rw (append-nil disk.perf_log, append-nil errors)
  flush_perf_lem (cut_off n) [] = rw (append-written disk.perf_log n, append-nil errors)
  flush_perf_lem appended (x ∷ xs) = rw (append-nil errors)
  flush_perf_lem (cut_off n) (x ∷ xs) = refl

  flush_flakes_lem :
      (fs : Append) (xs : List FlakeEvent)
      → flush_flakes fs
          (record { db = record db { new_flake_records = xs }; disk = disk; errors = errors })
        ≡ record {
          db = record db { new_flake_records = retained fs xs };
          disk = record disk {
            flake_log = log_after fs disk.flake_log (flatten (map encode_event xs));
          };
          errors = errors ++ failed flake_records fs xs;
        }
  unfolding flush_flakes log_after
  flush_flakes_lem appended [] = rw (append-nil disk.flake_log, append-nil errors)
  flush_flakes_lem (cut_off n) [] = rw (append-written disk.flake_log n, append-nil errors)
  flush_flakes_lem appended (x ∷ xs) = rw (append-nil errors)
  flush_flakes_lem (cut_off n) (x ∷ xs) = refl

  flush_names_lem :
      (fs : Append) (xs : List (ℕ × TestIdentity))
      → flush_names fs (record { db = record db { new_names = xs }; disk = disk; errors = errors })
        ≡ record {
          db = record db { new_names = retained fs xs };
          disk = record disk {
            names_log = log_after fs disk.names_log (flatten (map encode_name xs));
          };
          errors = errors ++ failed names_of fs xs;
        }
  unfolding flush_names log_after
  flush_names_lem appended [] = rw (append-nil disk.names_log, append-nil errors)
  flush_names_lem (cut_off n) [] = rw (append-written disk.names_log n, append-nil errors)
  flush_names_lem appended (x ∷ xs) = rw (append-nil errors)
  flush_names_lem (cut_off n) (x ∷ xs) = refl

-- The store in memory, the disk and the failures behind the three appends.
abbrev pub kept : FileSystem → DurationDb → DurationDb
kept fs db = record db {
  new_perf_samples = retained fs.perf db.new_perf_samples;
  new_flake_records = retained fs.flakes db.new_flake_records;
  new_names = retained fs.names db.new_names;
}

abbrev pub written : FileSystem → DurationDb → Disk → Disk
unfolding log_after
written fs db disk = record disk {
  perf_log = log_after fs.perf disk.perf_log (flatten (map encode_sample db.new_perf_samples));
  flake_log = log_after fs.flakes disk.flake_log (flatten (map encode_event db.new_flake_records));
  names_log = log_after fs.names disk.names_log (flatten (map encode_name db.new_names));
}

abbrev pub lost : FileSystem → DurationDb → List Failure
lost fs db =
    (([] ++ failed perf_samples fs.perf db.new_perf_samples)
      ++ failed flake_records fs.flakes db.new_flake_records)
    ++ failed names_of fs.names db.new_names

pub append_all_lem :
    (fs : FileSystem) (db : DurationDb) (disk : Disk)
    → append_all fs (start db disk)
      ≡ record { db = kept fs db; disk = written fs db disk; errors = lost fs db }
unfolding append_all written
append_all_lem fs db disk =
    let s1 = flush_perf_lem db disk [] fs.perf db.new_perf_samples in
    let db1 = record db { new_perf_samples = retained fs.perf db.new_perf_samples } in
    let disk1 : Disk = record disk {
      perf_log = log_after fs.perf disk.perf_log (flatten (map encode_sample db.new_perf_samples));
    } in
    let errors1 = [] ++ failed perf_samples fs.perf db.new_perf_samples in
    let s2 = flush_flakes_lem db1 disk1 errors1 fs.flakes db.new_flake_records in
    let db2 = record db1 { new_flake_records = retained fs.flakes db.new_flake_records } in
    let disk2 : Disk = record disk1 {
      flake_log =
          log_after fs.flakes disk.flake_log (flatten (map encode_event db.new_flake_records));
    } in
    let errors2 = errors1 ++ failed flake_records fs.flakes db.new_flake_records in
    ap (λ s. flush_names fs.names (flush_flakes fs.flakes s)) s1
    ∙ ap (flush_names fs.names) s2
    ∙ flush_names_lem db2 disk2 errors2 fs.names db.new_names
