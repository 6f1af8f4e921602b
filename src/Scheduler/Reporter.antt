-- ===== src/Scheduler/Reporter.antt =====
-- src/scheduler.rs, `reporter_task`: the single task that folds messages into the verdict, the
-- tally and the history. The report RPC answers by `delivered`, the clock by `now`, each at its
-- n-th use; console lines are collected and their delivery has no effect.
pub mod Laws
pub mod Verdicts
pub mod Counts
use quokka.Prelude.{
  Text, text, text_eq, text_eq_iff, text_eq_refl, strip_prefix, split_once, show_nat, Bool, true,
  false, not, ◌&&◌, ◌||◌, Option, none, some, ℕ, zero, suc, ◌+◌, ◌-◌, ◌*◌, ◌/◌, ◌%◌, ◌^◌, ◌≤◌, ◌<◌,
  max, min, ltb, leb, ◌==◌, if◌then◌else◌, ==_iff, Bool-cases, Option-cases, ◌≡◌, refl, sym, ap,
  ◌∙◌, ◌≢◌, ◌↔◌, ◌⊎◌, inl, inr, List, [], ◌∷◌, ◌++◌, map, Perm, arith, length, get_elem?, take,
  drop, replicate, any, filter, is_empty, All, flatten, Result, ok, err, ◌>>=◌, Key, Map, lookup,
  insert, remove, lookup-insert, lookup-insert_self, lookup-insert_ne, nat_key, text_key,
}
use quokka.Wire.{TestResult}
use quokka.Outcome.{TestIdentity}
use quokka.DurationDb.{DurationDb, record_discovered_name, record_at}
use quokka.Scheduler.Verdict.{
  RunVerdict, pass, fail, ReportDisposition, passed, skipped, quarantined_failure, failure,
  report_disposition, DbObservation, FinishedTest, ReporterMessage, finished, discovered,
  target_dropped,
}

pub record Tally : Type 0 where
  pub total : ℕ
  pub passed : ℕ
  pub failed : ℕ
  pub quarantined_failed : ℕ
  pub skipped : ℕ

pub data Level : Type 0 where
  info warn error : Level

pub record Reporter : Type 0 where
  pub verdict : RunVerdict
  pub tally : Tally
  pub db : DurationDb
  pub console : List (Level × Text)
  pub reported : List TestResult
  pub clock_reads : ℕ

fail_console_line : Text → Text → Text
fail_console_line name [] = text "FAIL " ++ name
fail_console_line name (c ∷ details) = text "FAIL " ++ (name ++ 10 ∷ (c ∷ details))

-- The arms of `match report_disposition(…)`.
count_disposition : ReportDisposition → FinishedTest → Reporter → Reporter
unfolding fail_console_line
count_disposition passed f r = record r {
  tally = record (r.tally) { total = r.tally.total + 1; passed = r.tally.passed + 1 };
}
count_disposition skipped f r = record r {
  tally = record (r.tally) { total = r.tally.total + 1; skipped = r.tally.skipped + 1 };
}
count_disposition quarantined_failure f r = record r {
  tally = record (r.tally) {
    total = r.tally.total + 1;
    quarantined_failed = r.tally.quarantined_failed + 1;
  };
}
count_disposition failure f r = record r {
  verdict = fail;
  tally = record (r.tally) { total = r.tally.total + 1; failed = r.tally.failed + 1 };
  console = r.console ++ (warn, fail_console_line f.console_name f.result.details) ∷ [];
}

abbrev pub fresh : DurationDb → Reporter
fresh db = record {
  verdict = pass;
  tally = record { total = 0; passed = 0; failed = 0; quarantined_failed = 0; skipped = 0 };
  db = db;
  console = [];
  reported = [];
  clock_reads = 0;
}

module _ (hash_key : TestIdentity → ℕ) (delivered : ℕ → Bool) (now : ℕ → ℕ) where
  -- `orch.report_test_result`: the n-th report fails the run where it is not delivered.
  send_result : FinishedTest → Reporter → Reporter
  send_result f r = record r {
    verdict = if delivered (length r.reported) then r.verdict else fail;
    reported = r.reported ++ f.result ∷ [];
  }

  pub record_observations : TestIdentity → List DbObservation → Reporter → Reporter
  record_observations test_id [] r = r
  record_observations test_id (obs ∷ rest) r = record_observations test_id rest (record r {
    db =
        record_at hash_key r.db obs.env test_id obs.duration obs.failed obs.failure_class
          (now r.clock_reads);
    clock_reads = r.clock_reads + 1;
  })

  pub handle_finished : FinishedTest → Reporter → Reporter
  unfolding count_disposition send_result record_observations report_disposition
  handle_finished f r = record_observations f.test_id f.db_observations (
      send_result f (count_disposition (report_disposition f.status f.integrity f.quarantined) f r))

  pub handle_batch : List FinishedTest → Reporter → Reporter
  unfolding handle_finished
  handle_batch [] r = r
  handle_batch (f ∷ batch) r = handle_batch batch (handle_finished f r)

  discover : List TestIdentity → DurationDb → DurationDb
  discover [] db = db
  discover (tid ∷ tids) db = discover tids (record_discovered_name hash_key db tid)

  -- The body of the `while let` loop.
  pub handle : ReporterMessage → Reporter → Reporter
  unfolding handle_batch discover
  handle (discovered tids) r = record r { db = discover tids r.db }
  handle (target_dropped reason) r = record r {
    verdict = fail;
    tally = record (r.tally) { total = r.tally.total + 1; failed = r.tally.failed + 1 };
    console = r.console ++ (error, text "quokka: " ++ reason) ∷ [];
  }
  handle (finished batch) r = handle_batch batch r

  unfoldable pub handle_all : List ReporterMessage → Reporter → Reporter
  unfolding handle
  handle_all [] r = r
  handle_all (m ∷ ms) r = handle_all ms (handle m r)

  -- The state when the channel is closed; its verdict is the task's result.
  unfoldable pub reporter_task : DurationDb → List ReporterMessage → Reporter
  unfolding handle_all
  reporter_task db messages = handle_all messages (fresh db)
