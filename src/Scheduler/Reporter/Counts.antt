-- ===== src/Scheduler/Reporter/Counts.antt =====
-- The reporter's counters, which the summary of a run prints.
use quokka.Prelude.{
  Bool, ℕ, suc, ◌+◌, if◌then◌else◌, ◌≡◌, List, [], ◌∷◌, ◌++◌, arith, length, nat_key, text_key,
}
use quokka.Prelude.{length-append}
use mathlib.Core.List.{append-nil}
use quokka.Outcome.{TestIdentity}
use quokka.DurationDb.{DurationDb}
use quokka.Scheduler.Verdict.{
  ReportDisposition, passed, skipped, quarantined_failure, failure, FinishedTest, ReporterMessage,
  finished, discovered, target_dropped, disposition_of,
}
use quokka.Scheduler.Reporter.{
  Tally, Reporter, handle_all, handle, handle_batch, handle_finished, reporter_task, fresh,
  count_disposition, send_result,
}
use quokka.Scheduler.Reporter.Laws.{
  counted, handle_finished-counted, record_observations_keeps, is_blocking, tests_of, tests_of-cons,
}

-- How many targets were dropped.
unfoldable pub drops_of : List ReporterMessage → ℕ
drops_of [] = 0
drops_of (target_dropped reason ∷ ms) = suc (drops_of ms)
drops_of (_ ∷ ms) = drops_of ms

-- How many of the tests have a disposition that fails the run.
unfoldable pub failures_of : List FinishedTest → ℕ
failures_of [] = 0
failures_of (f ∷ fs) = (if is_blocking (disposition_of f) then 1 else 0) + failures_of fs

abbrev parts : Tally → ℕ
parts t = t.passed + t.failed + t.quarantined_failed + t.skipped

-- `u` has `n` more results than `t`, `k` of them failed, all of them in one of the counters.
abbrev Grew : Tally → Tally → ℕ → ℕ → Type 0
Grew t u n k = (u.total ≡ t.total + n) × (u.failed ≡ t.failed + k) × (parts u ≡ parts t + n)

failures_of-append :
    (xs ys : List FinishedTest) → failures_of (xs ++ ys) ≡ failures_of xs + failures_of ys
unfolding failures_of
failures_of-append [] ys = omega arith
failures_of-append (x ∷ xs) ys = omega (arith, failures_of-append xs ys)

drops_of-cons :
    (m : ReporterMessage) (ms : List ReporterMessage)
    → drops_of (m ∷ ms) ≡ drops_of (m ∷ []) + drops_of ms
unfolding drops_of
drops_of-cons (finished batch) ms = omega arith
drops_of-cons (discovered tids) ms = omega arith
drops_of-cons (target_dropped reason) ms = omega arith

module _ (hash_key : TestIdentity → ℕ) (delivered : ℕ → Bool) (now : ℕ → ℕ) where
  counted-Grew :
      (d : ReportDisposition) (f : FinishedTest) (r : Reporter)
      → Grew r.tally (counted hash_key delivered now d f r).tally 1 (if is_blocking d then 1 else 0)
  unfolding counted count_disposition send_result
  counted-Grew passed f r = (omega arith, omega arith, omega arith)
  counted-Grew skipped f r = (omega arith, omega arith, omega arith)
  counted-Grew quarantined_failure f r = (omega arith, omega arith, omega arith)
  counted-Grew failure f r = (omega arith, omega arith, omega arith)

  batch-Grew :
      (batch : List FinishedTest) (r : Reporter)
      → Grew r.tally
          (handle_batch hash_key delivered now batch r).tally
          (length batch)
          (failures_of batch)
  unfolding handle_batch failures_of
  batch-Grew [] r = (omega arith, omega arith, omega arith)
  batch-Grew (f ∷ batch) r =
      let r' = handle_finished hash_key delivered now f r in
      let c = counted hash_key delivered now (disposition_of f) f r in
      let same : r'.tally ≡ c.tally =
        rw (handle_finished-counted hash_key delivered now f r)
          (record_observations_keeps hash_key delivered now f.test_id f.db_observations c).1 in
      let (a, b, d) = counted-Grew (disposition_of f) f r in
      let (a', b', d') = rw same at (batch-Grew batch r') in
      (omega (arith, a, a'), omega (arith, b, b'), omega (arith, d, d'))

  handle-Grew :
      (m : ReporterMessage) (r : Reporter)
      → Grew r.tally
          (handle hash_key delivered now m r).tally
          (length (tests_of (m ∷ [])) + drops_of (m ∷ []))
          (failures_of (tests_of (m ∷ [])) + drops_of (m ∷ []))
  unfolding handle tests_of drops_of failures_of
  handle-Grew (finished batch) r =
      let (a, b, d) = batch-Grew batch r in
      rw (append-nil batch) (omega (arith, a), omega (arith, b), omega (arith, d))
  handle-Grew (discovered tids) r = (omega arith, omega arith, omega arith)
  handle-Grew (target_dropped reason) r = (omega arith, omega arith, omega arith)

  all-Grew :
      (ms : List ReporterMessage) (r : Reporter)
      → Grew r.tally
          (handle_all hash_key delivered now ms r).tally
          (length (tests_of ms) + drops_of ms)
          (failures_of (tests_of ms) + drops_of ms)
  unfolding handle_all tests_of drops_of failures_of
  all-Grew [] r = (omega arith, omega arith, omega arith)
  all-Grew (m ∷ ms) r =
      let (a, b, d) = handle-Grew m r in
      let (a', b', d') = all-Grew ms (handle hash_key delivered now m r) in
      let tests = tests_of-cons m ms in
      let drops = drops_of-cons m ms in
      let long = length-append (tests_of (m ∷ [])) (tests_of ms) in
      let bad = failures_of-append (tests_of (m ∷ [])) (tests_of ms) in
      rw (tests, drops, long, bad)
        (omega (arith, a, a'), omega (arith, b, b'), omega (arith, d, d'))

  -- When the channel is closed, the summary's total is the number of finished tests and of dropped
  -- targets, its failures are the finished tests whose disposition fails the run and the dropped
  -- targets, and every result is in exactly one of the four counters.
  pub reporter_task-tally :
      (db : DurationDb) (ms : List ReporterMessage)
      → let t = (reporter_task hash_key delivered now db ms).tally in
        (t.total ≡ length (tests_of ms) + drops_of ms)
        × (t.failed ≡ failures_of (tests_of ms) + drops_of ms)
        × (t.passed + t.failed + t.quarantined_failed + t.skipped ≡ t.total)
  unfolding reporter_task
  reporter_task-tally db ms =
      let (a, b, d) = all-Grew ms (fresh db) in
      (omega (arith, a), omega (arith, b), omega (arith, a, d))
