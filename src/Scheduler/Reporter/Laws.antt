-- ===== src/Scheduler/Reporter/Laws.antt =====
-- What the reporter's final state says of the messages that it was sent.
use quokka.Prelude.{
  Bool, true, false, not, ◌&&◌, ℕ, zero, suc, ◌≡◌, refl, sym, ◌∙◌, List, [], ◌∷◌, ◌++◌, map, arith,
  length, any, nat_key, text_key,
}
use quokka.Prelude.{length-append}
use mathlib.Core.List.{append-nil, append_assoc}
use quokka.Outcome.{TestIdentity}
use quokka.Scheduler.Verdict.{
  RunVerdict, pass, fail, ReportDisposition, passed, skipped, quarantined_failure, failure,
  DbObservation, FinishedTest, ReporterMessage, finished, discovered, target_dropped,
  disposition_of,
}
use quokka.Scheduler.Reporter.{
  Reporter, handle, handle_batch, handle_finished, record_observations, send_result,
  count_disposition,
}

abbrev pub is_blocking : ReportDisposition → Bool
is_blocking failure = true
is_blocking _ = false

-- A message that alone fails the run.
abbrev pub blocks : ReporterMessage → Bool
blocks (finished batch) = any (λ f. is_blocking (disposition_of f)) batch
blocks (discovered tids) = false
blocks (target_dropped reason) = true

-- The finished tests of the messages, in order.
unfoldable pub tests_of : List ReporterMessage → List FinishedTest
tests_of [] = []
tests_of (finished batch ∷ ms) = batch ++ tests_of ms
tests_of (discovered tids ∷ ms) = tests_of ms
tests_of (target_dropped reason ∷ ms) = tests_of ms

pub tests_of-cons :
    (m : ReporterMessage) (ms : List ReporterMessage)
    → tests_of (m ∷ ms) ≡ tests_of (m ∷ []) ++ tests_of ms
unfolding tests_of
tests_of-cons (finished batch) ms = rw (append-nil batch)
tests_of-cons (discovered tids) ms = refl
tests_of-cons (target_dropped reason) ms = refl

-- Reports number `from` to `from + n - 1` were delivered.
unfoldable pub all_delivered : (ℕ → Bool) → ℕ → ℕ → Bool
all_delivered delivered from zero = true
all_delivered delivered from (suc n) = delivered from && all_delivered delivered (suc from) n

abbrev pub is_pass : RunVerdict → Bool
is_pass pass = true
is_pass fail = false

module _ (hash_key : TestIdentity → ℕ) (delivered : ℕ → Bool) (now : ℕ → ℕ) where
  pub record_observations_keeps :
      (test_id : TestIdentity) (obs : List DbObservation) (r : Reporter)
      → ((record_observations hash_key delivered now test_id obs r).verdict ≡ r.verdict)
        × ((record_observations hash_key delivered now test_id obs r).tally ≡ r.tally)
        × ((record_observations hash_key delivered now test_id obs r).reported ≡ r.reported)
  unfolding record_observations
  record_observations_keeps test_id [] r = (refl, refl, refl)
  record_observations_keeps test_id (o ∷ obs) r = record_observations_keeps test_id obs _

  unfoldable pub counted : ReportDisposition → FinishedTest → Reporter → Reporter
  unfolding send_result count_disposition
  counted d f r = send_result hash_key delivered now f (count_disposition d f r)

  counted-verdict :
      (d : ReportDisposition) (f : FinishedTest) (r : Reporter)
      → is_pass (counted d f r).verdict
        ≡ (is_pass r.verdict && (not (is_blocking d) && delivered (length r.reported)))
  unfolding counted
  counted-verdict passed f r = ground arith
  counted-verdict skipped f r = ground arith
  counted-verdict quarantined_failure f r = ground arith
  counted-verdict failure f r = ground arith

  counted-reported :
      (d : ReportDisposition) (f : FinishedTest) (r : Reporter)
      → (counted d f r).reported ≡ r.reported ++ f.result ∷ []
  unfolding counted
  counted-reported passed f r = refl
  counted-reported _ f r = refl

  pub handle_finished-counted :
      (f : FinishedTest) (r : Reporter)
      → handle_finished hash_key delivered now f r
        ≡ record_observations hash_key delivered now f.test_id f.db_observations
            (counted (disposition_of f) f r)
  unfolding handle_finished counted
  handle_finished-counted f r = refl

  finished-verdict :
      (f : FinishedTest) (r : Reporter)
      → is_pass (handle_finished hash_key delivered now f r).verdict ≡ (
          is_pass r.verdict
          && (not (is_blocking (disposition_of f)) && delivered (length r.reported)))
  finished-verdict f r =
      rw
        (
          handle_finished-counted f r,
          (record_observations_keeps f.test_id f.db_observations
              (counted (disposition_of f) f r)).0,
        )
        (counted-verdict (disposition_of f) f r)

  finished-reported :
      (f : FinishedTest) (r : Reporter)
      → (handle_finished hash_key delivered now f r).reported ≡ r.reported ++ f.result ∷ []
  finished-reported f r =
      rw
        (
          handle_finished-counted f r,
          (record_observations_keeps f.test_id f.db_observations
              (counted (disposition_of f) f r)).2,
        )
        (counted-reported (disposition_of f) f r)

  batch-reported :
      (batch : List FinishedTest) (r : Reporter)
      → (handle_batch hash_key delivered now batch r).reported
        ≡ r.reported ++ map (λ f. f.result) batch
  unfolding handle_batch
  batch-reported [] r = sym (append-nil r.reported)
  batch-reported (f ∷ batch) r =
      batch-reported batch (handle_finished hash_key delivered now f r)
      ∙ rw (finished-reported f r) (append_assoc r.reported (f.result ∷ []) _)

  batch-verdict :
      (batch : List FinishedTest) (r : Reporter)
      → is_pass (handle_batch hash_key delivered now batch r).verdict ≡ (
          is_pass r.verdict
          && (not (any (λ f. is_blocking (disposition_of f)) batch)
              && all_delivered delivered (length r.reported) (length batch)))
  unfolding handle_batch all_delivered
  batch-verdict [] r = ground arith
  batch-verdict (f ∷ batch) r =
      let r' = handle_finished hash_key delivered now f r in
      let long : length r'.reported ≡ suc (length r.reported) =
        rw (finished-reported f r) (omega (arith, length-append r.reported (f.result ∷ []))) in
      batch-verdict batch r' ∙ rw (finished-verdict f r, long) (ground arith)

  pub handle-reported :
      (m : ReporterMessage) (r : Reporter)
      → (handle hash_key delivered now m r).reported
        ≡ r.reported ++ map (λ f. f.result) (tests_of (m ∷ []))
  unfolding handle tests_of
  handle-reported (finished batch) r = batch-reported batch r ∙ rw (append-nil batch)
  handle-reported (discovered tids) r = sym (append-nil r.reported)
  handle-reported (target_dropped reason) r = sym (append-nil r.reported)

  pub handle-verdict :
      (m : ReporterMessage) (r : Reporter)
      → is_pass (handle hash_key delivered now m r).verdict ≡ (
          is_pass r.verdict
          && (not (blocks m)
              && all_delivered delivered (length r.reported) (length (tests_of (m ∷ [])))))
  unfolding handle tests_of all_delivered
  handle-verdict (finished batch) r = rw (append-nil batch) (batch-verdict batch r)
  handle-verdict (discovered tids) r = ground arith
  handle-verdict (target_dropped reason) r = ground arith
