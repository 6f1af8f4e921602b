-- ===== src/Scheduler/Reporter/Verdicts.antt =====
-- The exit code, the reports and the tally of a whole run of the reporter.
use quokka.Prelude.{
  Bool, not, ◌&&◌, ℕ, zero, suc, ◌+◌, if◌then◌else◌, ◌≡◌, sym, ◌∙◌, List, [], ◌∷◌, ◌++◌, map, arith,
  length, any, nat_key, text_key,
}
use quokka.Prelude.{length-append, length-map}
use mathlib.Core.List.{append-nil, append_assoc, map-append}
use quokka.Outcome.{TestIdentity}
use quokka.DurationDb.{DurationDb}
use quokka.Scheduler.Verdict.{ReporterMessage, exit_code}
use quokka.Scheduler.Reporter.{Reporter, handle_all, handle, reporter_task, fresh}
use quokka.Scheduler.Reporter.Laws.{
  blocks, tests_of, all_delivered, is_pass, handle-verdict, handle-reported, tests_of-cons,
}

all_delivered-add :
    (delivered : ℕ → Bool) (from n m : ℕ)
    → all_delivered delivered from (n + m)
      ≡ (all_delivered delivered from n && all_delivered delivered (from + n) m)
unfolding all_delivered
all_delivered-add delivered from zero m =
    let e : from + 0 ≡ from = omega arith in let e' : 0 + m ≡ m = omega arith in rw (e, e')
all_delivered-add delivered from (suc n) m =
    let e : suc n + m ≡ suc (n + m) = omega arith in
    let e' : from + suc n ≡ suc from + n = omega arith in
    rw (e, e', all_delivered-add delivered (suc from) n m) (ground arith)

module _ (hash_key : TestIdentity → ℕ) (delivered : ℕ → Bool) (now : ℕ → ℕ) where
  all-reported :
      (ms : List ReporterMessage) (r : Reporter)
      → (handle_all hash_key delivered now ms r).reported
        ≡ r.reported ++ map (λ f. f.result) (tests_of ms)
  unfolding handle_all tests_of
  all-reported [] r = sym (append-nil r.reported)
  all-reported (m ∷ ms) r =
      all-reported ms (handle hash_key delivered now m r)
      ∙ rw (handle-reported hash_key delivered now m r, tests_of-cons m ms)
          (simp (map-append, append_assoc))

  all-verdict :
      (ms : List ReporterMessage) (r : Reporter)
      → is_pass (handle_all hash_key delivered now ms r).verdict ≡ (
          is_pass r.verdict
          && (not (any blocks ms)
              && all_delivered delivered (length r.reported) (length (tests_of ms))))
  unfolding handle_all tests_of all_delivered
  all-verdict [] r = ground arith
  all-verdict (m ∷ ms) r =
      let r' = handle hash_key delivered now m r in
      let here = tests_of (m ∷ []) in
      let long : length r'.reported ≡ length r.reported + length here =
        rw (handle-reported hash_key delivered now m r) (
          omega (
            arith,
            length-append r.reported (map (λ f. f.result) here),
            length-map here (λ f. f.result),
          )) in
      all-verdict ms r'
      ∙ rw
          (
            handle-verdict hash_key delivered now m r,
            long,
            tests_of-cons m ms,
            length-append here (tests_of ms),
            all_delivered-add delivered (length r.reported) (length here) (length (tests_of ms)),
          )
          (ground arith)

  -- The run exits with code 0 exactly when no target was dropped, every finished test's
  -- disposition is something other than a failure, and every result was delivered; any other run
  -- exits with 32.
  pub exit_code-reporter_task :
      (db : DurationDb) (ms : List ReporterMessage)
      → exit_code (reporter_task hash_key delivered now db ms).verdict ≡ (
          if not (any blocks ms) && all_delivered delivered 0 (length (tests_of ms)) then 0 else 32)
  unfolding exit_code reporter_task
  exit_code-reporter_task db ms = ground (arith, all-verdict ms (fresh db))

  -- Every finished test is reported, once, in the order of its arrival.
  pub reporter_task-reported :
      (db : DurationDb) (ms : List ReporterMessage)
      → (reporter_task hash_key delivered now db ms).reported ≡ map (λ f. f.result) (tests_of ms)
  unfolding reporter_task
  reporter_task-reported db ms = all-reported ms (fresh db)
