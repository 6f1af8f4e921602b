-- ===== src/Scheduler/Execute/Laws.antt =====
-- The results of `execute_test_action` (src/scheduler.rs), per expected test.
use quokka.Prelude.{
  Text, text_eq, not, some, ℕ, ◌+◌, Bool-cases, ◌≡◌, refl, inl, inr, List, ◌++◌, map, Perm, any,
  filter, All, lookup, nat_key, text_key,
}
use mathlib.Core.List.Perm
use quokka.Scheduler.Best.Laws.{IsIncomplete}
use quokka.Batching.{TestSelection}
use quokka.Scheduler.Verdict.{FinishedTest, disposition_of, failure}
use quokka.Scheduler.Plan.{TargetPlan}
use quokka.Scheduler.Request.{Session}
use quokka.Scheduler.Action.{ActionState}
use quokka.Scheduler.Attempts.{End, reported, exhausted, run_attempts, still_failing}
use quokka.Scheduler.Attempts.Totality.{run_attempts_total}
use quokka.Scheduler.Execute.{finish_names, isolate_failures, isolates, execute_test_action}
use quokka.Scheduler.Execute.Members.{filter-rejected-perm}
use quokka.Scheduler.Execute.Answers.{
  name_of, failure_of_missing, EndKeeps, run_attempts-keeps, Completes, Answers, Answers-append,
  finish_names-Answers, finish_names-best, run_all_isolated_lem,
}

module _ (s : Session) (cas_note : Text → Text) (plan : TargetPlan) (repeat_index : ℕ) where
  isolate_failures_lem :
      (first : ℕ) (names : List Text) (st : ActionState) (calls : ℕ)
      → Completes
          (isolate_failures s cas_note plan repeat_index first names
            (still_failing st names)
            st
            calls)
          names
          st
  unfolding isolate_failures still_failing
  isolate_failures_lem first names st calls =
      let failing = still_failing st names in
      let kept = filter (λ n. not (any (text_eq n) failing)) names in
      let ran = finish_names s cas_note plan repeat_index kept st in
      let (gs, n, runs, there) =
        run_all_isolated_lem s cas_note plan repeat_index first failing ran.1 calls in
      let there' : Answers gs failing st = (
        there.0,
        λ k h. there.1 k (rw (finish_names-best s cas_note plan repeat_index kept st) h),
      ) in
      let both =
        Answers-append ran.0 gs kept failing st
          (finish_names-Answers s cas_note plan repeat_index kept st) there' in
      (
        ran.0 ++ gs,
        n,
        rw (isolate_failures, runs) refl,
        (Perm.trans both.0 (filter-rejected-perm _ names), both.1),
      )

  end_lem :
      (selection : TestSelection Text) (expected : List Text) (first calls : ℕ)
      (prior : ActionState) (e : End)
      → run_attempts s plan selection expected repeat_index first prior calls ≡ some e
      → EndKeeps prior expected e
      → Completes
          (execute_test_action s cas_note plan selection expected repeat_index first prior calls)
          expected
          prior
  unfolding execute_test_action
  end_lem selection expected first calls prior (reported p) runs kept =
      let fs = finish_names-Answers s cas_note plan repeat_index expected p.state in
      (
        (finish_names s cas_note plan repeat_index expected p.state).0,
        p.calls,
        rw (execute_test_action, runs) refl,
        (fs.0, λ name h. fs.1 name (kept name h)),
      )
  end_lem selection expected first calls prior (exhausted p failing) runs kept =
      elim (Bool-cases (isolates s.config.batch_failure_policy expected)) [
        | inl i ↦
            let (fs, n, ran, answers) =
              isolate_failures_lem (first + p.execution_attempt + 1) expected p.state p.calls in
            (
              fs,
              n,
              rw (execute_test_action, runs, i, kept.1) ran,
              (answers.0, λ name h. answers.1 name (kept.0 name h)),
            )
        | inr i ↦
            let fs = finish_names-Answers s cas_note plan repeat_index expected p.state in
            (
              (finish_names s cas_note plan repeat_index expected p.state).0,
              p.calls,
              rw (execute_test_action, runs, i) refl,
              (fs.0, λ name h. fs.1 name (kept.0 name h)),
            )
      ]

  action-Completes :
      (selection : TestSelection Text) (expected : List Text) (first calls : ℕ)
      (prior : ActionState)
      → Completes
          (execute_test_action s cas_note plan selection expected repeat_index first prior calls)
          expected
          prior
  action-Completes selection expected first calls prior =
      let (e, runs) = run_attempts_total s plan selection expected repeat_index first prior calls in
      end_lem selection expected first calls prior e runs (
        run_attempts-keeps s cas_note plan repeat_index selection expected first calls prior e runs)

  -- Whatever the executor answers, an action ends, with exactly one finished test for each of its
  -- expected tests.
  pub execute_test_action_lem :
      (selection : TestSelection Text) (expected : List Text) (first calls : ℕ)
      (prior : ActionState)
      → (fs : List FinishedTest) × (n : ℕ) × (execute_test_action s cas_note plan selection expected
            repeat_index first prior calls
          ≡ some (fs, n))
        × Perm (map name_of fs) expected
  execute_test_action_lem selection expected first calls prior =
      let (fs, n, runs, answers) = action-Completes selection expected first calls prior in
      (fs, n, runs, answers.0)

  -- A test whose result is incomplete when an action starts ends with a disposition that fails the
  -- run, whatever the executor answers, the retries, the run in isolation and the quarantine say.
  pub execute_test_action-IsIncomplete :
      (selection : TestSelection Text) (expected : List Text) (first calls : ℕ)
      (prior : ActionState) (name : Text)
      → IsIncomplete (lookup name prior.best)
      → (fs : List FinishedTest) × (n : ℕ) × (execute_test_action s cas_note plan selection expected
            repeat_index first prior calls
          ≡ some (fs, n))
        × All (λ f. disposition_of f ≡ failure) (filter (λ f. text_eq (name_of f) name) fs)
  execute_test_action-IsIncomplete selection expected first calls prior name h =
      let (fs, n, runs, answers) = action-Completes selection expected first calls prior in
      (fs, n, runs, failure_of_missing name fs (answers.1 name h))
