-- ===== src/Scheduler/Attempts/Totality.antt =====
-- How the loop of `execute_test_action` spends its budgets.
use quokka.Prelude.{
  Text, Bool, true, false, Option, some, ℕ, zero, suc, ◌+◌, ◌-◌, ◌≤◌, ◌<◌, ltb, Bool-cases, ◌≡◌,
  refl, ◌≢◌, inl, inr, List, [], ◌∷◌, arith, nat_key, text_key,
}
use quokka.Batching.{TestSelection}
use quokka.Scheduler.Plan.{TargetPlan}
use quokka.Scheduler.Group.{GroupOutcome, infra_max_attempts}
use quokka.Scheduler.Request.{Session}
use quokka.Scheduler.Request.Laws.{run_group_total}
use quokka.Scheduler.Action.{ActionState}
use quokka.Scheduler.Attempts.{
  Progress, End, Next, again, stop, next, retry_with, after_group, follow, attempt_loop,
  run_attempts, attempts_bound, allowed_attempts, retry_pending, is_action_timeout, still_failing,
  absorbed, current_selection,
}

module _ (s : Session) (plan : TargetPlan) where
  allowed-le-bound : (name : Text) → allowed_attempts s plan name ≤ attempts_bound s plan
  unfolding allowed_attempts attempts_bound
  allowed-le-bound name = ground arith

  retry_pending-bound :
      (failure_attempt : ℕ) (failing : List Text)
      → retry_pending s plan failure_attempt failing ≢ []
      → failure_attempt + 1 < attempts_bound s plan
  unfolding retry_pending
  retry_pending-bound k [] h = absurd (h refl)
  retry_pending-bound k (n ∷ ns) h = elim (Bool-cases (ltb (k + 1) (allowed_attempts s plan n))) [
    | inl e ↦ ground (arith, allowed-le-bound n)
    | inr e ↦ retry_pending-bound k ns (λ empty. h (rw e empty))
  ]

  -- How many attempts the budgets still allow.
  abbrev left : Progress → ℕ
  left p =
      (attempts_bound s plan - (p.failure_attempt + 1))
      + (infra_max_attempts - (p.action_timeout_attempts + 1))

  retry_with-spends :
      (p q : Progress) (failing retries : List Text)
      → (retries ≢ [] → p.failure_attempt + 1 < attempts_bound s plan)
      → retry_with s plan p failing retries ≡ again q
      → left q < left p
  unfolding retry_with
  retry_with-spends p q failing [] bound h = cc
  retry_with-spends p q failing (r ∷ rs) bound h = let b = bound (λ e. cc) in ground (arith, b)

  -- The loop goes on only by spending one of the budgets.
  next-spends :
      (timed_out : Bool) (p q : Progress) (failing : List Text)
      → next s plan timed_out p failing ≡ again q
      → left q < left p
  unfolding next
  next-spends timed_out p q [] h = cc
  next-spends true p q (n ∷ ns) h = ground arith
  next-spends false p q (n ∷ ns) h =
      retry_with-spends p q (n ∷ ns) (retry_pending s plan p.failure_attempt (n ∷ ns))
        (retry_pending-bound p.failure_attempt (n ∷ ns)) h

  module _ (selection : TestSelection Text) (expected : List Text)
      (repeat_index first_attempt_index : ℕ) where
    abbrev Ends : Option End → Type 0
    Ends r = (e : End) × (r ≡ some e)

    follow_total :
        (loop : Progress → Option End) (nxt : Next)
        → ((q : Progress) → nxt ≡ again q → Ends (loop q))
        → Ends (follow s plan selection expected repeat_index first_attempt_index loop nxt)
    unfolding follow
    follow_total loop (stop e) h = (e, refl)
    follow_total loop (again q) h = h q refl

    after_group_total :
        (loop : Progress → Option End) (p : Progress) (g : GroupOutcome) (calls : ℕ)
        → ((q : Progress) → left q < left p → Ends (loop q))
        → Ends (
            after_group s plan selection expected repeat_index first_attempt_index loop p
              (some (g, calls)))
    unfolding after_group
    after_group_total loop p g calls h =
        let q = absorbed s plan selection expected repeat_index first_attempt_index g calls p in
        follow_total loop _
          (λ q' e. h q' (next-spends (is_action_timeout g) q q' (still_failing q.state expected) e))

    attempt_loop_total :
        (fuel : ℕ) (p : Progress)
        → left p < fuel
        → Ends (attempt_loop s plan selection expected repeat_index first_attempt_index fuel p)
    unfolding attempt_loop
    attempt_loop_total zero p h = absurd (omega arith)
    attempt_loop_total (suc fuel) p h =
        let (g, calls, runs, _, _) =
          run_group_total s plan
            (current_selection s plan selection expected repeat_index first_attempt_index p)
            p.pending repeat_index (first_attempt_index + p.execution_attempt) p.calls in
        rw runs (after_group_total _ p g calls (λ q lower. attempt_loop_total fuel q (omega arith)))

    -- Whatever the executor answers, the attempts of an action come to an end within the fuel that
    -- the retry budgets give.
    pub run_attempts_total :
        (prior : ActionState) (calls : ℕ)
        → Ends (run_attempts s plan selection expected repeat_index first_attempt_index prior calls)
    unfolding run_attempts
    run_attempts_total prior calls = attempt_loop_total _ _ (omega arith)
