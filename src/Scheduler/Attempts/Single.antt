-- ===== src/Scheduler/Attempts/Single.antt =====
-- The loop of `execute_test_action` on an action of one test: what every attempt keeps, its end has.
use quokka.Prelude.{
  Text, Bool, true, false, Option, some, ℕ, zero, suc, ◌+◌, ltb, Bool-cases, ◌≡◌, refl, sym, ◌⊎◌,
  inl, inr, List, [], ◌∷◌, filter, lookup, nat_key, text_key,
}
use quokka.Batching.{TestSelection}
use quokka.Scheduler.Plan.{TargetPlan}
use quokka.Scheduler.Group.{GroupOutcome}
use quokka.Scheduler.Request.{Session, run_group}
use quokka.Scheduler.Request.Laws.{run_group_total}
use quokka.Scheduler.Action.{ActionState}
use quokka.Scheduler.Attempts.{
  absorb, absorbed, Progress, End, reported, exhausted, Next, again, stop, next, retry_with,
  retry_pending, allowed_attempts, is_action_timeout, still_failing, still_fails, follow,
  after_group, attempt_loop, run_attempts, current_selection, start,
}

filter_one :
    (p : Text → Bool) (name : Text)
    → (filter p (name ∷ []) ≡ []) ⊎ (filter p (name ∷ []) ≡ name ∷ [])
filter_one p name = elim (Bool-cases (p name)) [ inl e ↦ inr (rw e refl) | inr e ↦ inl (rw e refl) ]

-- An end whose state keeps the invariant.
abbrev pub Single : (ActionState → Type 0) → End → Type 0
Single P (reported p) = P p.state
Single P (exhausted p failing) = P p.state

module _ (s : Session) (plan : TargetPlan) (repeat_index : ℕ) (name : Text)
    (P : ActionState → Type 0)
    (keeps : (selection : TestSelection Text) (index calls n : ℕ) (g : GroupOutcome)
        (st : ActionState)
      → run_group s plan selection (name ∷ []) repeat_index index calls ≡ some (g, n)
      → P st
      → P (absorb plan (name ∷ []) (name ∷ []) g st)) where
  -- The loop goes on with this name alone.
  abbrev Goes : Progress → Type 0
  Goes p = (p.pending ≡ name ∷ []) × P p.state

  abbrev GoesNext : Next → Type 0
  GoesNext (stop e) = Single P e
  GoesNext (again p) = Goes p

  retry_with-Goes :
      (p : Progress) (failing retries : List Text)
      → P p.state
      → (retries ≡ []) ⊎ (retries ≡ name ∷ [])
      → GoesNext (retry_with s plan p failing retries)
  unfolding retry_with
  retry_with-Goes p failing [] h r = h
  retry_with-Goes p failing (n ∷ ns) h (inl r) = absurd cc
  retry_with-Goes p failing (n ∷ ns) h (inr r) = (r, h)

  next-Goes :
      (timed_out : Bool) (p : Progress) → P p.state → GoesNext (next s plan timed_out p (name ∷ []))
  unfolding next retry_pending
  next-Goes false p h =
      retry_with-Goes p (name ∷ []) _ h
        (filter_one (λ n. ltb (p.failure_attempt + 1) (allowed_attempts s plan n)) name)
  next-Goes true p h = elim (Bool-cases (ltb (p.action_timeout_attempts + 1) 3)) [
    | inl e ↦ rw e (refl, h)
    | inr e ↦ rw e h
  ]

  ended-Goes :
      (timed_out : Bool) (p : Progress) (failing : List Text)
      → P p.state
      → (failing ≡ []) ⊎ (failing ≡ name ∷ [])
      → GoesNext (next s plan timed_out p failing)
  unfolding next
  ended-Goes timed_out p failing h (inl e) = rw e h
  ended-Goes timed_out p failing h (inr e) = rw e (next-Goes timed_out p h)

  module _ (selection : TestSelection Text) (first : ℕ) where
    abbrev loop_from : ℕ → Progress → Option End
    loop_from = attempt_loop s plan selection (name ∷ []) repeat_index first

    follow-Goes :
        (loop : Progress → Option End) (nxt : Next) (e : End)
        → ((p : Progress) → Goes p → loop p ≡ some e → Single P e)
        → GoesNext nxt
        → follow s plan selection (name ∷ []) repeat_index first loop nxt ≡ some e
        → Single P e
    unfolding follow
    follow-Goes loop (stop d) e rec h runs = let same : d ≡ e = cc in rw (sym same) h
    follow-Goes loop (again p) e rec h runs = rec p h runs

    keeps_pending :
        (pending : List Text) (sel : TestSelection Text) (index calls n : ℕ) (g : GroupOutcome)
        (st : ActionState)
        → pending ≡ name ∷ []
        → run_group s plan sel pending repeat_index index calls ≡ some (g, n)
        → P st
        → P (absorb plan (name ∷ []) pending g st)
    keeps_pending pending sel index calls n g st same ran h =
        rw same (keeps sel index calls n g st (rw same at ran) h)

    after_group-Goes :
        (loop : Progress → Option End) (p : Progress) (g : GroupOutcome) (calls : ℕ) (e : End)
        → ((q : Progress) → Goes q → loop q ≡ some e → Single P e)
        → P (absorb plan (name ∷ []) p.pending g p.state)
        → after_group s plan selection (name ∷ []) repeat_index first loop p (some (g, calls))
          ≡ some e
        → Single P e
    unfolding after_group absorbed still_failing
    after_group-Goes loop p g calls e rec kept runs =
        let q = absorbed s plan selection (name ∷ []) repeat_index first g calls p in
        follow-Goes loop _ e rec
          (ended-Goes (is_action_timeout g) q (still_failing q.state (name ∷ [])) kept
            (filter_one (λ n. still_fails (lookup n q.state.best)) name))
          runs

    attempt_loop-Goes :
        (fuel : ℕ) (p : Progress) (e : End) → Goes p → loop_from fuel p ≡ some e → Single P e
    unfolding attempt_loop
    attempt_loop-Goes zero p e h runs = cc
    attempt_loop-Goes (suc fuel) p e (pending, h) runs =
        let now = current_selection s plan selection (name ∷ []) repeat_index first p in
        let index = first + p.execution_attempt in
        let (g, calls, ran, _, _) =
          run_group_total s plan now p.pending repeat_index index p.calls in
        after_group-Goes (loop_from fuel) p g calls e (λ q. attempt_loop-Goes fuel q e)
          (keeps_pending p.pending now index p.calls calls g p.state pending ran h) (rw ran at runs)

    pub run_attempts-Single :
        (prior : ActionState) (calls : ℕ) (e : End)
        → P prior
        → run_attempts s plan selection (name ∷ []) repeat_index first prior calls ≡ some e
        → Single P e
    unfolding run_attempts start
    run_attempts-Single prior calls e h runs = attempt_loop-Goes _ _ e (refl, h) runs
