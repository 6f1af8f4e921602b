-- ===== src/Scheduler/Attempts/Invariant.antt =====
-- What the loop of `execute_test_action` keeps of its state, up to its end.
use quokka.Prelude.{
  Text, Bool, true, false, not, ◌||◌, Option, none, some, ℕ, zero, suc, ◌+◌, ltb, ◌==◌, Bool-cases,
  ◌≡◌, refl, sym, inl, inr, List, [], ◌∷◌, length, lookup, nat_key, text_key,
}
use quokka.Batching.{TestSelection}
use quokka.Scheduler.Plan.{TargetPlan}
use quokka.Scheduler.Best.Laws.{IsIncomplete, merge_best-IsIncomplete}
use quokka.Scheduler.Group.{GroupOutcome, Observed, GroupFailure, observed, group_failed}
use quokka.Scheduler.Request.{Session}
use quokka.Scheduler.Action.{
  ActionState, fold_name, fold_names, fold_failure, is_whole_unit, test_names,
}
use quokka.Scheduler.Attempts.{
  absorb, Progress, End, reported, exhausted, Next, again, stop, next, retry_with, after_group,
  follow, attempt_loop, run_attempts, retry_pending, is_action_timeout, still_failing, absorbed,
  start,
}

module _ (s : Session) (plan : TargetPlan) (selection : TestSelection Text) (expected : List Text)
    (repeat_index first_attempt_index : ℕ) (P : ActionState → Type 0)
    (keeps : (pending : List Text) (g : GroupOutcome) (st : ActionState)
      → P st
      → P (absorb plan expected pending g st)) where
  -- An end whose state keeps the invariant, and whose failing tests are those of its state.
  abbrev pub Good : End → Type 0
  Good (reported p) = P p.state
  Good (exhausted p failing) = P p.state × (failing ≡ still_failing p.state expected)

  abbrev GoodNext : Next → Type 0
  GoodNext (stop e) = Good e
  GoodNext (again p) = P p.state

  retry_with-Good :
      (p : Progress) (failing retries : List Text)
      → P p.state
      → failing ≡ still_failing p.state expected
      → GoodNext (retry_with s plan p failing retries)
  unfolding retry_with
  retry_with-Good p failing [] h e = (h, e)
  retry_with-Good p failing (r ∷ rs) h e = h

  next-Good :
      (timed_out : Bool) (p : Progress) (failing : List Text)
      → P p.state
      → failing ≡ still_failing p.state expected
      → GoodNext (next s plan timed_out p failing)
  unfolding next
  next-Good timed_out p [] h e = h
  next-Good false p (n ∷ ns) h e =
      retry_with-Good p (n ∷ ns) (retry_pending s plan p.failure_attempt (n ∷ ns)) h e
  next-Good true p (n ∷ ns) h e = elim (Bool-cases (ltb (p.action_timeout_attempts + 1) 3)) [
    | inl f ↦ rw f h
    | inr f ↦ rw f h
  ]

  follow-Good :
      (loop : Progress → Option End) (nxt : Next) (e : End)
      → ((p : Progress) → P p.state → loop p ≡ some e → Good e)
      → GoodNext nxt
      → follow s plan selection expected repeat_index first_attempt_index loop nxt ≡ some e
      → Good e
  unfolding follow
  follow-Good loop (stop d) e rec h runs = let same : d ≡ e = cc in rw (sym same) h
  follow-Good loop (again p) e rec h runs = rec p h runs

  after_group-Good :
      (loop : Progress → Option End) (p : Progress) (r : Option (GroupOutcome × ℕ)) (e : End)
      → ((p : Progress) → P p.state → loop p ≡ some e → Good e)
      → P p.state
      → after_group s plan selection expected repeat_index first_attempt_index loop p r ≡ some e
      → Good e
  unfolding after_group absorbed
  after_group-Good loop p none e rec h runs = cc
  after_group-Good loop p (some (g, calls)) e rec h runs =
      let q = absorbed s plan selection expected repeat_index first_attempt_index g calls p in
      let kept = keeps p.pending g p.state h in
      follow-Good loop _ e rec
        (next-Good (is_action_timeout g) q (still_failing q.state expected) kept refl) runs

  attempt_loop-Good :
      (fuel : ℕ) (p : Progress) (e : End)
      → P p.state
      → attempt_loop s plan selection expected repeat_index first_attempt_index fuel p ≡ some e
      → Good e
  unfolding attempt_loop
  attempt_loop-Good zero p e h runs = cc
  attempt_loop-Good (suc fuel) p e h runs =
      after_group-Good
        (attempt_loop s plan selection expected repeat_index first_attempt_index fuel) p _ e
        (λ q. attempt_loop-Good fuel q e) h runs

  pub run_attempts-Good :
      (prior : ActionState) (calls : ℕ) (e : End)
      → P prior
      → run_attempts s plan selection expected repeat_index first_attempt_index prior calls ≡ some e
      → Good e
  unfolding run_attempts start
  run_attempts-Good prior calls e h runs = attempt_loop-Good _ _ e h runs

-- The name's best result so far is incomplete.
abbrev pub LacksResult : Text → ActionState → Type 0
LacksResult name st = IsIncomplete (lookup name st.best)

fold_names-LacksResult :
    (name : Text) (o : Observed) (whole_unit singleton : Bool) (names : List Text)
    (st : ActionState)
    → LacksResult name st
    → LacksResult name (fold_names o whole_unit singleton names st)
unfolding fold_names fold_name
fold_names-LacksResult name o w sing [] st h = h
fold_names-LacksResult name o w sing (n ∷ ns) st h =
    fold_names-LacksResult name o w sing ns (fold_name o w sing n st)
      (merge_best-IsIncomplete st.best n name _ h)

fold_failure-LacksResult :
    (name : Text) (f : GroupFailure) (names : List Text) (st : ActionState)
    → LacksResult name st
    → LacksResult name (fold_failure f names st)
unfolding fold_failure
fold_failure-LacksResult name f [] st h = h
fold_failure-LacksResult name f (n ∷ ns) st h =
    fold_failure-LacksResult name f ns _ (merge_best-IsIncomplete st.best n name _ h)

pub absorb-LacksResult :
    (name : Text) (plan : TargetPlan) (expected pending : List Text) (g : GroupOutcome)
    (st : ActionState)
    → LacksResult name st
    → LacksResult name (absorb plan expected pending g st)
unfolding absorb
absorb-LacksResult name plan expected pending (observed o) st h =
    let whole_unit = is_whole_unit plan.translator.listing_strategy in
    let names = test_names o whole_unit pending in
    let singleton = not (ltb 1 (length expected)) || length names == 1 in
    fold_names-LacksResult name o whole_unit singleton names st h
absorb-LacksResult name plan expected pending (group_failed f) st h =
    fold_failure-LacksResult name f pending st h
