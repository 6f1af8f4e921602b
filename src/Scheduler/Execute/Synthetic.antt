-- ===== src/Scheduler/Execute/Synthetic.antt =====
-- A unit that is run whole and reported under one made-up name.
use quokka.Prelude.{
  Text, text_eq, text_eq_iff, Bool, true, false, not, ◌||◌, none, some, ℕ, ltb, ◌==◌, Option-cases,
  ◌≡◌, refl, ◌∙◌, ◌⊎◌, inl, inr, List, [], ◌∷◌, arith, length, any, is_empty, Map, lookup, nat_key,
  text_key,
}
use quokka.Batching.{TestSelection, BatchFailurePolicy, fail_all, rerun_per_test_to_isolate}
use quokka.Scheduler.Verdict.{FinishedTest, failure, disposition_of, report_disposition}
use quokka.Scheduler.Plan.{TargetPlan}
use quokka.Scheduler.Best.{missing, into_outcome}
use quokka.Scheduler.Best.Laws.{lookup-merge_best, merge_best_absorbs}
use quokka.Scheduler.Group.{Observed, GroupOutcome, observed, group_failed, integrity, incomplete}
use quokka.Scheduler.Request.{Session, run_group}
use quokka.Scheduler.Action.{
  ActionState, fold_name, fold_names, fold_failure, is_whole_unit, is_synthetic, test_names, keys,
}
use quokka.Scheduler.Attempts.{absorb, End, reported, exhausted, run_attempts}
use quokka.Scheduler.Attempts.Totality.{run_attempts_total}
use quokka.Scheduler.Attempts.Single.{run_attempts-Single, Single}
use quokka.Scheduler.Attempts.Invariant.{LacksResult, absorb-LacksResult}
use quokka.Scheduler.Execute.{
  isolates, finish_name, finish_names, make_finished, best_or_missing, execute_test_action,
}

fold_names-other :
    (name : Text) (o : Observed) (whole_unit singleton : Bool) (names : List Text)
    (st : ActionState)
    → any (text_eq name) names ≡ false
    → lookup name (fold_names o whole_unit singleton names st).best ≡ lookup name st.best
unfolding fold_names fold_name
fold_names-other name o w sing [] st h = refl
fold_names-other name o w sing (n ∷ ns) st h =
    let other : text_eq n name ≡ false =
      ground (arith, text_eq_iff n name, text_eq_iff name n, h) in
    fold_names-other name o w sing ns (fold_name o w sing n st) (ground (arith, h))
    ∙ lookup-merge_best st.best n name _
    ∙ rw other refl

keys-lookup :
    {A : Type 0}
    → (name : Text) (m : Map Text A) → lookup name m ≡ none
    → any (text_eq name) (keys m) ≡ false
unfolding keys lookup
keys-lookup name [] h = refl
keys-lookup name ((k, v) ∷ m) h =
    ground (arith, text_eq_iff k name, text_eq_iff name k, keys-lookup name m)

test_names-keys :
    (o : Observed) (whole_unit : Bool) (name : Text)
    → whole_unit ≡ true
    → is_synthetic (name ∷ []) ≡ true
    → is_empty o.observations ≡ false
    → test_names o whole_unit (name ∷ []) ≡ keys o.observations
unfolding test_names
test_names-keys o whole_unit name whole synthetic some_result = rw (whole, synthetic, some_result)

absorb-synthetic_best :
    (plan : TargetPlan) (expected : List Text) (name : Text) (o : Observed) (st : ActionState)
    → is_whole_unit plan.translator.listing_strategy ≡ true
    → is_synthetic (name ∷ []) ≡ true
    → is_empty o.observations ≡ false
    → lookup name o.observations ≡ none
    → lookup name (absorb plan expected (name ∷ []) (observed o) st).best ≡ lookup name st.best
unfolding absorb
absorb-synthetic_best plan expected name o st whole synthetic some_result absent =
    let whole_unit = is_whole_unit plan.translator.listing_strategy in
    let names = test_names o whole_unit (name ∷ []) in
    let singleton = not (ltb 1 (length expected)) || length names == 1 in
    fold_names-other name o whole_unit singleton names st (
      rw (test_names-keys o whole_unit name whole synthetic some_result)
        (keys-lookup name o.observations absent))

-- A group that found results, none of them of this name, or that failed with its result incomplete.
abbrev pub SaysNothingOf : Text → GroupOutcome → Type 0
SaysNothingOf name (observed o) =
    (is_empty o.observations ≡ false) × (lookup name o.observations ≡ none)
SaysNothingOf name (group_failed f) = f.disposition ≡ incomplete

-- The name has no result, or an incomplete one.
abbrev pub IsOpen : Text → ActionState → Type 0
IsOpen name st = (lookup name st.best ≡ none) ⊎ LacksResult name st

absorb-IsOpen :
    (plan : TargetPlan) (name : Text) (g : GroupOutcome) (st : ActionState)
    → is_whole_unit plan.translator.listing_strategy ≡ true
    → is_synthetic (name ∷ []) ≡ true
    → SaysNothingOf name g
    → IsOpen name st
    → IsOpen name (absorb plan (name ∷ []) (name ∷ []) g st)
unfolding absorb fold_failure integrity
absorb-IsOpen plan name (observed o) st whole synthetic (some_result, absent) (inl h) =
    inl (absorb-synthetic_best plan (name ∷ []) name o st whole synthetic some_result absent ∙ h)
absorb-IsOpen plan name (observed o) st whole synthetic silent (inr h) =
    inr (absorb-LacksResult name plan (name ∷ []) (name ∷ []) (observed o) st h)
absorb-IsOpen plan name (group_failed f) st whole synthetic e h =
    inr (merge_best_absorbs st.best name _ (rw e refl))

open_result :
    (s : Session) (cas_note : Text → Text) (plan : TargetPlan) (repeat_index : ℕ) (name : Text)
    (st : ActionState)
    → IsOpen name st
    → disposition_of (finish_name s cas_note plan repeat_index name st).0 ≡ failure
unfolding finish_name make_finished best_or_missing into_outcome report_disposition missing
open_result s cas_note plan repeat_index name st h = elim (Option-cases (lookup name st.best)) [
  | inl e ↦ rw e refl
  | inr (b, e) ↦ elim h [ inl none_there ↦ absurd cc | inr lacks ↦ rw (e, rw e at lacks) refl ]
]

isolates-one : (policy : BatchFailurePolicy) (name : Text) → isolates policy (name ∷ []) ≡ false
unfolding isolates
isolates-one rerun_per_test_to_isolate name = refl
isolates-one fail_all name = refl

module _ (s : Session) (cas_note : Text → Text) (plan : TargetPlan) (repeat_index : ℕ) where
  end_fails :
      (selection : TestSelection Text) (name : Text) (first calls : ℕ) (prior : ActionState)
      (e : End)
      → run_attempts s plan selection (name ∷ []) repeat_index first prior calls ≡ some e
      → Single (IsOpen name) e
      → (f : FinishedTest) × (n : ℕ) × (execute_test_action s cas_note plan selection
            (name ∷ [])
            repeat_index
            first
            prior
            calls
          ≡ some (f ∷ [], n))
        × (disposition_of f ≡ failure)
  unfolding execute_test_action finish_names
  end_fails selection name first calls prior (reported p) runs h = (
    (finish_name s cas_note plan repeat_index name p.state).0,
    p.calls,
    rw (execute_test_action, runs) refl,
    open_result s cas_note plan repeat_index name p.state h,
  )
  end_fails selection name first calls prior (exhausted p failing) runs h = (
    (finish_name s cas_note plan repeat_index name p.state).0,
    p.calls,
    rw (execute_test_action, runs, isolates-one s.config.batch_failure_policy name) refl,
    open_result s cas_note plan repeat_index name p.state h,
  )

  -- A unit that is run whole under the made-up name `<doctests>` or `<binary>` fails the run, with
  -- one finished test and whatever the retries and the quarantine say, if each group that its
  -- attempts run either reads the output as results of other names, be they all passes, or fails
  -- with its result incomplete. The action starts with no result of the made-up name, or an
  -- incomplete one.
  pub execute_test_action-synthetic :
      (selection : TestSelection Text) (name : Text) (first calls : ℕ) (prior : ActionState)
      → is_whole_unit plan.translator.listing_strategy ≡ true
      → is_synthetic (name ∷ []) ≡ true
      → ((sel : TestSelection Text) (index i n : ℕ) (g : GroupOutcome)
          → run_group s plan sel (name ∷ []) repeat_index index i ≡ some (g, n)
          → SaysNothingOf name g)
      → IsOpen name prior
      → (f : FinishedTest) × (n : ℕ) × (execute_test_action s cas_note plan selection
            (name ∷ [])
            repeat_index
            first
            prior
            calls
          ≡ some (f ∷ [], n))
        × (disposition_of f ≡ failure)
  execute_test_action-synthetic selection name first calls prior whole synthetic silent h =
      let (e, runs) =
        run_attempts_total s plan selection (name ∷ []) repeat_index first prior calls in
      end_fails selection name first calls prior e runs (
        run_attempts-Single s plan repeat_index name (IsOpen name)
          (λ sel index i n g st ran.
            absorb-IsOpen plan name g st whole synthetic (silent sel index i n g ran))
          selection first prior calls e h runs)
