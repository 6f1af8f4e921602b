-- ===== src/Scheduler/Action/Laws.antt =====
-- What it takes for an attempt to count as passed.
use quokka.Prelude.{
  Text, Bool, true, false, none, some, zero, suc, Option-cases, ◌≡◌, refl, ◌⊎◌, inl, inr, arith,
  lookup, nat_key, text_key,
}
use quokka.Prelude.{pos, negsuc}
use quokka.Outcome.{TestVerdict, ProcessOutcome}
use quokka.Translator.{PerTestObservation}
use quokka.Scheduler.Group.{Observed}
use quokka.Scheduler.Action.{name_result, absent_name_verdict}

absent_name_verdict-pass :
    (raw : ProcessOutcome) (whole_unit singleton : Bool) (stdout stderr : Text)
    → (absent_name_verdict raw whole_unit singleton stdout stderr).0 ≡ TestVerdict.pass
    → (whole_unit ≡ true) × (raw ≡ ProcessOutcome.finished (pos 0))
unfolding absent_name_verdict
absent_name_verdict-pass (ProcessOutcome.timed_out after) w s out errs h = cc
absent_name_verdict-pass (ProcessOutcome.finished (pos zero)) true s out errs h = (refl, refl)
absent_name_verdict-pass (ProcessOutcome.finished (pos zero)) false s out errs h = cc
absent_name_verdict-pass (ProcessOutcome.finished (pos (suc n))) w true out errs h = cc
absent_name_verdict-pass (ProcessOutcome.finished (pos (suc n))) w false out errs h = cc
absent_name_verdict-pass (ProcessOutcome.finished (negsuc n)) w true out errs h = cc
absent_name_verdict-pass (ProcessOutcome.finished (negsuc n)) w false out errs h = cc

-- An attempt counts as passed for a test only if no out-of-memory kill of the action was reported,
-- and the harness reported that test as passed, or, for a unit that is run whole and of which the
-- harness reported nothing under that name, the process exited with code 0.
pub name_result-pass :
    (o : Observed) (whole_unit singleton : Bool) (name : Text)
    → (name_result o whole_unit singleton name).status ≡ TestVerdict.pass
    → (o.action_oom ≡ none)
      × (((obs : PerTestObservation) × (lookup name o.observations ≡ some obs)
            × (obs.status ≡ TestVerdict.pass))
          ⊎ (lookup name o.observations ≡ none)
            × (whole_unit ≡ true)
            × (o.raw ≡ ProcessOutcome.finished (pos 0)))
unfolding name_result
name_result-pass o w s name h = elim (Option-cases o.action_oom) [
  | inl e ↦ elim (Option-cases (lookup name o.observations)) [
    | inl f ↦
        let (whole, exited) =
          absent_name_verdict-pass o.raw w s o.stdout o.stderr (ground (arith, e, f, h)) in
        (e, inr (f, whole, exited))
    | inr (obs, f) ↦ (e, inl (obs, f, ground (arith, e, f, h)))
  ]
  | inr (d, e) ↦ absurd (ground (arith, e, h))
]
