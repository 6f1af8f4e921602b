-- ===== src/Scheduler/Plan/Laws.antt =====
-- What a derived plan takes from its target.
use quokka.Prelude.{
  Text, text, text_eq, Bool, true, false, Option, none, some, if◌then◌else◌, ◌≡◌, refl, any, Result,
  ok, nat_key, text_key,
}
use mathlib.Core.Path.{subst}
use quokka.Labels.{label_suffix}
use quokka.Batching.{per_test}
use quokka.Config.{RunnerConfig}
use quokka.Policy.{retry_policy}
use quokka.Spec.{TargetSpec}
use quokka.Translator.{Translator}
use quokka.Scheduler.Batches.Usable.{UsableChoice}
use quokka.Scheduler.Plan.{TargetPlan, derive, plan_with, target_batch_mode}

if-usable : (b : Bool) → UsableChoice (if b then some per_test else none)
if-usable true = tt
if-usable false = tt

ok_unique : {a b : TargetPlan} (r : Result Text TargetPlan) → r ≡ ok a → r ≡ ok b → a ≡ b
ok_unique r h k = cc

-- What a plan is derived from.
pub record IsDerived (spec : TargetSpec) (plan : TargetPlan) : Type 0 where
  pub spec_kept : plan.spec ≡ spec
  pub usable : UsableChoice plan.batch_mode

plan_with-IsDerived :
    (spec : TargetSpec) (config : RunnerConfig) (o : Option Translator) (plan : TargetPlan)
    → plan_with spec config o ≡ ok plan
    → IsDerived spec plan
unfolding plan_with target_batch_mode
plan_with-IsDerived spec config none plan h = absurd cc
plan_with-IsDerived spec config (some tr) plan h =
    subst (IsDerived spec) (ok_unique (plan_with spec config (some tr)) refl h) (record {
      spec_kept = refl;
      usable = if-usable (any (λ l. text_eq (label_suffix l) (text "big")) spec.labels);
    })

pub derive-IsDerived :
    (resolve : Text → RunnerConfig → Option Translator) (spec : TargetSpec) (config : RunnerConfig)
    (plan : TargetPlan)
    → derive resolve spec config ≡ ok plan
    → IsDerived spec plan
unfolding derive
derive-IsDerived resolve spec config plan h =
    plan_with-IsDerived spec config (resolve spec.test_type config) plan h

plan_with-retry :
    (spec : TargetSpec) (config : RunnerConfig) (o : Option Translator) (plan : TargetPlan)
    → plan_with spec config o ≡ ok plan
    → plan.retry ≡ retry_policy spec.labels config.flaky_attempts
unfolding plan_with
plan_with-retry spec config none plan h = absurd cc
plan_with-retry spec config (some tr) plan h =
    subst (λ p. p.retry ≡ retry_policy spec.labels config.flaky_attempts)
      (ok_unique (plan_with spec config (some tr)) refl h) refl

pub derive-retry :
    (resolve : Text → RunnerConfig → Option Translator) (spec : TargetSpec) (config : RunnerConfig)
    (plan : TargetPlan)
    → derive resolve spec config ≡ ok plan
    → plan.retry ≡ retry_policy spec.labels config.flaky_attempts
unfolding derive
derive-retry resolve spec config plan h =
    plan_with-retry spec config (resolve spec.test_type config) plan h
