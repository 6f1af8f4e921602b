-- ===== src/Scheduler/Plan.antt =====
-- src/scheduler.rs, `TargetPlan`: the policies of one target, derived once.
pub mod Laws
use quokka.Prelude.{
  Text, text, text_eq, text_eq_iff, text_eq_refl, strip_prefix, split_once, show_nat, Bool, true,
  false, not, ◌&&◌, ◌||◌, Option, none, some, ℕ, zero, suc, ◌+◌, ◌-◌, ◌*◌, ◌/◌, ◌%◌, ◌^◌, ◌≤◌, ◌<◌,
  max, min, ltb, leb, ◌==◌, if◌then◌else◌, ==_iff, Bool-cases, Option-cases, ◌≡◌, refl, sym, ap,
  ◌∙◌, ◌≢◌, ◌↔◌, ◌⊎◌, inl, inr, List, [], ◌∷◌, ◌++◌, map, Perm, arith, length, get_elem?, take,
  drop, replicate, any, filter, is_empty, All, flatten, Result, ok, err, ◌>>=◌, Key, Map, lookup,
  insert, remove, lookup-insert, lookup-insert_self, lookup-insert_ne, nat_key, text_key,
}
use quokka.Labels.{label_suffix}
use quokka.Spec.{TargetSpec}
use quokka.Translator.{Translator}
use quokka.Config.{RunnerConfig, IgnoredPolicy}
use quokka.Caching.{CacheClass, cache_class}
use quokka.Policy.{QuarantineStatus, RetryPolicy, Owner, retry_policy, quarantine_status, owner}
use quokka.Environment.{
  SchedulingProfile, default_profile, no_needs, profile_from_labels, ConstraintConflictError,
}
use quokka.Outcome.{Duration}
use quokka.Batching.{BatchMode, per_test}
use quokka.Variant.{RepeatKind, once, stress, is_stress}

pub record TargetPlan : Type 0 where
  pub spec : TargetSpec
  pub translator : Translator
  pub ignored : IgnoredPolicy
  pub cache_class : CacheClass
  pub retry : RetryPolicy
  pub quarantine : QuarantineStatus
  pub timeout : Duration
  pub profile : SchedulingProfile
  pub owner : Owner
  pub batch_mode : Option BatchMode
  pub repeat : RepeatKind

unfoldable pub target_batch_mode : List Text → Option BatchMode
target_batch_mode labels =
    if any (λ l. text_eq (label_suffix l) (text "big")) labels then some per_test else none

abbrev profile_or_default : Result ConstraintConflictError SchedulingProfile → SchedulingProfile
profile_or_default (ok p) = p
profile_or_default (err e) = default_profile

target_repeat : List Text → RunnerConfig → RepeatKind
target_repeat labels config =
    if is_stress config.stress
    then config.stress
    else if any (λ l. text_eq (label_suffix l) (text "stress")) labels
    then stress config.stress_label_reps
    else once

plan_with : TargetSpec → RunnerConfig → Option Translator → Result Text TargetPlan
unfolding target_repeat target_batch_mode
plan_with spec config none =
    err (text "no translator registered for test_type '" ++ (spec.test_type ++ text "'"))
plan_with spec config (some translator) = ok (record {
  spec = spec;
  translator = translator;
  ignored = config.ignored;
  cache_class = cache_class spec.labels;
  retry = retry_policy spec.labels config.flaky_attempts;
  quarantine = quarantine_status spec.labels;
  timeout = config.per_test_timeout;
  profile = profile_or_default (profile_from_labels spec.labels);
  owner = owner spec.labels;
  batch_mode = target_batch_mode spec.labels;
  repeat = target_repeat spec.labels config;
})

-- `TargetPlan::derive`; `resolve` is the lookup of the translator registry.
unfoldable pub derive :
    (Text → RunnerConfig → Option Translator) → TargetSpec → RunnerConfig → Result Text TargetPlan
unfolding plan_with
derive resolve spec config = plan_with spec config (resolve spec.test_type config)

unfoldable pub quarantined : TargetPlan → Bool
quarantined plan = elim plan.quarantine [
  | QuarantineStatus.quarantined ↦ true
  | QuarantineStatus.active ↦ false
]

-- A framework without executor overrides lists with the default execution.
unfoldable pub listing_profile : TargetPlan → RunnerConfig → SchedulingProfile
listing_profile plan config =
    if not plan.translator.declares_executor_overrides
    then default_profile
    else if config.local_debug
    then record default_profile { hardware = record no_needs { local_debug = true } }
    else record default_profile { hardware = record no_needs { listing_only = true } }

unfoldable pub testing_profile : TargetPlan → RunnerConfig → SchedulingProfile
testing_profile plan config =
    if not plan.translator.declares_executor_overrides
    then record (plan.profile) { hardware = no_needs; local_resources = [] }
    else if config.local_debug
    then record (plan.profile) { hardware = record no_needs { local_debug = true } }
    else plan.profile
