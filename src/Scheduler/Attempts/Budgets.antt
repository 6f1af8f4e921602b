-- ===== src/Scheduler/Attempts/Budgets.antt =====
-- Which failing tests the loop of `execute_test_action` retries.
use quokka.Prelude.{
  Text, text, Bool, false, ◌&&◌, ◌||◌, Option, none, some, ℕ, ltb, nat_key, text_key,
}
use quokka.Labels.{has_suffix}
use quokka.Spec.{TargetSpec}
use quokka.Translator.{Translator}
use quokka.DurationDb.{flake, FlakeRecord}
use quokka.Scheduler.Plan.{TargetPlan}
use quokka.Scheduler.Request.{Session, identity_of}

-- More than one attempt is configured for targets with a `flaky` or `retry` label, and this is one.
abbrev pub by_label : Session → TargetSpec → Bool
by_label s spec =
    (has_suffix (text "flaky") spec.labels || has_suffix (text "retry") spec.labels)
    && ltb 1 s.config.flaky_attempts

-- A test was seen to fail, and more than one attempt is configured for such tests.
abbrev pub flaked_before : Option FlakeRecord → Option ℕ → Bool
flaked_before none attempts = false
flaked_before (some seen) none = false
flaked_before (some seen) (some attempts) = ltb 0 seen.failures && ltb 1 attempts

-- The configuration file gives more than one attempt to tests that the history saw fail, and this is
-- one.
abbrev pub by_history : Session → TargetPlan → Text → Bool
by_history s plan name =
    flaked_before (flake s.hash_key s.estimates none (identity_of s plan name)) s.config.flaky_retry
