-- ===== src/Scheduler/Listing.antt =====
-- src/scheduler.rs, the first part of `run_per_test_target`: the tests of a target are listed by an
-- action of their own, or the target fails. The RPC is the parameter `list`, which answers the
-- listing's n-th attempt.
use quokka.Prelude.{
  Text, text, show_nat, false, ◌&&◌, Option, none, some, ℕ, zero, suc, ◌-◌, ◌==◌, if◌then◌else◌,
  List, [], ◌∷◌, ◌++◌, Result, ok, err, nat_key, text_key,
}
use quokka.Prelude.{ℤ, pos, negsuc}
use quokka.Std.{from_utf8_lossy}
use quokka.Outcome.{
  Execute2Outcome, completed, cancelled_queue_timeout, cancelled_unspecified, malformed, detail,
  decode_response, CompletedAction, ProcessOutcome, finished, timed_out, TestVerdict,
}
use quokka.Execution.{
  CgroupGranularity, is_logical_test, ResourceFailure, logical_timeout, logical_oom, action_timeout,
  action_oom, setup, malformed as malformed_marker, parse_resource_failures, from_stable_fields,
}
use quokka.Execution.Command.{ExecuteRequest2, build_listing_request}
use quokka.Config.{RunnerConfig, IgnoredPolicy}
use quokka.Translator.{
  ListingStrategy, per_test_listing, whole_target, whole_binary, TestCase, test,
}
use quokka.Scheduler.Group.{infra_max_attempts}
use quokka.Scheduler.Plan.{TargetPlan, listing_profile}
use quokka.Scheduler.Request.{RpcAnswer, answered, rpc_failed}

pub data Listed : Type 0 where
  listed : List TestCase → Listed
  target_failed : TestVerdict → Text → Listed

abbrev pub Attempt : Type 0
Attempt = Result Text Execute2Outcome

-- A queue timeout is tried again while attempts are left.
after_attempt : Option Attempt → Attempt → Attempt
after_attempt (some again) (ok cancelled_queue_timeout) = again
after_attempt more outcome = outcome

attempt_of : RpcAnswer → Attempt
attempt_of (answered response) = ok (decode_response response)
attempt_of (rpc_failed e) = err e

-- Attempt `n`, behind which `more` are left; a retry is only asked for where it is wanted.
unfoldable pub listing_attempts : (ℕ → RpcAnswer) → (more n : ℕ) → Attempt
unfolding after_attempt attempt_of
listing_attempts answer zero n = after_attempt none (attempt_of (answer n))
listing_attempts answer (suc more) n =
    let again = listing_attempts answer more (suc n) in
    after_attempt (some again) (attempt_of (answer n))

impossible : Text → TestVerdict × Text
impossible details = (TestVerdict.infra_failure, text "impossible resource marker: " ++ details)

-- The status and the details of a listing that left a resource marker.
unfoldable pub listing_failure : CgroupGranularity → ResourceFailure → TestVerdict × Text
unfolding impossible
listing_failure granularity (logical_timeout index details) =
    if is_logical_test granularity && index == 0
    then (TestVerdict.timeout, details)
    else impossible details
listing_failure granularity (logical_oom index details) =
    if is_logical_test granularity && index == 0
    then (TestVerdict.fail, details)
    else impossible details
listing_failure granularity (action_oom details) =
    if is_logical_test granularity then impossible details else (TestVerdict.fail, details)
listing_failure granularity (action_timeout details) =
    if is_logical_test granularity then impossible details else (TestVerdict.timeout, details)
listing_failure granularity (setup details) = (TestVerdict.infra_failure, details)
listing_failure granularity (malformed_marker details) =
    (TestVerdict.infra_failure, text "malformed resource marker: " ++ details)

parsed : Option (List TestCase) → Listed
parsed (some tests) = listed tests
parsed none =
    target_failed TestVerdict.fatal
      (text "listing parse failed: listing output was not valid UTF-8")

show_int : ℤ → Text
show_int (pos n) = show_nat n
show_int (negsuc n) = text "-" ++ show_nat (suc n)

of_status :
    (Text → IgnoredPolicy → Option (List TestCase))
    → IgnoredPolicy
    → CompletedAction
    → ProcessOutcome
    → Listed
unfolding parsed show_int
of_status parse ignored action (finished (pos zero)) = parsed (parse action.stdout ignored)
of_status parse ignored action (finished exit_code) =
    target_failed TestVerdict.fatal
      (text "listing exited " ++ (show_int exit_code ++ (10 ∷ from_utf8_lossy action.stderr)))
of_status parse ignored action (timed_out after) =
    target_failed TestVerdict.timeout (text "listing timed out")

of_markers :
    (Text → IgnoredPolicy → Option (List TestCase))
    → IgnoredPolicy
    → CgroupGranularity
    → CompletedAction
    → List ResourceFailure
    → Listed
unfolding of_status listing_failure
of_markers parse ignored granularity action [] = of_status parse ignored action action.status
of_markers parse ignored granularity action (f ∷ fs) =
    let (status, details) = listing_failure granularity f in target_failed status details

of_attempt :
    (Text → IgnoredPolicy → Option (List TestCase))
    → IgnoredPolicy
    → CgroupGranularity
    → Text
    → Attempt
    → Listed
unfolding of_markers
of_attempt parse ignored granularity token (ok (completed action)) =
    of_markers parse ignored granularity action (parse_resource_failures action.stderr token)
of_attempt parse ignored granularity token (ok cancelled_queue_timeout) =
    target_failed TestVerdict.infra_failure (text "listing RE queue timeout (retries exhausted)")
of_attempt parse ignored granularity token (ok cancelled_unspecified) =
    target_failed TestVerdict.omitted (text "listing cancelled")
of_attempt parse ignored granularity token (ok (malformed reason)) =
    target_failed TestVerdict.infra_failure (text "listing failed: " ++ detail reason)
of_attempt parse ignored granularity token (err e) =
    target_failed TestVerdict.fatal (text "listing RPC failed: " ++ e)

synthetic : Text → TestCase
synthetic name = record { name = name; kind = test; ignored = false }

module _ (supervisor : Text) (list : ℕ → ExecuteRequest2 → RpcAnswer) (config : RunnerConfig)
    (plan : TargetPlan) where
  listing_request : List Text → Text → ExecuteRequest2
  listing_request listing_args token =
      build_listing_request supervisor plan.spec listing_args (listing_profile plan config)
        config.listing_timeout config.cgroup_granularity config.cgroup_memory_max token
        config.extra_env

  listing_by : ListingStrategy → Listed
  unfolding of_attempt listing_attempts listing_request synthetic
  listing_by (whole_target name) = listed (synthetic name ∷ [])
  listing_by (whole_binary name) = listed (synthetic name ∷ [])
  listing_by (per_test_listing request_args parse) =
      let listing_args = request_args plan.ignored config.extra_test_args in
      let token = from_stable_fields (text "listing") (plan.spec.display ∷ listing_args) in
      let request = listing_request listing_args token in
      of_attempt parse plan.ignored config.cgroup_granularity token
        (listing_attempts (λ n. list n request) (infra_max_attempts - 1) 0)

  -- The tests of the target.
  unfoldable pub tests_of_target : Listed
  unfolding listing_by
  tests_of_target = listing_by plan.translator.listing_strategy
