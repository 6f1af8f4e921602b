-- ===== src/Scheduler/Request.antt =====
-- src/scheduler.rs, `run_group`: the request of an attempt, and the loop over queue timeouts. The
-- `Execute2` RPC is the parameter `execute2`, which answers the n-th request of the session; the
-- permits (semaphores) have no effect on the result.
pub mod Laws
pub mod Caching
use quokka.Prelude.{
  Text, text, text_eq, text_eq_iff, text_eq_refl, strip_prefix, split_once, show_nat, Bool, true,
  false, not, ◌&&◌, ◌||◌, Option, none, some, ℕ, zero, suc, ◌+◌, ◌-◌, ◌*◌, ◌/◌, ◌%◌, ◌^◌, ◌≤◌, ◌<◌,
  max, min, ltb, leb, ◌==◌, if◌then◌else◌, ==_iff, Bool-cases, Option-cases, ◌≡◌, refl, sym, ap,
  ◌∙◌, ◌≢◌, ◌↔◌, ◌⊎◌, inl, inr, List, [], ◌∷◌, ◌++◌, map, Perm, arith, length, get_elem?, take,
  drop, replicate, any, filter, is_empty, All, flatten, Result, ok, err, ◌>>=◌, Key, Map, lookup,
  insert, remove, lookup-insert, lookup-insert_self, lookup-insert_ne, nat_key, text_key,
}
use quokka.Prelude.{sort, ℤ}
use quokka.Std.{join, text_lt, dedup}
use quokka.Wire.{ExecuteResponse2}
use quokka.Outcome.{
  Duration, TestVerdict, TestIdentity, Execute2Outcome, completed, cancelled_queue_timeout,
  cancelled_unspecified, malformed, decode_response, detail,
}
use quokka.Variant.{identity, is_default, is_stress}
use quokka.Caching.{TestExecutionCaching, resolve}
use quokka.Batching.{TestSelection, all, explicit}
use quokka.Execution.{
  CgroupMemoryMax, CgroupGranularity, cgroup_memory_max_for_action, from_stable_fields,
}
use quokka.DurationDb.{DurationDb, DurationEstimate, unseen, estimate}
use quokka.Config.{RunnerConfig, cache_busts_unseen_tests}
use quokka.Translator.{Translator}
use quokka.Scheduler.Plan.{TargetPlan}
use quokka.Scheduler.Group.{GroupOutcome, no_action, classify, infra_max_attempts}

-- The fields of `TestingRequest` that depend on the group, the repeat or the attempt; the base
-- command, the environment and the profile are those of the target.
pub record TestingRequest : Type 0 where
  pub target : ℤ
  pub suite : Text
  pub testcases : List Text
  pub appended : List Text
  pub variant : Option Text
  pub repeat_count : Option ℕ
  pub caching : TestExecutionCaching
  pub logical_timeout : Duration
  pub cgroup_granularity : CgroupGranularity
  pub cgroup_memory_max : CgroupMemoryMax
  pub resource_marker_token : Text

pub data RpcAnswer : Type 0 where
  answered : ExecuteResponse2 → RpcAnswer
  rpc_failed : (error : Text) → RpcAnswer

starts_colons : Text → Bool
starts_colons [] = false
starts_colons (a ∷ []) = false
starts_colons (a ∷ (b ∷ r)) = a == b':' && b == b':'

-- `t.rfind("::")` and the slice before it.
before_last_colons : Text → Option Text
unfolding starts_colons
before_last_colons [] = none
before_last_colons (c ∷ s) = elim (before_last_colons s) [
  | some prefix ↦ some (c ∷ prefix)
  | none ↦ if starts_colons (c ∷ s) then some [] else none
]

module_of : Text → Text
unfolding before_last_colons
module_of t = elim (before_last_colons t) [ some prefix ↦ prefix | none ↦ text "(root)" ]

modules_text : List Text → Text
modules_text (a ∷ (b ∷ (c ∷ (d ∷ more)))) =
    a
    ++ (text ", "
        ++ (b
            ++ (text ", "
                ++ (c ++ (text " and " ++ (show_nat (suc (length more)) ++ text " more"))))))
modules_text modules = join (text ", ") modules

selection_testcases : TestSelection Text → List Text
unfolding module_of modules_text
selection_testcases all = []
selection_testcases (explicit (t ∷ [])) = t ∷ []
selection_testcases (explicit g) =
    let modules = dedup (sort (λ a b. not (text_lt b a)) (map module_of g)) in
    (modules_text modules ++ (text " (" ++ (show_nat (length g) ++ text " tests)"))) ∷ []

selected_names : TestSelection Text → List Text
selected_names all = []
selected_names (explicit names) = names

is_unseen : DurationEstimate → Bool
is_unseen unseen = true
is_unseen _ = false

-- What a session offers to every action: its configuration, the history at its start, the hash of
-- that history, and the executor.
pub record Session : Type 0 where
  pub config : RunnerConfig
  pub estimates : DurationDb
  pub hash_key : TestIdentity → ℕ
  pub execute2 : ℕ → TestingRequest → RpcAnswer

unfoldable pub identity_of : Session → TargetPlan → Text → TestIdentity
identity_of s plan name = record {
  target = plan.spec.display;
  name = name;
  variant = s.config.variant;
}

pub has_unseen : Session → TargetPlan → List Text → Bool
unfolding is_unseen identity_of
has_unseen s plan names =
    cache_busts_unseen_tests s.config.duration_db
    && any (λ n. is_unseen (estimate s.hash_key s.estimates none (identity_of s plan n))) names

-- Whether this attempt may be served from the cache.
unfoldable pub attempt_caching : Session → TargetPlan → List Text → ℕ → TestExecutionCaching
unfolding has_unseen
attempt_caching s plan names attempt_index =
    if has_unseen s plan names
    then TestExecutionCaching.disabled
    else resolve plan.cache_class (is_default s.config.variant) (is_stress plan.repeat)
        attempt_index

build_request :
    Session
    → TargetPlan
    → TestSelection Text
    → List Text
    → (repeat_index attempt_index : ℕ) → CgroupMemoryMax
    → TestingRequest
unfolding attempt_caching selection_testcases selected_names
build_request s plan selection names repeat_index attempt_index memory_max =
    let appended =
      plan.translator.execution_args (selected_names selection) plan.ignored
        s.config.extra_test_args in
    record {
      target = plan.spec.handle;
      suite = plan.spec.suite;
      testcases = selection_testcases selection;
      appended = appended;
      variant = identity s.config.variant;
      repeat_count = if is_stress plan.repeat then some repeat_index else none;
      caching = attempt_caching s plan names attempt_index;
      logical_timeout = plan.timeout;
      cgroup_granularity = s.config.cgroup_granularity;
      cgroup_memory_max = memory_max;
      resource_marker_token = from_stable_fields (text "testing") (plan.spec.display ∷ appended);
    }

module _ (s : Session) (plan : TargetPlan) (selection : TestSelection Text) (names : List Text)
    (repeat_index execution_attempt_index : ℕ) where
  -- What follows a decoded response; `retry` is the next round of the loop.
  after_outcome :
      Text
      → (infra_attempt n : ℕ) → (ℕ → Option (GroupOutcome × ℕ))
      → Execute2Outcome
      → Option (GroupOutcome × ℕ)
  after_outcome token infra_attempt n retry (completed action) =
      some (classify plan s.config.cgroup_granularity names token action, suc n)
  after_outcome token infra_attempt n retry cancelled_queue_timeout =
      if ltb (infra_attempt + 1) infra_max_attempts
      then retry (suc n)
      else some
          (no_action TestVerdict.infra_failure (text "RE queue timeout (retries exhausted)"), suc n)
  after_outcome token infra_attempt n retry cancelled_unspecified =
      some (no_action TestVerdict.omitted (text "run cancelled"), suc n)
  after_outcome token infra_attempt n retry (malformed reason) =
      some (no_action TestVerdict.infra_failure (detail reason), suc n)

  after_answer :
      Text
      → (infra_attempt n : ℕ) → (ℕ → Option (GroupOutcome × ℕ))
      → RpcAnswer
      → Option (GroupOutcome × ℕ)
  unfolding after_outcome
  after_answer token infra_attempt n retry (rpc_failed error) =
      some (no_action TestVerdict.fatal (text "Execute2 RPC failed: " ++ error), suc n)
  after_answer token infra_attempt n retry (answered response) =
      after_outcome token infra_attempt n retry (decode_response response)

  after_limit :
      (infra_attempt n : ℕ)
      → (ℕ → Option (GroupOutcome × ℕ))
      → Result Text CgroupMemoryMax
      → Option (GroupOutcome × ℕ)
  unfolding after_answer build_request
  after_limit infra_attempt n retry (err details) = some (no_action TestVerdict.fatal details, n)
  after_limit infra_attempt n retry (ok memory_max) =
      let request =
        build_request s plan selection names repeat_index (execution_attempt_index + infra_attempt)
          memory_max in
      after_answer request.resource_marker_token infra_attempt n retry (s.execute2 n request)

  -- `infra_attempt` queue timeouts and `n` requests came before; `none` is an exhausted fuel.
  run_group_loop : ℕ → ℕ → ℕ → Option (GroupOutcome × ℕ)
  unfolding after_limit
  run_group_loop zero infra_attempt n = none
  run_group_loop (suc fuel) infra_attempt n =
      after_limit infra_attempt n (run_group_loop fuel (infra_attempt + 1)) (
        cgroup_memory_max_for_action s.config.cgroup_memory_max s.config.cgroup_memory_max_overrides
          plan.spec.display names)

  unfoldable pub run_group : ℕ → Option (GroupOutcome × ℕ)
  unfolding run_group_loop
  run_group n = run_group_loop infra_max_attempts 0 n
