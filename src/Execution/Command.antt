-- ===== src/Execution/Command.antt =====
-- src/execution.rs: the command, the environment and the requests of an action. The text of the
-- supervisor's shell script, which the build includes, is the parameter `supervisor`.
pub mod Quoting
pub mod Laws
use quokka.Prelude.{
  Text, text, text_eq, text_eq_iff, text_eq_refl, strip_prefix, split_once, show_nat, Bool, true,
  false, not, ◌&&◌, ◌||◌, Option, none, some, ℕ, zero, suc, ◌+◌, ◌-◌, ◌*◌, ◌/◌, ◌%◌, ◌^◌, ◌≤◌, ◌<◌,
  max, min, ltb, leb, ◌==◌, if◌then◌else◌, ==_iff, Bool-cases, Option-cases, ◌≡◌, refl, sym, ap,
  ◌∙◌, ◌≢◌, ◌↔◌, ◌⊎◌, inl, inr, List, [], ◌∷◌, ◌++◌, map, Perm, arith, length, get_elem?, take,
  drop, replicate, any, filter, is_empty, All, flatten, Result, ok, err, ◌>>=◌, Key, Map, lookup,
  insert, remove, lookup-insert, lookup-insert_self, lookup-insert_ne, nat_key, text_key,
}
use quokka.Prelude.{ℤ}
use quokka.Outcome.{Duration}
use quokka.Spec.{CommandArg, verbatim, TargetSpec}
use quokka.Environment.{HardwareNeeds, HostExclusivity, SchedulingProfile}
use quokka.Caching.{TestExecutionCaching}
use quokka.Execution.{
  CgroupGranularity, logical_test, action, CgroupMemoryMax, bytes, unlimited,
  supervised_action_timeout,
}

-- The content of an `ArgValue`, whose format is never set.
pub data ArgValue : Type 0 where
  spec_value : CommandArg → ArgValue
  declared_output : (name : Text) → ArgValue

-- `echo_spec_value` and `appended_verbatim`
abbrev pub echo_spec_value : CommandArg → ArgValue
echo_spec_value arg = spec_value arg

abbrev pub appended_verbatim : Text → ArgValue
appended_verbatim arg = spec_value (verbatim arg)

unfoldable pub build_cmd : TargetSpec → List Text → List ArgValue
build_cmd spec appended = map echo_spec_value spec.command ++ map appended_verbatim appended

pub record LogicalCommand : Type 0 where
  pub index : ℕ
  pub appended : List Text

abbrev quote : ℕ
quote = 39

-- `value.replace('\'', "'\"'\"'")`
escape_quotes : Text → Text
escape_quotes [] = []
escape_quotes (c ∷ value) =
    let rest = escape_quotes value in
    if c == quote then quote ∷ 34 ∷ quote ∷ 34 ∷ quote ∷ rest else c ∷ rest

unfoldable pub shell_quote : Text → Text
unfolding escape_quotes
shell_quote value = quote ∷ (escape_quotes value ++ quote ∷ [])

granularity_value : CgroupGranularity → Text
granularity_value logical_test = text "logical-test"
granularity_value action = text "action"

memory_value : CgroupMemoryMax → Text
memory_value (bytes n) = show_nat n
memory_value unlimited = text "max"

pub quoted_args : List Text → Text
unfolding shell_quote
quoted_args [] = []
quoted_args (arg ∷ args) = 32 ∷ (shell_quote arg ++ quoted_args args)

logical_line : LogicalCommand → Text
unfolding quoted_args
logical_line logical =
    text "quokka_run_logical "
    ++ (show_nat logical.index
        ++ (32
            ∷ 34
            ∷ 36
            ∷ 64
            ∷ 34
            ∷ (quoted_args logical.appended ++ (text " || overall_status=$?" ++ 10 ∷ []))))

-- A line of the script, ended.
line : Text → Text
line s = s ++ 10 ∷ []

script_of :
    Text → List LogicalCommand → Duration → CgroupGranularity → CgroupMemoryMax → Text → Text
unfolding line logical_line shell_quote granularity_value memory_value
script_of supervisor commands timeout granularity memory_max token =
    line supervisor
    ++ (line (text "quokka_cgroup_granularity=" ++ granularity_value granularity)
        ++ (line (text "quokka_logical_timeout_seconds=" ++ show_nat (timeout / 1_000_000_000))
            ++ (line (text "quokka_memory_max_value=" ++ shell_quote (memory_value memory_max))
                ++ (line (text "quokka_resource_marker_token=" ++ shell_quote token)
                    ++ (line (text "overall_status=0")
                        ++ (line (text "quokka_begin_action")
                            ++ (flatten (map logical_line commands)
                                ++ (text "quokka_finish_action "
                                    ++ (34 ∷ (text "$overall_status" ++ 34 ∷ 10 ∷ []))))))))))

unfoldable pub build_supervised_cmd :
    Text
    → List ArgValue
    → List LogicalCommand
    → Duration
    → CgroupGranularity
    → CgroupMemoryMax
    → Text
    → List ArgValue
unfolding script_of
build_supervised_cmd supervisor base_command commands timeout granularity memory_max token =
    if is_empty commands
    then base_command
    else appended_verbatim (text "/bin/sh")
      ∷ appended_verbatim (text "-c")
      ∷ appended_verbatim (script_of supervisor commands timeout granularity memory_max token)
      ∷ appended_verbatim (text "quokka-resource-supervisor")
      ∷ base_command

-- An environment variable's value is always there.
unfoldable pub build_env : TargetSpec → List (Text × Text) → List (Text × ArgValue)
build_env spec extra =
    map (λ e. (e.0, echo_spec_value e.1)) spec.env ++ map (λ e. (e.0, appended_verbatim e.1)) extra

unfoldable pub build_test_env :
    TargetSpec → List (Text × Text) → List (Text × Text) → List (Text × ArgValue)
unfolding build_env
build_test_env spec extra declared_output_env =
    build_env spec extra ++ map (λ e. (e.0, declared_output e.1)) declared_output_env

unfoldable pub executor_override_proto : HardwareNeeds → Option Text
executor_override_proto hardware =
    if hardware.local_debug
    then some (text "rust-local-debug")
    else if hardware.listing_only
    then some (text "rust-listing")
    else if hardware.requires_gpu
    then some (text "rust-test-gpu")
    else if hardware.requires_large_mem
    then some (text "rust-test-large")
    else if hardware.network_isolated
    then some (text "rust-test-network-private")
    else none

pub data Requirements : Type 0 where
  shared : (permits : ℕ) → Requirements
  exclusive_access : Requirements

unfoldable pub host_sharing_proto : HostExclusivity → Requirements
host_sharing_proto HostExclusivity.shared = shared 1
host_sharing_proto HostExclusivity.exclusive = exclusive_access

pub data StageItem : Type 0 where
  listing : (suite : Text) (cacheable : Bool) → StageItem
  testing :
      (suite : Text) (testcases : List Text) (variant : Option Text) (repeat_count : Option ℕ)
      → StageItem

pub record ExecuteRequest2 : Type 0 where
  pub timeout : Duration
  pub host_sharing_requirements : Requirements
  pub stage : StageItem
  pub target : ℤ
  pub cmd : List ArgValue
  pub env : List (Text × ArgValue)
  pub executor_override : Option Text
  pub required_local_resources : List Text
  pub disable_test_execution_caching : Bool

unfoldable pub build_listing_request :
    Text
    → TargetSpec
    → List Text
    → SchedulingProfile
    → Duration
    → CgroupGranularity
    → CgroupMemoryMax
    → Text
    → List (Text × Text)
    → ExecuteRequest2
unfolding build_supervised_cmd build_env build_cmd executor_override_proto host_sharing_proto
build_listing_request supervisor spec listing_args profile timeout granularity memory_max token
      extra_env =
    record {
      timeout = supervised_action_timeout timeout 1;
      host_sharing_requirements = host_sharing_proto profile.exclusivity;
      stage = listing spec.suite false;
      target = spec.handle;
      cmd =
          build_supervised_cmd supervisor (build_cmd spec [])
            (record { index = 0; appended = listing_args } ∷ []) timeout granularity memory_max
            token;
      env = build_env spec extra_env;
      executor_override = executor_override_proto profile.hardware;
      required_local_resources = profile.local_resources;
      disable_test_execution_caching = false;
    }

pub record TestingInputs : Type 0 where
  pub target : ℤ
  pub suite : Text
  pub testcases : List Text
  pub base_command : List ArgValue
  pub commands : List LogicalCommand
  pub env : List (Text × ArgValue)
  pub variant : Option Text
  pub repeat_count : Option ℕ
  pub profile : SchedulingProfile
  pub caching : TestExecutionCaching
  pub logical_timeout : Duration
  pub cgroup_granularity : CgroupGranularity
  pub cgroup_memory_max : CgroupMemoryMax
  pub resource_marker_token : Text

is_disabled : TestExecutionCaching → Bool
is_disabled TestExecutionCaching.disabled = true
is_disabled TestExecutionCaching.enabled = false

unfoldable pub build_testing_request : Text → TestingInputs → ExecuteRequest2
unfolding build_supervised_cmd executor_override_proto host_sharing_proto is_disabled
build_testing_request supervisor req = record {
  timeout = supervised_action_timeout req.logical_timeout (length req.commands);
  host_sharing_requirements = host_sharing_proto req.profile.exclusivity;
  stage = testing req.suite req.testcases req.variant req.repeat_count;
  target = req.target;
  cmd =
      build_supervised_cmd supervisor req.base_command req.commands req.logical_timeout
        req.cgroup_granularity req.cgroup_memory_max req.resource_marker_token;
  env = req.env;
  executor_override = executor_override_proto req.profile.hardware;
  required_local_resources = req.profile.local_resources;
  disable_test_execution_caching = is_disabled req.caching;
}
