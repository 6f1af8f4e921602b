-- ===== src/Spec.antt =====
-- src/spec.rs: the cold data of a target, and how it is parsed from the `ExternalRunnerSpec` that the
-- build tool sends. A `HashMap` is a list in the order of its iteration.
pub mod Laws
use quokka.Prelude.{
  Text, text, text_eq, text_eq_iff, text_eq_refl, strip_prefix, split_once, show_nat, Bool, true,
  false, not, ◌&&◌, ◌||◌, Option, none, some, ℕ, zero, suc, ◌+◌, ◌-◌, ◌*◌, ◌/◌, ◌%◌, ◌^◌, ◌≤◌, ◌<◌,
  max, min, ltb, leb, ◌==◌, if◌then◌else◌, ==_iff, Bool-cases, Option-cases, ◌≡◌, refl, sym, ap,
  ◌∙◌, ◌≢◌, ◌↔◌, ◌⊎◌, inl, inr, List, [], ◌∷◌, ◌++◌, map, Perm, arith, length, get_elem?, take,
  drop, replicate, any, filter, is_empty, All, flatten, Result, ok, err, ◌>>=◌, Key, Map, lookup,
  insert, remove, lookup-insert, lookup-insert_self, lookup-insert_ne, nat_key, text_key,
}
use quokka.Prelude.{sort, ℤ}
use quokka.Std.{text_lt}

pub data CommandArg : Type 0 where
  verbatim : Text → CommandArg
  arg_handle : ℤ → CommandArg
  env_handle : Text → CommandArg

pub record TargetSpec : Type 0 where
  pub handle : ℤ
  pub suite : Text
  pub display : Text
  pub target_platform : Option Text
  pub test_type : Text
  pub command : List CommandArg
  pub env : List (Text × CommandArg)
  pub labels : List Text
  pub contacts : List Text
  pub oncall : Option Text

pub record ConfiguredTarget : Type 0 where
  pub handle : Option ℤ
  pub cell : Text
  pub package_ : Text
  pub target : Text
  pub configuration : Text

-- `ExternalRunnerSpecValue` is its optional value.
pub record ExternalRunnerSpec : Type 0 where
  pub target : Option ConfiguredTarget
  pub test_type : Text
  pub command : List (Option CommandArg)
  pub env : List (Text × Option CommandArg)
  pub labels : List Text
  pub contacts : List Text
  pub oncall : Option Text

pub data SpecError : Type 0 where
  missing_target missing_handle : SpecError
  missing_value : (location : Text) → SpecError

-- `CommandArg::from_proto`
value_of : Option CommandArg → Text → Result SpecError CommandArg
value_of none location = err (missing_value location)
value_of (some value) location = ok value

cons_result : {A : Type 0} → A → Result SpecError (List A) → Result SpecError (List A)
cons_result a (err e) = err e
cons_result a (ok as_) = ok (a ∷ as_)

env_value :
    Text
    → Result SpecError CommandArg
    → Result SpecError (List (Text × CommandArg))
    → Result SpecError (List (Text × CommandArg))
unfolding cons_result
env_value key (err e) rest = err e
env_value key (ok v) rest = cons_result (key, v) rest

env_of : List (Text × Option CommandArg) → Result SpecError (List (Text × CommandArg))
unfolding env_value value_of
env_of [] = ok []
env_of ((key, value) ∷ env) =
    env_value key (value_of value (text "environment variable `" ++ (key ++ text "`"))) (env_of env)

command_value :
    Result SpecError CommandArg
    → Result SpecError (List CommandArg)
    → Result SpecError (List CommandArg)
unfolding cons_result
command_value (err e) rest = err e
command_value (ok v) rest = cons_result v rest

command_of : ℕ → List (Option CommandArg) → Result SpecError (List CommandArg)
unfolding command_value value_of
command_of index [] = ok []
command_of index (value ∷ command) =
    command_value (value_of value (text "command argument " ++ show_nat index))
      (command_of (suc index) command)

-- `{cell}//{package}:{target}`
unfoldable pub target_display : ConfiguredTarget → Text
target_display t = t.cell ++ (text "//" ++ (t.package_ ++ (text ":" ++ t.target)))

sort_env : List (Text × CommandArg) → List (Text × CommandArg)
sort_env env = sort (λ a b. not (text_lt b.0 a.0)) env

-- The environment is parsed first.
assemble :
    ExternalRunnerSpec
    → ConfiguredTarget
    → ℤ
    → Result SpecError (List (Text × CommandArg))
    → Result SpecError (List CommandArg)
    → Result SpecError TargetSpec
unfolding sort_env target_display
assemble spec target handle (err e) command = err e
assemble spec target handle (ok env) (err e) = err e
assemble spec target handle (ok env) (ok command) = ok (record {
  handle = handle;
  suite = target_display target;
  display = target_display target;
  target_platform = if is_empty target.configuration then none else some target.configuration;
  test_type = spec.test_type;
  command = command;
  env = sort_env env;
  labels = spec.labels;
  contacts = spec.contacts;
  oncall = spec.oncall;
})

with_handle : ExternalRunnerSpec → ConfiguredTarget → Option ℤ → Result SpecError TargetSpec
unfolding assemble env_of command_of
with_handle spec target none = err missing_handle
with_handle spec target (some handle) =
    assemble spec target handle (env_of spec.env) (command_of 0 spec.command)

with_target : ExternalRunnerSpec → Option ConfiguredTarget → Result SpecError TargetSpec
unfolding with_handle
with_target spec none = err missing_target
with_target spec (some target) = with_handle spec target target.handle

-- `TargetSpec::from_proto`
unfoldable pub from_proto : ExternalRunnerSpec → Result SpecError TargetSpec
unfolding with_target
from_proto spec = with_target spec spec.target
