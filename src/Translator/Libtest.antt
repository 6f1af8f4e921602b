-- ===== src/Translator/Libtest.antt =====
-- src/translator.rs: the arguments that a user gives for libtest, sorted into those of the listing and
-- those of the actions, and the stable text of a listing. Values read or written as JSON are not
-- modelled.
pub mod Laws
use quokka.Prelude.{
  Text, text, text_eq, text_eq_iff, text_eq_refl, strip_prefix, split_once, show_nat, Bool, true,
  false, not, ◌&&◌, ◌||◌, Option, none, some, ℕ, zero, suc, ◌+◌, ◌-◌, ◌*◌, ◌/◌, ◌%◌, ◌^◌, ◌≤◌, ◌<◌,
  max, min, ltb, leb, ◌==◌, if◌then◌else◌, ==_iff, Bool-cases, Option-cases, ◌≡◌, refl, sym, ap,
  ◌∙◌, ◌≢◌, ◌↔◌, ◌⊎◌, inl, inr, List, [], ◌∷◌, ◌++◌, map, Perm, arith, length, get_elem?, take,
  drop, replicate, any, filter, is_empty, All, flatten, Result, ok, err, ◌>>=◌, Key, Map, lookup,
  insert, remove, lookup-insert, lookup-insert_self, lookup-insert_ne, nat_key, text_key,
}
use quokka.Std.{lines, trim_end, starts_with, from_utf8}
use quokka.Config.{IgnoredPolicy, exclude_ignored, include_ignored, ignored_only, selects}
use quokka.Translator.{TestCase, TestCaseKind, test, benchmark}

pub data ListFormat : Type 0 where
  text_list json_list : ListFormat

pub data RunFormat : Type 0 where
  text_run json_run : RunFormat

pub data LibtestOutputFormat : Type 0 where
  pretty terse json junit : LibtestOutputFormat

pub record LibtestUserArgs : Type 0 where
  pub listing_args : List Text
  pub per_test_execution_args : List Text
  pub whole_target_execution_args : List Text
  pub ignored_policies : List IgnoredPolicy
  pub listing_only : Bool
  pub help : Bool
  pub output_format : LibtestOutputFormat
  pub unstable_options : Bool
  pub format_error : Option Text
  pub listing_needs_unstable : Bool
  pub execution_needs_unstable : Bool

abbrev pub no_args : LibtestUserArgs
no_args = record {
  listing_args = [];
  per_test_execution_args = [];
  whole_target_execution_args = [];
  ignored_policies = [];
  listing_only = false;
  help = false;
  output_format = pretty;
  unstable_options = false;
  format_error = none;
  listing_needs_unstable = false;
  execution_needs_unstable = false;
}

push_filter : Text → LibtestUserArgs → LibtestUserArgs
push_filter value p = record p {
  listing_args = p.listing_args ++ value ∷ [];
  whole_target_execution_args = p.whole_target_execution_args ++ value ∷ [];
}

push_skip : Text → LibtestUserArgs → LibtestUserArgs
push_skip value p = record p {
  listing_args = p.listing_args ++ text "--skip" ∷ value ∷ [];
  whole_target_execution_args = p.whole_target_execution_args ++ text "--skip" ∷ value ∷ [];
}

push_execution_flag : Text → LibtestUserArgs → LibtestUserArgs
push_execution_flag flag p = record p {
  per_test_execution_args = p.per_test_execution_args ++ flag ∷ [];
  whole_target_execution_args = p.whole_target_execution_args ++ flag ∷ [];
}

push_listing_and_execution_flag : Text → LibtestUserArgs → LibtestUserArgs
unfolding push_execution_flag
push_listing_and_execution_flag flag p =
    push_execution_flag flag (record p { listing_args = p.listing_args ++ flag ∷ [] })

push_execution_value : Text → Text → LibtestUserArgs → LibtestUserArgs
push_execution_value flag value p = record p {
  per_test_execution_args = p.per_test_execution_args ++ flag ∷ value ∷ [];
  whole_target_execution_args = p.whole_target_execution_args ++ flag ∷ value ∷ [];
}

push_unstable_execution_value : Text → Text → LibtestUserArgs → LibtestUserArgs
unfolding push_execution_value
push_unstable_execution_value flag value p =
    push_execution_value flag value (record p { execution_needs_unstable = true })

note_unstable_option : Text → LibtestUserArgs → LibtestUserArgs
note_unstable_option value p = record p {
  execution_needs_unstable = true;
  unstable_options = if text_eq value (text "unstable-options") then true else p.unstable_options;
}

set_output_format : Text → LibtestUserArgs → LibtestUserArgs
set_output_format value p =
    if text_eq value (text "pretty")
    then record p { output_format = pretty }
    else if text_eq value (text "terse")
    then record p { output_format = terse }
    else if text_eq value (text "json")
    then record p { output_format = json }
    else if text_eq value (text "junit")
    then record p { output_format = junit }
    else record p {
      format_error = some (
          text "argument for --format must be pretty, terse, json or junit (was "
          ++ (value ++ text ")"));
    }

-- What an argument does: alone, with the argument behind it as its value, or to all that follow.
pub data Step : Type 0 where
  alone : (LibtestUserArgs → LibtestUserArgs) → Step
  valued : (Text → LibtestUserArgs → LibtestUserArgs) → Step
  filters : Step

is_one_of : Text → List Text → Bool
is_one_of arg flags = any (text_eq arg) flags

-- The arms of `match arg`.
step_of_flag : Text → Step
unfolding is_one_of push_filter push_skip push_execution_flag push_listing_and_execution_flag
    push_execution_value push_unstable_execution_value set_output_format
step_of_flag arg =
    if text_eq arg (text "--include-ignored")
    then alone (λ p. record p { ignored_policies = p.ignored_policies ++ include_ignored ∷ [] })
    else if text_eq arg (text "--ignored")
    then alone (λ p. record p { ignored_policies = p.ignored_policies ++ ignored_only ∷ [] })
    else if text_eq arg (text "--exact")
    then alone (push_filter arg)
    else if text_eq arg (text "--skip")
    then valued push_skip
    else if text_eq arg (text "--list")
    then alone (λ p. record p { listing_only = true })
    else if text_eq arg (text "--filter")
    then valued push_filter
    else if is_one_of arg (text "--test" ∷ text "--bench" ∷ [])
    then alone (push_listing_and_execution_flag arg)
    else if text_eq arg (text "--exclude-should-panic")
    then alone (λ p.
      push_listing_and_execution_flag arg
        (record p { listing_needs_unstable = true; execution_needs_unstable = true }))
    else if is_one_of arg (
        text "--force-run-in-process"
        ∷ text "--no-capture"
        ∷ text "--nocapture"
        ∷ text "--show-output"
        ∷ [])
    then alone (push_execution_flag arg)
    else if is_one_of arg
        (text "--fail-fast" ∷ text "--report-time" ∷ text "--ensure-time" ∷ text "--shuffle" ∷ [])
    then alone (λ p. push_execution_flag arg (record p { execution_needs_unstable = true }))
    else if text_eq arg (text "--shuffle-seed")
    then valued (push_unstable_execution_value arg)
    else if text_eq arg (text "--logfile")
    then valued (push_execution_value arg)
    else if text_eq arg (text "--format")
    then valued set_output_format
    else if is_one_of arg (text "--test-threads" ∷ text "--color" ∷ [])
    then valued (λ value p. p)
    else if is_one_of arg (text "-q" ∷ text "--quiet" ∷ [])
    then alone (λ p. record p { output_format = terse })
    else if is_one_of arg (text "-h" ∷ text "--help" ∷ [])
    then alone (λ p. record p { help = true })
    else if text_eq arg (text "--")
    then filters
    else if starts_with arg (text "-")
    then alone (push_execution_flag arg)
    else alone (push_filter arg)

-- `if let Some(value) = arg.strip_prefix(flag) { …; continue; }`
or_prefix : Option Text → (Text → Step) → Step → Step
or_prefix none step rest = rest
or_prefix (some value) step rest = step value

step_of_z : Text → Step
unfolding note_unstable_option
step_of_z [] = valued note_unstable_option
step_of_z (c ∷ value) = alone (note_unstable_option (c ∷ value))

step_of : Text → Step
unfolding or_prefix step_of_z step_of_flag
step_of arg =
    or_prefix (strip_prefix arg (text "--skip=")) (λ value. alone (push_skip value))
      (or_prefix (strip_prefix arg (text "--logfile="))
        (λ value. alone (push_execution_value (text "--logfile") value))
        (if starts_with arg (text "--test-threads=") || starts_with arg (text "--color=")
          then alone (λ p. p)
          else or_prefix (strip_prefix arg (text "--format="))
              (λ value. alone (set_output_format value))
              (or_prefix (strip_prefix arg (text "--filter=")) (λ value. alone (push_filter value))
                (or_prefix (strip_prefix arg (text "--shuffle-seed="))
                  (λ value. alone (push_unstable_execution_value (text "--shuffle-seed") value))
                  (or_prefix (strip_prefix arg (text "-Z")) step_of_z (step_of_flag arg))))))

push_filters : List Text → LibtestUserArgs → LibtestUserArgs
unfolding push_filter
push_filters [] p = p
push_filters (value ∷ values) p = push_filters values (push_filter value p)

-- The last argument, which has no value behind it.
last_step : Step → LibtestUserArgs → LibtestUserArgs
last_step (alone f) p = f p
last_step (valued f) p = p
last_step filters p = p

take_step :
    Step
    → Text
    → List Text
    → (LibtestUserArgs → LibtestUserArgs)
    → (LibtestUserArgs → LibtestUserArgs)
    → LibtestUserArgs
    → LibtestUserArgs
unfolding push_filters
take_step (alone f) value rest on_one on_two p = on_one (f p)
take_step (valued f) value rest on_one on_two p = on_two (f value p)
take_step filters value rest on_one on_two p = push_filters (value ∷ rest) p

parse_from : List Text → LibtestUserArgs → LibtestUserArgs
unfolding step_of last_step take_step
parse_from [] p = p
parse_from (arg ∷ []) p = last_step (step_of arg) p
parse_from (arg ∷ (value ∷ rest)) p =
    take_step (step_of arg) value rest (parse_from (value ∷ rest)) (parse_from rest) p

-- `LibtestUserArgs::parse`
unfoldable pub parse_user_args : List Text → LibtestUserArgs
unfolding parse_from
parse_user_args args = parse_from args no_args

ignored_args : IgnoredPolicy → List Text
ignored_args exclude_ignored = []
ignored_args include_ignored = text "--include-ignored" ∷ []
ignored_args ignored_only = text "--ignored" ∷ []

unstable : List Text
unstable = text "-Z" ∷ text "unstable-options" ∷ []

list_args : ListFormat → Bool → List Text
unfolding unstable
list_args text_list needs_unstable = text "--list" ∷ (if needs_unstable then unstable else [])
list_args json_list needs_unstable = unstable ++ text "--list" ∷ text "--format" ∷ text "json" ∷ []

unfoldable pub libtest_listing_args : IgnoredPolicy → ListFormat → List Text → List Text
unfolding ignored_args list_args parse_user_args
libtest_listing_args ignored format user_args =
    let parsed = parse_user_args user_args in
    list_args format parsed.listing_needs_unstable ++ (ignored_args ignored ++ parsed.listing_args)

format_args : RunFormat → Bool → List Text
unfolding unstable
format_args json_run needs_unstable = unstable ++ text "--format" ∷ text "json" ∷ []
format_args text_run needs_unstable = if needs_unstable then unstable else []

unfoldable pub libtest_execution_args :
    List Text → IgnoredPolicy → RunFormat → List Text → List Text
unfolding ignored_args format_args parse_user_args
libtest_execution_args names ignored format user_args =
    let parsed = parse_user_args user_args in
    names
    ++ (text "--exact"
        ∷ text "--test-threads=1"
        ∷ text "--color=never"
        ∷ (ignored_args ignored
            ++ (format_args format parsed.execution_needs_unstable
                ++ parsed.per_test_execution_args)))

unfoldable pub doctest_execution_args : IgnoredPolicy → RunFormat → List Text → List Text
unfolding ignored_args format_args parse_user_args
doctest_execution_args ignored format user_args =
    let parsed = parse_user_args user_args in
    text "--test-threads=1"
    ∷ text "--color=never"
    ∷ (ignored_args ignored
        ++ (format_args format parsed.execution_needs_unstable
            ++ parsed.whole_target_execution_args))

nightly_error : LibtestOutputFormat → Bool → Option Text
nightly_error json false =
    some
      (text "The \"json\" format is only accepted on the nightly compiler with -Z unstable-options")
nightly_error junit false =
    some (
      text "The \"junit\" format is only accepted on the nightly compiler with -Z unstable-options")
nightly_error format unstable_options = none

first_error : Option Text → Option Text → Option Text
first_error none error = error
first_error (some e) error = some e

unfoldable pub libtest_user_usage_error : List Text → Option Text
unfolding nightly_error first_error parse_user_args
libtest_user_usage_error args =
    let parsed = parse_user_args args in
    if parsed.help
    then none
    else first_error parsed.format_error
        (nightly_error parsed.output_format parsed.unstable_options)

-- `s.strip_suffix(p)`
unfoldable pub strip_suffix : Text → Text → Option Text
strip_suffix s p =
    let n = length s - length p in
    if leb (length p) (length s) && text_eq (drop n s) p then some (take n s) else none

case_named : TestCaseKind → Option Text → Option TestCase
case_named kind none = none
case_named kind (some []) = none
case_named kind (some (c ∷ name)) = some (record { name = c ∷ name; kind = kind; ignored = false })

-- A line whose suffix is `: test` is not tried for the other.
parse_line : Text → Option TestCase
unfolding case_named strip_suffix
parse_line line = elim (strip_suffix line (text ": test")) [
  | some name ↦ case_named test (some name)
  | none ↦ case_named benchmark (strip_suffix line (text ": benchmark"))
]

cons_some : Option TestCase → List TestCase → List TestCase
cons_some none cases = cases
cons_some (some case_) cases = case_ ∷ cases

cases_of : List Text → List TestCase
unfolding parse_line cons_some
cases_of [] = []
cases_of (l ∷ ls) = cons_some (parse_line (trim_end l)) (cases_of ls)

unfoldable pub parse_text : Text → List TestCase
unfolding cases_of
parse_text s = cases_of (lines s)

selected : IgnoredPolicy → Option Text → Option (List TestCase)
selected policy none = none
selected policy (some s) = some (filter (λ t. selects policy t.ignored) (parse_text s))

-- `parse_listing` of the stable text; `none` is `NotUtf8`.
unfoldable pub parse_text_listing : Text → IgnoredPolicy → Option (List TestCase)
unfolding selected parse_text
parse_text_listing stdout policy = selected policy (from_utf8 stdout)
