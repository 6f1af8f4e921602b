-- ===== src/Translator.antt =====
-- src/translator.rs: the interface by which the scheduler sees a test framework, and its built-in
-- implementations' shape. src/listing.rs: the test cases.
pub mod Libtest
use quokka.Prelude.{Text, text, Bool, Option, List, Map, nat_key, text_key}
use quokka.Outcome.{Duration, TestVerdict}
use quokka.Config.{IgnoredPolicy}

pub data TestCaseKind : Type 0 where
  test benchmark : TestCaseKind

-- The listing metadata is only printed by `--list` runs and is left out.
pub record TestCase : Type 0 where
  pub name : Text
  pub kind : TestCaseKind
  pub ignored : Bool

pub record PerTestObservation : Type 0 where
  pub status : TestVerdict
  pub details : Text
  pub framework_case_duration : Option Duration

pub data DemuxCapability : Type 0 where
  singleton_only name_attributable : DemuxCapability

-- `none` from `parse` is `ListingParseError::NotUtf8`.
pub data ListingStrategy : Type 0 where
  per_test_listing :
      (request_args : IgnoredPolicy → List Text → List Text)
      (parse : Text → IgnoredPolicy → Option (List TestCase))
      → ListingStrategy
  whole_target whole_binary : (name : Text) → ListingStrategy

abbrev pub doctest_result_name : Text
doctest_result_name = text "<doctests>"

abbrev pub binary_result_name : Text
binary_result_name = text "<binary>"

-- The trait. The maps that `parse_results` gives are association lists; the order of `keys()` is
-- theirs.
pub record Translator : Type 0 where
  pub declares_executor_overrides : Bool
  pub parser_capability : DemuxCapability
  pub listing_strategy : ListingStrategy
  pub execution_args : List Text → IgnoredPolicy → List Text → List Text
  pub parse_results : Text → Text → Map Text PerTestObservation
