-- ===== src/Variant.antt =====
-- src/variant.rs: the variant of a run and its repetition.
use quokka.Prelude.{
  Text, text, text_eq, text_eq_iff, Bool, true, false, Option, none, some, ℕ, if◌then◌else◌, ◌≡◌,
  arith, nat_key, text_key,
}

pub data Variant : Type 0 where
  default asan tsan miri loom coverage : Variant
  named : Text → Variant

unfoldable pub is_default : Variant → Bool
is_default default = true
is_default _ = false

-- The string of `Testing.variant`.
unfoldable pub identity : Variant → Option Text
identity default = none
identity asan = some (text "asan")
identity tsan = some (text "tsan")
identity miri = some (text "miri")
identity loom = some (text "loom")
identity coverage = some (text "coverage")
identity (named name) = some name

-- `Variant::parse`, the match on the text as its tests in order.
unfoldable pub parse : Text → Variant
parse value =
    if text_eq value (text "default")
    then default
    else if text_eq value (text "asan")
    then asan
    else if text_eq value (text "tsan")
    then tsan
    else if text_eq value (text "miri")
    then miri
    else if text_eq value (text "loom")
    then loom
    else if text_eq value (text "coverage")
    then coverage
    else named value

-- How a variant is written where a string is always needed (src/duration_db.rs, `unwrap_or_else`).
abbrev or_default : Option Text → Text
or_default none = text "default"
or_default (some s) = s

unfoldable pub variant_text : Variant → Text
unfolding identity
variant_text v = or_default (identity v)

-- A variant parsed from a text is written back as that text, whatever the text is.
pub variant_text-parse : (value : Text) → variant_text (parse value) ≡ value
unfolding variant_text parse
variant_text-parse value = ground (
  arith,
  text_eq_iff value (text "default"),
  text_eq_iff value (text "asan"),
  text_eq_iff value (text "tsan"),
  text_eq_iff value (text "miri"),
  text_eq_iff value (text "loom"),
  text_eq_iff value (text "coverage"),
)

-- `NonZeroU32` is a number with its bound kept by `RunnerConfig`.
pub data RepeatKind : Type 0 where
  once : RepeatKind
  stress : ℕ → RepeatKind

unfoldable pub is_stress : RepeatKind → Bool
is_stress once = false
is_stress (stress n) = true

unfoldable pub count : RepeatKind → ℕ
count once = 1
count (stress n) = n
