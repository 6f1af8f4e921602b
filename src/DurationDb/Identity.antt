-- ===== src/DurationDb/Identity.antt =====
-- src/duration_db.rs: test identities and failure classes as bytes.
pub mod Laws
use quokka.Prelude.{
  Text, text, text_eq, text_eq_iff, text_eq_refl, strip_prefix, split_once, show_nat, Bool, true,
  false, not, ◌&&◌, ◌||◌, Option, none, some, ℕ, zero, suc, ◌+◌, ◌-◌, ◌*◌, ◌/◌, ◌%◌, ◌^◌, ◌≤◌, ◌<◌,
  max, min, ltb, leb, ◌==◌, if◌then◌else◌, ==_iff, Bool-cases, Option-cases, ◌≡◌, refl, sym, ap,
  ◌∙◌, ◌≢◌, ◌↔◌, ◌⊎◌, inl, inr, List, [], ◌∷◌, ◌++◌, map, Perm, arith, length, get_elem?, take,
  drop, replicate, any, filter, is_empty, All, flatten, Result, ok, err, Key, Map, lookup, insert,
  remove, lookup-insert, lookup-insert_self, lookup-insert_ne, nat_key, text_key,
}
use quokka.Std.{le_bytes, from_utf8}
use quokka.Variant.{Variant, parse, variant_text}
use quokka.Outcome.{TestIdentity, FailureClass}
use quokka.DurationDb.Bytes.{Reader, read_exact, read_uint, pure, fail, lift, ◌>>=◌}

unfoldable pub failure_class_to_u8 : FailureClass → ℕ
failure_class_to_u8 FailureClass.fail = 1
failure_class_to_u8 FailureClass.fatal = 2
failure_class_to_u8 FailureClass.timeout = 3
failure_class_to_u8 FailureClass.infra = 4

unfoldable pub failure_class_from_u8 : ℕ → Option FailureClass
failure_class_from_u8 val =
    if val == 1
    then some FailureClass.fail
    else if val == 2
    then some FailureClass.fatal
    else if val == 3
    then some FailureClass.timeout
    else if val == 4
    then some FailureClass.infra
    else none

-- `class.map(failure_class_to_u8).unwrap_or(0)`
abbrev pub class_byte : Option FailureClass → ℕ
unfolding failure_class_to_u8
class_byte none = 0
class_byte (some c) = failure_class_to_u8 c

abbrev pub max_string : ℕ
max_string = 10_000

read_bytes_of : ℕ → Reader Text
read_bytes_of len =
    if ltb max_string len then fail else (do buf ← read_exact len; lift (from_utf8 buf))

pub read_string : Reader Text
unfolding read_bytes_of
read_string = do len ← read_uint 4; read_bytes_of len

-- The length is cast to `u32`, its four low bytes.
unfoldable pub write_string : Text → Text
write_string s = le_bytes 4 (length s) ++ s

pub read_test_identity : Reader TestIdentity
read_test_identity = do
  target ← read_string
  name ← read_string
  variant_str ← read_string
  pure (record { target = target; name = name; variant = parse variant_str })

unfoldable pub write_test_identity : TestIdentity → Text
unfolding write_string
write_test_identity tid =
    write_string tid.target ++ (write_string tid.name ++ write_string (variant_text tid.variant))
