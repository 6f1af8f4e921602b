-- ===== src/DurationDb/Identity/Laws.antt =====
-- Test identities and failure classes, written and read.
use quokka.Prelude.{
  Text, true, false, Option, none, some, ◌^◌, ◌≤◌, ◌<◌, ltb, ◌≡◌, refl, ◌++◌, arith, length,
  nat_key, text_key,
}
use mathlib.Core.List.{append_assoc}
use quokka.Std.{le_bytes, from_utf8}
use quokka.Variant.{parse, variant_text}
use quokka.Outcome.{TestIdentity, FailureClass}
use quokka.DurationDb.Bytes.Laws.{read_uint-le_bytes, read_exact-append}
use quokka.DurationDb.Identity.{
  failure_class_from_u8, class_byte, max_string, read_bytes_of, read_string, write_string,
  read_test_identity, write_test_identity,
}

pub from_u8-class_byte :
    (class : Option FailureClass) → failure_class_from_u8 (class_byte class) ≡ class
unfolding failure_class_from_u8 class_byte
from_u8-class_byte none = refl
from_u8-class_byte (some FailureClass.fail) = refl
from_u8-class_byte (some FailureClass.fatal) = refl
from_u8-class_byte (some FailureClass.timeout) = refl
from_u8-class_byte (some FailureClass.infra) = refl

-- A Rust string that the reader's limit lets through.
pub record IsStorable (s : Text) : Type 0 where
  pub valid : from_utf8 s ≡ some s
  pub short : length s ≤ max_string

read_string-write_string :
    (s rest : Text) → IsStorable s → read_string (write_string s ++ rest) ≡ (some s, rest)
unfolding read_string write_string read_bytes_of
read_string-write_string s rest h =
    let long : ltb max_string (length s) ≡ false = ground (arith, h.short) in
    let fits : length s < 256 ^ 4 = omega (arith, h.short) in
    rw (
      append_assoc (le_bytes 4 (length s)) s rest,
      read_uint-le_bytes 4 (length s) (s ++ rest) fits,
      long,
      read_exact-append (length s) s rest refl,
      h.valid,
    )

-- What names.log and names.bin can hold. A variant that was parsed is written back as it was read.
pub record IsRecordable (tid : TestIdentity) : Type 0 where
  pub target : IsStorable tid.target
  pub name : IsStorable tid.name
  pub variant : IsStorable (variant_text tid.variant)
  pub parsed : parse (variant_text tid.variant) ≡ tid.variant

pub read-write_test_identity :
    (tid : TestIdentity) (rest : Text)
    → IsRecordable tid
    → read_test_identity (write_test_identity tid ++ rest) ≡ (some tid, rest)
unfolding read_test_identity write_test_identity
read-write_test_identity tid rest h =
    let name = write_string tid.name in
    let variant = write_string (variant_text tid.variant) in
    rw (
      append_assoc (write_string tid.target) (name ++ variant) rest,
      append_assoc name variant rest,
      read_string-write_string tid.target (name ++ (variant ++ rest)) h.target,
      read_string-write_string tid.name (variant ++ rest) h.name,
      read_string-write_string (variant_text tid.variant) rest h.variant,
      h.parsed,
    )

-- A string that is over the limit is written, but not read: the reader gives up behind its length,
-- where its text stands.
pub read_string-long :
    (s rest : Text)
    → max_string < length s
    → length s < 2 ^ 32
    → read_string (write_string s ++ rest) ≡ (none, s ++ rest)
unfolding read_string write_string read_bytes_of
read_string-long s rest h fits =
    let long : ltb max_string (length s) ≡ true = ground arith in
    let small : length s < 256 ^ 4 = omega arith in
    rw (
      append_assoc (le_bytes 4 (length s)) s rest,
      read_uint-le_bytes 4 (length s) (s ++ rest) small,
      long,
    )
