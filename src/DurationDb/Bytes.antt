-- ===== src/DurationDb/Bytes.antt =====
-- Reading of `std::io::Read` over bytes at hand (src/duration_db.rs). A reader takes the bytes that
-- are left; a `read_exact` that fails has read all of them.
pub mod Laws
use quokka.Prelude.{
  Text, text, text_eq, text_eq_iff, text_eq_refl, strip_prefix, split_once, show_nat, Bool, true,
  false, not, ◌&&◌, ◌||◌, Option, none, some, ℕ, zero, suc, ◌+◌, ◌-◌, ◌*◌, ◌/◌, ◌%◌, ◌^◌, ◌≤◌, ◌<◌,
  max, min, ltb, leb, ◌==◌, if◌then◌else◌, ==_iff, Bool-cases, Option-cases, ◌≡◌, refl, sym, ap,
  ◌∙◌, ◌≢◌, ◌↔◌, ◌⊎◌, inl, inr, List, [], ◌∷◌, ◌++◌, map, Perm, arith, length, get_elem?, take,
  drop, replicate, any, filter, is_empty, All, flatten, Result, ok, err, Key, Map, lookup, insert,
  remove, lookup-insert, lookup-insert_self, lookup-insert_ne, nat_key, text_key,
}
use quokka.Std.{le_bytes, from_utf8}

abbrev pub Reader : Type 0 → Type 0
Reader A = Text → Option A × Text

module _ {A B : Type 0} where
  abbrev and_then : (A → Reader B) → Option A × Text → Option B × Text
  and_then f (none, rest) = (none, rest)
  and_then f (some a, rest) = f a rest

  infixl 5 ◌>>=◌
  abbrev pub ◌>>=◌ : Reader A → (A → Reader B) → Reader B
  ◌>>=◌ m f input = and_then f (m input)

abbrev pub pure : {A : Type 0} → A → Reader A
pure a input = (some a, input)

abbrev pub fail : {A : Type 0} → Reader A
fail input = (none, input)

abbrev pub lift : {A : Type 0} → Option A → Reader A
lift o input = (o, input)

unfoldable pub read_exact : ℕ → Reader Text
read_exact n input =
    if leb n (length input) then (some (take n input), drop n input) else (none, [])

-- `uN::from_le_bytes(buf)`
unfoldable pub from_le_bytes : Text → ℕ
from_le_bytes [] = 0
from_le_bytes (b ∷ bs) = b + 256 * from_le_bytes bs

-- A number of `k` bytes.
pub read_uint : ℕ → Reader ℕ
read_uint k = do bytes ← read_exact k; pure (from_le_bytes bytes)

module _ {A : Type 0} where
  push_read : (Text → List A × Text) → Option A × Text → List A × Text
  push_read more (none, rest) = more rest
  push_read more (some a, rest) = let (items, left) = more rest in (a ∷ items, left)

  -- `for _ in 0..n { if let Some(a) = read(…) { items.push(a) } }`
  unfoldable pub read_many : Reader A → ℕ → Text → List A × Text
  unfolding push_read
  read_many read zero input = ([], input)
  read_many read (suc n) input = push_read (read_many read n) (read input)
