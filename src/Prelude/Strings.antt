-- ===== src/Prelude/Strings.antt =====
-- Rust strings as their UTF-8 bytes, with the operations of `str` that the program uses.
use Prim.Native.Nat.{ℕ, zero, suc, ◌+◌, ◌/◌, ◌%◌}
use Prim.Native.Char.{code}
use Prim.Native.String.{String}
use mathlib.Core.Path.{◌≡◌, refl}
use mathlib.Core.Logic.{◌↔◌}
use mathlib.Core.Bool.{Bool, true, false, ◌&&◌}
use mathlib.Core.Option.{Option, none, some}
use mathlib.Core.List.{List, [], ◌∷◌, ◌++◌}
use native.Mathlib.Omega.{arith}
use quokka.Prelude.Tests.{◌==◌, if◌then◌else◌}

-- The bytes of a string, each below 256.
abbrev pub Text : Type 0
Text = List ℕ

-- An ASCII literal.
abbrev pub text : String → Text
text String.[] = []
text (String.◌∷◌ c s) = code c ∷ text s

abbrev pub text_eq : Text → Text → Bool
text_eq [] [] = true
text_eq [] (b ∷ t) = false
text_eq (a ∷ s) [] = false
text_eq (a ∷ s) (b ∷ t) = (a == b) && text_eq s t

pub text_eq_iff : (s t : Text) → (text_eq s t ≡ true) ↔ (s ≡ t)
text_eq_iff [] [] = ground arith
text_eq_iff [] (b ∷ t) = ground arith
text_eq_iff (a ∷ s) [] = ground arith
text_eq_iff (a ∷ s) (b ∷ t) = ground (arith, text_eq_iff s t)

pub text_eq_refl : (s : Text) → text_eq s s ≡ true
text_eq_refl s = (text_eq_iff s s).1 refl

-- `s.strip_prefix(p)`
abbrev pub strip_prefix : Text → Text → Option Text
strip_prefix s [] = some s
strip_prefix [] (c ∷ p) = none
strip_prefix (b ∷ s) (c ∷ p) = let rest = strip_prefix s p in if b == c then rest else none

abbrev prepend_first : ℕ → Option (Text × Text) → Option (Text × Text)
prepend_first b none = none
prepend_first b (some (s, t)) = some (b ∷ s, t)

-- `s.split_once(c)` for an ASCII character: the parts before and behind its first occurrence.
unfoldable pub split_once : Text → ℕ → Option (Text × Text)
split_once [] c = none
split_once (b ∷ s) c =
    let rest = prepend_first b (split_once s c) in if b == c then some ([], s) else rest

-- The decimal digits of a number, on fuel above the number.
digits_of : ℕ → ℕ → Text
digits_of zero n = []
digits_of (suc f) n =
    let more = digits_of f (n / 10) ++ (b'0' + n % 10) ∷ [] in
    if n / 10 == 0 then (b'0' + n % 10) ∷ [] else more

-- `n.to_string()`
pub show_nat : ℕ → Text
unfolding digits_of
show_nat n = digits_of (suc n) n
