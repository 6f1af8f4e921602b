-- ===== src/DurationDb/Bytes/Laws.antt =====
-- What is written as bytes is read back.
use quokka.Prelude.{
  Text, true, some, ℕ, zero, suc, ◌*◌, ◌/◌, ◌^◌, ◌<◌, leb, ◌≡◌, refl, sym, ap, List, [], ◌∷◌, ◌++◌,
  map, arith, length, take, drop, All, flatten, nat_key, text_key,
}
use mathlib.Core.List.{append_assoc}
use quokka.Prelude.{length-append}
use quokka.Std.{le_bytes}
use quokka.DurationDb.Bytes.{Reader, read_exact, from_le_bytes, read_uint, read_many, push_read}

pub take-append : (xs rest : Text) → take (length xs) (xs ++ rest) ≡ xs
take-append [] rest = refl
take-append (x ∷ xs) rest = ap (λ ys. x ∷ ys) (take-append xs rest)

pub drop-append : (xs rest : Text) → drop (length xs) (xs ++ rest) ≡ rest
drop-append [] rest = refl
drop-append (x ∷ xs) rest = drop-append xs rest

pub read_exact-append :
    (n : ℕ) (xs rest : Text) → length xs ≡ n → read_exact n (xs ++ rest) ≡ (some xs, rest)
unfolding read_exact
read_exact-append n xs rest e =
    let enough : leb n (length (xs ++ rest)) ≡ true = ground (arith, length-append xs rest) in
    rw (enough, sym e, take-append xs rest, drop-append xs rest)

pub length-le_bytes : (k n : ℕ) → length (le_bytes k n) ≡ k
unfolding le_bytes
length-le_bytes zero n = refl
length-le_bytes (suc k) n = ap suc (length-le_bytes k (n / 256))

power-suc : (k : ℕ) → 256 ^ suc k ≡ 256 * 256 ^ k
power-suc k = omega arith

pub from_le_bytes-le_bytes : (k n : ℕ) → n < 256 ^ k → from_le_bytes (le_bytes k n) ≡ n
unfolding from_le_bytes le_bytes
from_le_bytes-le_bytes zero n h = omega arith
from_le_bytes-le_bytes (suc k) n h =
    let small : n / 256 < 256 ^ k = omega (arith, power-suc k) in
    omega (arith, from_le_bytes-le_bytes k (n / 256) small)

pub read_uint-le_bytes :
    (k n : ℕ) (rest : Text) → n < 256 ^ k → read_uint k (le_bytes k n ++ rest) ≡ (some n, rest)
unfolding read_uint
read_uint-le_bytes k n rest h =
    rw (read_exact-append k (le_bytes k n) rest (length-le_bytes k n), from_le_bytes-le_bytes k n h)

pub read_uint-byte : (b : ℕ) (rest : Text) → read_uint 1 (b ∷ rest) ≡ (some b, rest)
unfolding read_uint read_exact from_le_bytes
read_uint-byte b rest = ground arith

module _ {A : Type 0} (read : Reader A) (write : A → Text) where
  -- The reader gives back what was written, and stops behind it.
  abbrev pub Reads : A → Type 0
  Reads a = (rest : Text) → read (write a ++ rest) ≡ (some a, rest)

  pub read_many-write :
      (items : List A) (rest : Text)
      → All Reads items
      → read_many read (length items) (flatten (map write items) ++ rest) ≡ (items, rest)
  unfolding read_many
  read_many-write [] rest h = refl
  read_many-write (a ∷ items) rest h = rw (
    append_assoc (write a) (flatten (map write items)) rest,
    h.0 (flatten (map write items) ++ rest),
    push_read,
    read_many-write items rest h.1,
  )
