-- ===== src/Std.antt =====
-- What the program uses of Rust's standard library on strings and bytes.
use quokka.Prelude.{
  Text, text_eq, Bool, true, false, ◌&&◌, ◌||◌, Option, none, some, ℕ, zero, suc, ◌+◌, ◌-◌, ◌*◌,
  ◌/◌, ◌%◌, ◌^◌, ltb, leb, ◌==◌, if◌then◌else◌, List, [], ◌∷◌, ◌++◌, length, get_elem?, drop,
  is_empty, nat_key, text_key,
}

abbrev between : ℕ → ℕ → ℕ → Bool
between lo hi b = leb lo b && leb b hi

-- Where a UTF-8 decoder stands inside a character: the bytes read of it, how many are missing, and
-- the range of the next one.
record Decoding : Type 0 where
  read : Text
  missing : ℕ
  lo : ℕ
  hi : ℕ

abbrev expecting : ℕ → ℕ → ℕ → ℕ → Decoding
expecting b missing lo hi = record { read = b ∷ []; missing = missing; lo = lo; hi = hi }

abbrev idle : Decoding
idle = record { read = []; missing = 0; lo = 0; hi = 0 }

abbrev replacement : Text
replacement = 0xEF ∷ 0xBF ∷ 0xBD ∷ []

-- A byte that begins a character: what is written at once, and what is then expected.
begin : ℕ → Text × Decoding
begin b =
    if ltb b 0x80
    then (b ∷ [], idle)
    else if between 0xC2 0xDF b
    then ([], expecting b 1 0x80 0xBF)
    else if b == 0xE0
    then ([], expecting b 2 0xA0 0xBF)
    else if b == 0xED
    then ([], expecting b 2 0x80 0x9F)
    else if between 0xE1 0xEF b
    then ([], expecting b 2 0x80 0xBF)
    else if b == 0xF0
    then ([], expecting b 3 0x90 0xBF)
    else if between 0xF1 0xF3 b
    then ([], expecting b 3 0x80 0xBF)
    else if b == 0xF4
    then ([], expecting b 3 0x80 0x8F)
    else (replacement, idle)

-- A byte within a character, `missing` being what it leaves missing.
continue : Decoding → ℕ → ℕ → Text × Decoding
unfolding begin
continue d b missing =
    if between d.lo d.hi b
    then (if missing == 0
        then (d.read ++ b ∷ [], idle)
        else ([], record { read = d.read ++ b ∷ []; missing = missing; lo = 0x80; hi = 0xBF }))
    else (let (out, d') = begin b in (replacement ++ out, d'))

advance : Decoding → ℕ → ℕ → Text × Decoding
unfolding continue
advance d zero b = begin b
advance d (suc missing) b = continue d b missing

lossy_from : Decoding → Text → Text
unfolding advance
lossy_from d [] = if d.missing == 0 then [] else replacement
lossy_from d (b ∷ s) = let (out, d') = advance d d.missing b in out ++ lossy_from d' s

-- `String::from_utf8_lossy`: each maximal invalid part becomes U+FFFD.
unfoldable pub from_utf8_lossy : Text → Text
unfolding lossy_from
from_utf8_lossy bytes = lossy_from idle bytes

-- `String::from_utf8(bytes).ok()`: the bytes are valid where nothing was replaced.
unfoldable pub from_utf8 : Text → Option Text
unfolding from_utf8_lossy
from_utf8 bytes = if text_eq (from_utf8_lossy bytes) bytes then some bytes else none

-- The length of the `White_Space` character that a text begins with, or 0.
whitespace_len : Text → ℕ
whitespace_len [] = 0
whitespace_len (a ∷ []) = if between 9 13 a || a == 32 then 1 else 0
whitespace_len (a ∷ b ∷ []) =
    if between 9 13 a || a == 32 then 1 else if a == 0xC2 && (b == 0x85 || b == 0xA0) then 2 else 0
whitespace_len (a ∷ b ∷ c ∷ s) =
    if between 9 13 a || a == 32
    then 1
    else if a == 0xC2 && (b == 0x85 || b == 0xA0)
    then 2
    else if (a == 0xE1 && b == 0x9A && c == 0x80)
        || (a == 0xE2 && b == 0x80 && (between 0x80 0x8A c || c == 0xA8 || c == 0xA9 || c == 0xAF))
        || (a == 0xE2 && b == 0x81 && c == 0x9F)
        || (a == 0xE3 && b == 0x80 && c == 0x80)
    then 3
    else 0

-- The white space that the text ends in begins here: the fuel is the length.
only_whitespace : ℕ → Text → Bool
unfolding whitespace_len
only_whitespace zero s = is_empty s
only_whitespace (suc f) s =
    let n = whitespace_len s in
    let rest = only_whitespace f (drop n s) in
    if is_empty s then true else if n == 0 then false else rest

-- `s.trim_end()`
unfoldable pub trim_end : Text → Text
unfolding only_whitespace
trim_end [] = []
trim_end (c ∷ s) =
    let rest = trim_end s in if only_whitespace (length (c ∷ s)) (c ∷ s) then [] else c ∷ rest

strip_cr : Text → Text
strip_cr [] = []
strip_cr (c ∷ []) = if c == 13 then [] else c ∷ []
strip_cr (c ∷ (d ∷ s)) = c ∷ strip_cr (d ∷ s)

lines_from : Text → Text → List Text
unfolding strip_cr
lines_from line [] = if is_empty line then [] else line ∷ []
lines_from line (c ∷ s) =
    let next = lines_from [] s in
    let longer = lines_from (line ++ c ∷ []) s in if c == 10 then strip_cr line ∷ next else longer

-- `s.lines()`
unfoldable pub lines : Text → List Text
unfolding lines_from
lines s = lines_from [] s

abbrev token : Text → List Text → List Text
token [] ts = ts
token (c ∷ cs) ts = (c ∷ cs) ∷ ts

split_from : ℕ → Text → Text → List Text
unfolding whitespace_len
split_from zero word s = token word []
split_from (suc f) word [] = token word []
split_from (suc f) word (c ∷ s) =
    let n = whitespace_len (c ∷ s) in
    let next = split_from f [] (drop n (c ∷ s)) in
    let longer = split_from f (word ++ c ∷ []) s in if n == 0 then longer else token word next

-- `s.split_whitespace()`; each round takes a byte, so the length is fuel enough.
unfoldable pub split_whitespace : Text → List Text
unfolding split_from
split_whitespace s = split_from (suc (length s)) [] s

digits_value : ℕ → Text → Option ℕ
digits_value acc [] = some acc
digits_value acc (c ∷ s) =
    let rest = digits_value (acc * 10 + (c - b'0')) s in if between b'0' b'9' c then rest else none

in_usize : Option ℕ → Option ℕ
in_usize none = none
in_usize (some n) = if ltb n (2 ^ 64) then some n else none

unsigned : Text → Option ℕ
unfolding digits_value
unsigned [] = none
unsigned (c ∷ s) = in_usize (digits_value 0 (c ∷ s))

-- `s.parse::<usize>().ok()`
unfoldable pub parse_usize : Text → Option ℕ
unfolding unsigned in_usize
parse_usize [] = none
parse_usize (c ∷ s) = if c == b'+' then unsigned s else unsigned (c ∷ s)

-- `s.starts_with(p)`
unfoldable pub starts_with : Text → Text → Bool
starts_with s [] = true
starts_with [] (c ∷ p) = false
starts_with (b ∷ s) (c ∷ p) = (b == c) && starts_with s p

-- `parts.join(sep)`
unfoldable pub join : Text → List Text → Text
join sep [] = []
join sep (p ∷ []) = p
join sep (p ∷ (q ∷ ps)) = p ++ (sep ++ join sep (q ∷ ps))

-- The order of `str`, which is that of the bytes.
unfoldable pub text_lt : Text → Text → Bool
text_lt [] [] = false
text_lt [] (b ∷ t) = true
text_lt (a ∷ s) [] = false
text_lt (a ∷ s) (b ∷ t) = ltb a b || (a == b) && text_lt s t

-- `dedup()`: of equal neighbours the first is kept.
unfoldable pub dedup : List Text → List Text
dedup [] = []
dedup (x ∷ []) = x ∷ []
dedup (x ∷ (y ∷ ys)) = let rest = dedup (y ∷ ys) in if text_eq x y then rest else x ∷ rest

abbrev is_continuation : Option ℕ → Bool
is_continuation none = false
is_continuation (some b) = between 0x80 0xBF b

-- `s.chars().take(n)`: a character goes with its continuation bytes.
unfoldable pub take_chars : ℕ → Text → Text
take_chars n [] = []
take_chars zero (b ∷ s) = if is_continuation (some b) then b ∷ take_chars zero s else []
take_chars (suc n) (b ∷ s) = b ∷ take_chars (if is_continuation (some b) then suc n else n) s

-- The last character boundary of the text at or before a position within it.
unfoldable pub floor_char_boundary : Text → ℕ → ℕ
floor_char_boundary s zero = 0
floor_char_boundary s (suc n) =
    let lower = floor_char_boundary s n in
    if is_continuation (get_elem? s (suc n)) then lower else suc n

-- `n.to_le_bytes()` with `k` bytes.
unfoldable pub le_bytes : ℕ → ℕ → Text
le_bytes zero n = []
le_bytes (suc k) n = n % 256 ∷ le_bytes k (n / 256)
