-- ===== src/Execution/Command/Quoting.antt =====
-- How a shell reads the words that `shell_quote` writes.
use quokka.Prelude.{
  Text, text, Bool, true, ◌&&◌, ◌||◌, Option, none, some, ℕ, leb, ◌==◌, if◌then◌else◌, ==_iff,
  Bool-cases, ◌≡◌, refl, sym, ap, inl, inr, [], ◌∷◌, ◌++◌, any, nat_key, text_key,
}
use mathlib.Core.List.{append_assoc}
use quokka.Execution.Command.{quote, escape_quotes, shell_quote}

-- Where a shell stands in a word.
pub data Quotes : Type 0 where
  bare single double : Quotes

abbrev is_blank : ℕ → Bool
is_blank c = c == 32 || c == 9 || c == 10

-- A character that a shell takes for more than itself between double quotes.
abbrev is_special : ℕ → Bool
is_special c = any (λ d. c == d) (text "$`\\")

-- A character that every shell takes for itself outside of quotes, wherever it stands: a letter, a
-- digit or one of a few marks. All others, such as `;`, `*`, `~` and `#`, may separate commands, be
-- expanded or begin a comment.
abbrev is_plain : ℕ → Bool
is_plain c =
    leb 97 c && leb c 122
    || leb 65 c && leb c 90
    || leb 48 c && leb c 57
    || any (λ d. c == d) (text "_-./:,@+")

with_char : ℕ → Option (Text × Text) → Option (Text × Text)
with_char c none = none
with_char c (some (word, rest)) = some (c ∷ word, rest)

-- A word of the POSIX shell language up to a blank, and what stands behind it; `none` where it is
-- not closed, or where something in it may be expanded, end the command or be no part of a word.
unfoldable pub read_word : Quotes → Text → Option (Text × Text)
unfolding with_char
read_word bare [] = some ([], [])
read_word single [] = none
read_word double [] = none
read_word bare (c ∷ s) =
    let in_single = read_word single s in
    let in_double = read_word double s in
    let on = read_word bare s in
    if is_blank c
    then some ([], c ∷ s)
    else if c == quote
    then in_single
    else if c == 34
    then in_double
    else if is_plain c
    then with_char c on
    else none
read_word single (c ∷ s) =
    let out = read_word bare s in
    let on = read_word single s in if c == quote then out else with_char c on
read_word double (c ∷ s) =
    let out = read_word bare s in
    let on = read_word double s in
    if c == 34 then out else if is_special c then none else with_char c on

-- The text begins with a blank or is at its end.
unfoldable pub ends_word : Text → Bool
ends_word [] = true
ends_word (c ∷ s) = is_blank c

after_word : (rest : Text) → ends_word rest ≡ true → read_word bare rest ≡ some ([], rest)
unfolding read_word ends_word
after_word [] h = refl
after_word (c ∷ s) h = rw h refl

read_word-escape_quotes :
    (s rest : Text)
    → ends_word rest ≡ true
    → read_word single (escape_quotes s ++ quote ∷ rest) ≡ some (s, rest)
unfolding read_word escape_quotes with_char
read_word-escape_quotes [] rest h = after_word rest h
read_word-escape_quotes (c ∷ s) rest h =
    let there = read_word-escape_quotes s rest h in
    elim (Bool-cases (c == quote)) [
      | inl e ↦ rw (e, there) (ap (λ x. some (x ∷ s, rest)) (sym ((==_iff c quote).0 e)))
      | inr e ↦ rw (e, e, there) refl
    ]

-- Whatever its characters, a quoted text is read back by a shell as one word with that text.
pub read_word-shell_quote :
    (s rest : Text)
    → ends_word rest ≡ true
    → read_word bare (shell_quote s ++ rest) ≡ some (s, rest)
unfolding read_word shell_quote
read_word-shell_quote s rest h =
    rw (append_assoc (escape_quotes s) (quote ∷ []) rest) (read_word-escape_quotes s rest h)
