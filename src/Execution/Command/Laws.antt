-- ===== src/Execution/Command/Laws.antt =====
-- What the requests of an action carry.
use quokka.Prelude.{
  Text, true, not, ◌&&◌, Option, none, some, ℕ, zero, suc, ◌==◌, if◌then◌else◌, ◌≡◌, refl, List, [],
  ◌∷◌, ◌++◌, length, nat_key, text_key,
}
use mathlib.Core.List.{append_assoc}
use quokka.Execution.Command.{shell_quote, quoted_args}
use quokka.Execution.Command.Quoting.{bare, read_word, ends_word, read_word-shell_quote}

-- The words of a command line, each behind one space. A word has at least one character there, which
-- may be a quote. The fuel bounds their number.
word_then : (Text → Option (List Text × Text)) → Option (Text × Text) → Option (List Text × Text)
word_then more none = none
word_then more (some (word, rest)) = elim (more rest) [
  | none ↦ none
  | some (words, left) ↦ some (word ∷ words, left)
]

unfoldable pub read_words : ℕ → Text → Option (List Text × Text)
unfolding word_then ends_word
read_words zero s = some ([], s)
read_words (suc n) [] = none
read_words (suc n) (c ∷ s) =
    let words = word_then (read_words n) (read_word bare s) in
    if c == 32 && not (ends_word s) then words else none

quoted_args-ends :
    (args : List Text) (rest : Text)
    → ends_word rest ≡ true
    → ends_word (quoted_args args ++ rest) ≡ true
unfolding quoted_args ends_word
quoted_args-ends [] rest h = h
quoted_args-ends (a ∷ args) rest h = refl

-- A shell reads the arguments of a logical command as the words they are, one for each, whatever
-- characters they have, and also where they are empty. The reader refuses every character outside of
-- quotes that could be expanded or end the command, so nothing of an argument is.
pub read_words-quoted_args :
    (args : List Text) (rest : Text)
    → ends_word rest ≡ true
    → read_words (length args) (quoted_args args ++ rest) ≡ some (args, rest)
unfolding read_words quoted_args ends_word shell_quote
read_words-quoted_args [] rest h = refl
read_words-quoted_args (a ∷ args) rest h = rw (
  append_assoc (shell_quote a) (quoted_args args) rest,
  read_word-shell_quote a (quoted_args args ++ rest) (quoted_args-ends args rest h),
  word_then,
  read_words-quoted_args args rest h,
)
