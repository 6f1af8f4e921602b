-- ===== src/Labels.antt =====
-- Target labels: the part of a label behind its namespace, as every reader of labels takes it
-- (src/policy.rs, src/caching.rs, src/environment.rs, src/scheduler.rs).
use quokka.Prelude.{Text, text_eq, split_once, Bool, Option, none, some, List, any}

suffix_of : Text → Option (Text × Text) → Text
suffix_of l none = l
suffix_of l (some (before, behind)) = behind

-- `l.split_once(':').unwrap_or(("", l)).1`
unfoldable pub label_suffix : Text → Text
unfolding suffix_of
label_suffix l = suffix_of l (split_once l b':')

-- Some label has this suffix.
abbrev pub has_suffix : Text → List Text → Bool
has_suffix s labels = any (λ l. text_eq (label_suffix l) s) labels
