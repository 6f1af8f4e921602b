-- ===== src/Translator/Libtest/Laws.antt =====
-- Where the arguments of a user go that select tests.
use quokka.Prelude.{
  Text, text, false, ◌==◌, ◌≡◌, refl, ◌∙◌, List, [], ◌∷◌, ◌++◌, map, arith, All, flatten, nat_key,
  text_key,
}
use mathlib.Core.List.{append_assoc, append-nil}
use quokka.Std.{starts_with}
use quokka.Translator.Libtest.{
  LibtestUserArgs, no_args, alone, push_filter, push_skip, is_one_of, step_of_flag, or_prefix,
  step_of, last_step, take_step, parse_from, parse_user_args, push_filters,
}

-- A filter in one of its three spellings before `--`, a name to skip in one of its two, or the flag
-- that both are whole names.
pub data Selector : Type 0 where
  filter_by filter_flag filter_joined skip skip_joined : (value : Text) → Selector
  exact : Selector

abbrev pub given : Selector → List Text
given (filter_by value) = value ∷ []
given (filter_flag value) = text "--filter" ∷ value ∷ []
given (filter_joined value) = (text "--filter=" ++ value) ∷ []
given exact = text "--exact" ∷ []
given (skip value) = text "--skip" ∷ value ∷ []
given (skip_joined value) = (text "--skip=" ++ value) ∷ []

abbrev pub passed_on : Selector → List Text
passed_on (filter_by value) = value ∷ []
passed_on (filter_flag value) = value ∷ []
passed_on (filter_joined value) = value ∷ []
passed_on exact = text "--exact" ∷ []
passed_on (skip value) = text "--skip" ∷ value ∷ []
passed_on (skip_joined value) = text "--skip" ∷ value ∷ []

-- The filters behind `--`, which may begin with dashes.
abbrev pub behind_dashes : List Text → List Text
behind_dashes [] = []
behind_dashes (value ∷ values) = text "--" ∷ value ∷ values

-- A filter without a flag does not begin with a dash.
abbrev pub IsPlain : Selector → Type 0
IsPlain (filter_by value) = starts_with value (text "-") ≡ false
IsPlain (filter_flag value) = Unit
IsPlain (filter_joined value) = Unit
IsPlain exact = Unit
IsPlain (skip value) = Unit
IsPlain (skip_joined value) = Unit

step_of-plain :
    (value : Text)
    → starts_with value (text "-") ≡ false
    → step_of value ≡ alone (push_filter value)
unfolding step_of or_prefix step_of_flag is_one_of starts_with
step_of-plain [] h = refl
step_of-plain (c ∷ s) h = let e : (c == 45) ≡ false = ground arith in rw (e, or_prefix) refl

parse_from-alone :
    (arg : Text) (rest : List Text) (f : LibtestUserArgs → LibtestUserArgs) (p : LibtestUserArgs)
    → step_of arg ≡ alone f
    → parse_from (arg ∷ rest) p ≡ parse_from rest (f p)
unfolding parse_from last_step take_step
parse_from-alone arg [] f p e = rw e refl
parse_from-alone arg (v ∷ rest) f p e = rw e refl

step_of-skip_joined : (value : Text) → step_of (text "--skip=" ++ value) ≡ alone (push_skip value)
unfolding step_of or_prefix
step_of-skip_joined value = refl

step_of-filter_joined :
    (value : Text) → step_of (text "--filter=" ++ value) ≡ alone (push_filter value)
unfolding step_of or_prefix starts_with
step_of-filter_joined value = refl

step_of-exact : step_of (text "--exact") ≡ alone (push_filter (text "--exact"))
unfolding step_of or_prefix step_of_flag is_one_of starts_with
step_of-exact = refl

parse_from-filter :
    (value : Text) (rest : List Text) (p : LibtestUserArgs)
    → parse_from (text "--filter" ∷ value ∷ rest) p ≡ parse_from rest (push_filter value p)
unfolding parse_from take_step step_of or_prefix step_of_flag is_one_of starts_with
parse_from-filter value rest p = refl

parse_from-skip :
    (value : Text) (rest : List Text) (p : LibtestUserArgs)
    → parse_from (text "--skip" ∷ value ∷ rest) p ≡ parse_from rest (push_skip value p)
unfolding parse_from take_step step_of or_prefix step_of_flag starts_with
parse_from-skip value rest p = refl

abbrev selecting : List Text → LibtestUserArgs → LibtestUserArgs
selecting args p = record p {
  listing_args = p.listing_args ++ args;
  whole_target_execution_args = p.whole_target_execution_args ++ args;
}

selecting-append :
    (xs ys : List Text) (p : LibtestUserArgs)
    → selecting ys (selecting xs p) ≡ selecting (xs ++ ys) p
selecting-append xs ys p =
    rw (append_assoc p.listing_args xs ys, append_assoc p.whole_target_execution_args xs ys) refl

push_filters-selecting :
    (values : List Text) (p : LibtestUserArgs) → push_filters values p ≡ selecting values p
unfolding push_filters push_filter
push_filters-selecting [] p =
    rw (append-nil p.listing_args, append-nil p.whole_target_execution_args) refl
push_filters-selecting (v ∷ vs) p =
    push_filters-selecting vs (push_filter v p) ∙ selecting-append (v ∷ []) vs p

parse_from-behind_dashes :
    (values : List Text) (p : LibtestUserArgs)
    → parse_from (behind_dashes values) p ≡ selecting values p
unfolding parse_from take_step step_of or_prefix step_of_flag is_one_of starts_with
parse_from-behind_dashes [] p =
    rw (append-nil p.listing_args, append-nil p.whole_target_execution_args) refl
parse_from-behind_dashes (v ∷ vs) p = push_filters-selecting (v ∷ vs) p

module _ (behind : List Text) where
  -- What the user gives, and what of it selects tests.
  abbrev pub arguments : List Selector → List Text
  arguments sels = flatten (map given sels) ++ behind_dashes behind

  abbrev pub selection : List Selector → List Text
  selection sels = flatten (map passed_on sels) ++ behind

  parse_from-given :
      (sels : List Selector) (p : LibtestUserArgs)
      → All IsPlain sels
      → parse_from (arguments sels) p ≡ selecting (selection sels) p
  unfolding parse_from push_filter push_skip
  parse_from-given [] p h = parse_from-behind_dashes behind p
  parse_from-given (filter_by value ∷ sels) p h =
      parse_from-alone value (arguments sels) (push_filter value) p (step_of-plain value h.0)
      ∙ parse_from-given sels (push_filter value p) h.1
      ∙ selecting-append (value ∷ []) (selection sels) p
  parse_from-given (filter_flag value ∷ sels) p h =
      parse_from-filter value (arguments sels) p
      ∙ parse_from-given sels (push_filter value p) h.1
      ∙ selecting-append (value ∷ []) (selection sels) p
  parse_from-given (filter_joined value ∷ sels) p h =
      parse_from-alone (text "--filter=" ++ value) (arguments sels) (push_filter value) p
        (step_of-filter_joined value)
      ∙ parse_from-given sels (push_filter value p) h.1
      ∙ selecting-append (value ∷ []) (selection sels) p
  parse_from-given (exact ∷ sels) p h =
      parse_from-alone (text "--exact") (arguments sels) (push_filter (text "--exact")) p
        step_of-exact
      ∙ parse_from-given sels (push_filter (text "--exact") p) h.1
      ∙ selecting-append (text "--exact" ∷ []) (selection sels) p
  parse_from-given (skip value ∷ sels) p h =
      parse_from-skip value (arguments sels) p
      ∙ parse_from-given sels (push_skip value p) h.1
      ∙ selecting-append (text "--skip" ∷ value ∷ []) (selection sels) p
  parse_from-given (skip_joined value ∷ sels) p h =
      parse_from-alone (text "--skip=" ++ value) (arguments sels) (push_skip value) p
        (step_of-skip_joined value)
      ∙ parse_from-given sels (push_skip value p) h.1
      ∙ selecting-append (text "--skip" ∷ value ∷ []) (selection sels) p

  -- Filters (as they are, as `--filter X` or as `--filter=X`), `--exact` and skips (`--skip X` or
  -- `--skip=X`), in any number and order, and behind them any filters after `--`, all reach the
  -- listing and the action of a whole target, in their order, and none of them reaches the action of
  -- listed tests, which names its tests itself. A filter before `--` and without a flag does not
  -- begin with a dash.
  pub parse_user_args-given :
      (sels : List Selector)
      → All IsPlain sels
      → parse_user_args (arguments sels) ≡ record no_args {
        listing_args = selection sels;
        whole_target_execution_args = selection sels;
      }
  unfolding parse_user_args
  parse_user_args-given sels h = parse_from-given sels no_args h
