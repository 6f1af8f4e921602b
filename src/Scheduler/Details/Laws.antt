-- ===== src/Scheduler/Details/Laws.antt =====
-- Where the details of a test stand in the finalized text.
use quokka.Prelude.{
  Text, ℕ, ltb, leb, Bool-cases, ◌≡◌, sym, inl, inr, List, [], ◌∷◌, ◌++◌, length, nat_key, text_key,
}
use mathlib.Core.List.{append_assoc, append-nil}
use quokka.Outcome.{route_log}
use quokka.Scheduler.Verdict.{AttemptObservation}
use quokka.Scheduler.Details
use quokka.Scheduler.Details.{
  DetailKind, finalize_details, append_attempt_history, inline_body, separated,
}

-- The text stands in the other, whole.
abbrev pub Contains : Text → Text → Type 0
Contains whole part = (before : Text) × (after : Text) × (whole ≡ before ++ (part ++ after))

Contains-self : (part : Text) → Contains part part
Contains-self part = ([], [], sym (append-nil part))

pub Contains-append : (whole part more : Text) → Contains whole part → Contains (whole ++ more) part
Contains-append whole part more (before, after, e) =
    (before, after ++ more, rw e (simp append_assoc))

pub finalize_details-Contains :
    (limit : ℕ) (note : Text → Text) (details : Text)
    → Contains (finalize_details limit note Details.failure details) details
unfolding finalize_details inline_body
finalize_details-Contains limit note details = elim (Bool-cases (leb (length details) limit)) [
  | inl e ↦ rw (finalize_details, route_log, e) (Contains-self details)
  | inr e ↦
      rw (finalize_details, route_log, e)
        (
          note details ++ 10 ∷ [],
          [],
          rw (append-nil details) (sym (append_assoc (note details) (10 ∷ []) details)),
        )
]

separated-Contains :
    (details part : Text) → Contains details part → Contains (separated details) part
unfolding separated
separated-Contains [] part h = h
separated-Contains (c ∷ details) part h = Contains-append (c ∷ details) part (10 ∷ []) h

pub append_attempt_history-Contains :
    (details part : Text) (attempts : List AttemptObservation)
    → Contains details part
    → Contains (append_attempt_history details attempts) part
unfolding append_attempt_history
append_attempt_history-Contains details part attempts h =
    elim (Bool-cases (ltb (length attempts) 2)) [
      | inl e ↦ rw e h
      | inr e ↦
          rw e (Contains-append (separated details) part _ (separated-Contains details part h))
    ]
