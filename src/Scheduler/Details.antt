-- ===== src/Scheduler/Details.antt =====
-- src/scheduler.rs: the text that goes with a result: its streams, its size limits, the history of
-- its attempts and the routing note of a failure.
pub mod Laws
use quokka.Prelude.{
  Text, text, text_eq, text_eq_iff, text_eq_refl, strip_prefix, split_once, show_nat, Bool, true,
  false, not, ◌&&◌, ◌||◌, Option, none, some, ℕ, zero, suc, ◌+◌, ◌-◌, ◌*◌, ◌/◌, ◌%◌, ◌^◌, ◌≤◌, ◌<◌,
  max, min, ltb, leb, ◌==◌, if◌then◌else◌, ==_iff, Bool-cases, Option-cases, ◌≡◌, refl, sym, ap,
  ◌∙◌, ◌≢◌, ◌↔◌, ◌⊎◌, inl, inr, List, [], ◌∷◌, ◌++◌, map, Perm, arith, length, get_elem?, take,
  drop, replicate, any, filter, is_empty, All, flatten, Result, ok, err, ◌>>=◌, Key, Map, lookup,
  insert, remove, lookup-insert, lookup-insert_self, lookup-insert_ne, nat_key, text_key,
}
use quokka.Std.{from_utf8_lossy, trim_end, lines, join, take_chars, floor_char_boundary}
use quokka.Outcome.{TestVerdict, FailureClass, is_failure, inline, upload_to_cas, route_log}
use quokka.Policy.{Owner, unowned, team}
use quokka.DurationDb.{FlakeRecord}
use quokka.Scheduler.Verdict.{AttemptDuration, measured, unmeasured, AttemptObservation}
use quokka.Scheduler.Plan.{TargetPlan}

abbrev newline : ℕ
newline = 10

-- A new line, unless nothing stands before it.
separated : Text → Text
separated [] = []
separated (c ∷ details) = (c ∷ details) ++ newline ∷ []

with_stream : Text → Text → Text → Text
unfolding separated
with_stream details label output =
    if is_empty output
    then details
    else separated details ++ (text "---- " ++ (label ++ (text " ----" ++ (newline ∷ output))))

unfoldable pub details_with_streams : Text → Text → Text → Text
unfolding with_stream
details_with_streams details stdout stderr =
    with_stream (with_stream details (text "stdout") (trim_end (from_utf8_lossy stdout)))
      (text "stderr") (trim_end (from_utf8_lossy stderr))

pub data DetailKind : Type 0 where
  failure passing : DetailKind

unfoldable pub kind_of : TestVerdict → DetailKind
unfolding is_failure
kind_of status = if is_failure status then failure else passing

abbrev head_bytes : ℕ
head_bytes = 4096

-- `…`, in UTF-8.
abbrev ellipsis : Text
ellipsis = 0xE2 ∷ 0x80 ∷ 0xA6 ∷ []

truncate : Text → Text
truncate details =
    if leb (length details) head_bytes
    then details
    else take (floor_char_boundary details head_bytes) details
      ++ (newline ∷ (ellipsis ++ text "[truncated, full log in CAS]"))

unfoldable pub inline_body : DetailKind → Text → Text
unfolding truncate
inline_body failure details = details
inline_body passing details = truncate details

-- `finalize_details`; `cas_note` is the line that the upload, done or failed, leaves.
unfoldable pub finalize_details : ℕ → (Text → Text) → DetailKind → Text → Text
unfolding inline_body route_log
finalize_details cas_inline_limit cas_note kind details =
    elim (route_log (length details) cas_inline_limit) [
      | inline ↦ details
      | upload_to_cas ↦ cas_note details ++ (newline ∷ inline_body kind details)
    ]

show_verdict : TestVerdict → Text
show_verdict TestVerdict.pass = text "Pass"
show_verdict TestVerdict.fail = text "Fail"
show_verdict TestVerdict.skip = text "Skip"
show_verdict TestVerdict.omitted = text "Omitted"
show_verdict TestVerdict.fatal = text "Fatal"
show_verdict TestVerdict.timeout = text "Timeout"
show_verdict TestVerdict.infra_failure = text "InfraFailure"

show_class : FailureClass → Text
show_class FailureClass.fail = text "Fail"
show_class FailureClass.fatal = text "Fatal"
show_class FailureClass.timeout = text "Timeout"
show_class FailureClass.infra = text "Infra"

show_duration : AttemptDuration → Text
show_duration (measured d) = text " duration_ms=" ++ show_nat (d / 1_000_000)
show_duration unmeasured = text " duration=unmeasured"

first_line : List Text → Text
first_line [] = []
first_line (l ∷ ls) = l

attempt_details : Text → Text
attempt_details [] = []
attempt_details (c ∷ line) = text " details=" ++ take_chars 500 (c ∷ line)

attempt_lines : ℕ → List AttemptObservation → Text
unfolding show_verdict show_duration first_line attempt_details lines
attempt_lines index [] = []
attempt_lines index (a ∷ attempts) =
    (newline ∷ text "attempt ")
    ++ (show_nat (index + 1)
        ++ (text ": "
            ++ (show_verdict a.status
                ++ (show_duration a.duration
                    ++ (attempt_details (first_line (lines a.details))
                        ++ attempt_lines (index + 1) attempts)))))

unfoldable pub append_attempt_history : Text → List AttemptObservation → Text
unfolding attempt_lines separated
append_attempt_history details attempts =
    if ltb (length attempts) 2
    then details
    else separated details ++ (text "quokka attempt history:" ++ attempt_lines 0 attempts)

platform_part : Option Text → List Text
platform_part none = []
platform_part (some p) = (text "target_platform=" ++ p) ∷ []

owner_part : Owner → List Text
owner_part unowned = []
owner_part (team t) = (text "owner=" ++ t) ∷ []

contacts_part : List Text → List Text
contacts_part [] = []
contacts_part (c ∷ cs) = (text "contacts=[" ++ (join (text ",") (c ∷ cs) ++ text "]")) ∷ []

oncall_part : Option Text → List Text
oncall_part none = []
oncall_part (some o) = (text "oncall=" ++ o) ∷ []

last_class : Option FailureClass → Text
unfolding show_class
last_class none = []
last_class (some class) = text ", last=" ++ show_class class

flake_part : Option FlakeRecord → List Text
unfolding last_class
flake_part none = []
flake_part (some r) =
    if ltb 0 r.runs
    then (text "flaky_history: failed "
        ++ (show_nat r.failures
            ++ (text "/"
                ++ (show_nat r.runs ++ (text " recent runs" ++ last_class r.last_failure_class)))))
      ∷ []
    else []

unfoldable pub failure_annotation : TargetPlan → Option FlakeRecord → Text
unfolding platform_part owner_part contacts_part oncall_part flake_part join
failure_annotation plan history =
    let parts =
      (text "target=" ++ plan.spec.display)
      ∷ (platform_part plan.spec.target_platform
          ++ (owner_part plan.owner
              ++ (contacts_part plan.spec.contacts
                  ++ (oncall_part plan.spec.oncall ++ flake_part history)))) in
    text "[brtr: " ++ (join (text " | ") parts ++ text "]")
