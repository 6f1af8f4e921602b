-- ===== src/Scheduler/Execute/Answers.antt =====
-- The results of the tests that are reported from the state or run alone.
use quokka.Prelude.{
  Text, text_eq, text_eq_iff, text_eq_refl, Option, none, some, ℕ, Bool-cases, ◌≡◌, refl, sym, ap,
  inl, inr, List, [], ◌∷◌, ◌++◌, map, Perm, filter, All, lookup, remove, nat_key, text_key,
}
use mathlib.Core.List.Perm
use mathlib.Core.List.{map-append}
use quokka.Prelude.{All-append}
use quokka.Scheduler.Best.Laws.{IsIncomplete}
use quokka.Batching.{TestSelection, explicit}
use quokka.Scheduler.Verdict.{
  FinishedTest, missing_terminal_result, disposition_of, report_disposition, failure,
}
use quokka.Scheduler.Plan.{TargetPlan}
use quokka.Scheduler.Best.{BestObs, into_outcome}
use quokka.Scheduler.Request.{Session, identity_of}
use quokka.Scheduler.Action.{ActionState}
use quokka.Scheduler.Attempts.{End, reported, exhausted, run_attempts, still_failing}
use quokka.Scheduler.Attempts.Totality.{run_attempts_total}
use quokka.Scheduler.Attempts.Invariant.{run_attempts-Good, LacksResult, absorb-LacksResult}
use quokka.Scheduler.Execute.{
  make_finished, finish_name, finish_names, run_isolated, run_all_isolated, entry, end_progress,
  best_or_missing,
}

-- The test that a result is for.
abbrev pub name_of : FinishedTest → Text
name_of f = f.test_id.name

-- A result for this test is reported as missing.
abbrev pub IsMissing : Text → FinishedTest → Type 0
IsMissing name f = name_of f ≡ name → f.integrity ≡ missing_terminal_result

best_or_missing-IsIncomplete :
    (b : Option BestObs) → IsIncomplete b → (best_or_missing b).integrity ≡ missing_terminal_result
unfolding best_or_missing
best_or_missing-IsIncomplete none h = absurd h
best_or_missing-IsIncomplete (some b) h = h

lookup-entry : {A : Type 0} → (name : Text) (o : Option A) → lookup name (entry name o) ≡ o
unfolding entry lookup
lookup-entry name none = refl
lookup-entry name (some a) = rw (text_eq_refl name)

pub failure_of_missing :
    (name : Text) (fs : List FinishedTest)
    → All (IsMissing name) fs
    → All (λ f. disposition_of f ≡ failure) (filter (λ f. text_eq (name_of f) name) fs)
unfolding report_disposition
failure_of_missing name [] h = tt
failure_of_missing name (f ∷ fs) h = elim (Bool-cases (text_eq (name_of f) name)) [
  | inl e ↦
      rw e (rw (h.0 ((text_eq_iff (name_of f) name).0 e)) refl, failure_of_missing name fs h.1)
  | inr e ↦ rw e (failure_of_missing name fs h.1)
]

-- The results `fs` are one for each name, and missing where the state lacks a result.
abbrev pub Answers : List FinishedTest → List Text → ActionState → Type 0
Answers fs names st =
    Perm (map name_of fs) names × ((name : Text) → LacksResult name st → All (IsMissing name) fs)

pub Answers-append :
    (fs gs : List FinishedTest) (ns ms : List Text) (st : ActionState)
    → Answers fs ns st
    → Answers gs ms st
    → Answers (fs ++ gs) (ns ++ ms) st
Answers-append fs gs ns ms st f g = (
  rw (map-append name_of fs gs)
      (Perm.trans (Perm.append_right (map name_of gs) f.0) (Perm.append_left ns g.0)),
  λ name h. All-append (IsMissing name) fs gs (f.1 name h) (g.1 name h),
)

abbrev pub EndKeeps : ActionState → List Text → End → Type 0
EndKeeps prior expected (reported p) =
    (name : Text) → LacksResult name prior → LacksResult name p.state
EndKeeps prior expected (exhausted p failing) =
    ((name : Text) → LacksResult name prior → LacksResult name p.state)
    × (failing ≡ still_failing p.state expected)

abbrev pub Completes : Option (List FinishedTest × ℕ) → List Text → ActionState → Type 0
Completes r names st = (fs : List FinishedTest) × (n : ℕ) × (r ≡ some (fs, n)) × Answers fs names st

module _ (s : Session) (cas_note : Text → Text) (plan : TargetPlan) (repeat_index : ℕ) where
  finish_names-names :
      (ns : List Text) (st : ActionState)
      → map name_of (finish_names s cas_note plan repeat_index ns st).0 ≡ ns
  unfolding finish_names finish_name make_finished identity_of into_outcome
  finish_names-names [] st = refl
  finish_names-names (n ∷ ns) st =
      ap (λ r. n ∷ r) (finish_names-names ns (finish_name s cas_note plan repeat_index n st).1)

  finish_names-IsMissing :
      (name : Text) (ns : List Text) (st : ActionState)
      → LacksResult name st
      → All (IsMissing name) (finish_names s cas_note plan repeat_index ns st).0
        × LacksResult name (finish_names s cas_note plan repeat_index ns st).1
  unfolding finish_names finish_name make_finished identity_of into_outcome
  finish_names-IsMissing name [] st h = (tt, h)
  finish_names-IsMissing name (n ∷ ns) st h =
      let (rest, kept) =
        finish_names-IsMissing name ns (finish_name s cas_note plan repeat_index n st).1 h in
      (((λ e. best_or_missing-IsIncomplete (lookup n st.best) (rw (sym e) at h)), rest), kept)

  pub finish_names-Answers :
      (ns : List Text) (st : ActionState)
      → Answers (finish_names s cas_note plan repeat_index ns st).0 ns st
  finish_names-Answers ns st =
      (rw (finish_names-names ns st) Perm.rfl, λ name h. (finish_names-IsMissing name ns st h).0)

  pub run_attempts-keeps :
      (selection : TestSelection Text) (expected : List Text) (first calls : ℕ)
      (prior : ActionState) (e : End)
      → run_attempts s plan selection expected repeat_index first prior calls ≡ some e
      → EndKeeps prior expected e
  run_attempts-keeps selection expected first calls prior (reported p) runs =
      run_attempts-Good s plan selection expected repeat_index first
        (λ st. (name : Text) → LacksResult name prior → LacksResult name st)
        (λ pending g st h name l. absorb-LacksResult name plan expected pending g st (h name l))
        prior calls (reported p) (λ name l. l) runs
  run_attempts-keeps selection expected first calls prior (exhausted p failing) runs =
      run_attempts-Good s plan selection expected repeat_index first
        (λ st. (name : Text) → LacksResult name prior → LacksResult name st)
        (λ pending g st h name l. absorb-LacksResult name plan expected pending g st (h name l))
        prior calls (exhausted p failing) (λ name l. l) runs

  keeps-progress :
      (prior : ActionState) (expected : List Text) (e : End)
      → EndKeeps prior expected e
      → (name : Text) → LacksResult name prior
      → LacksResult name (end_progress e).state
  unfolding end_progress
  keeps-progress prior expected (reported p) h = h
  keeps-progress prior expected (exhausted p failing) h = h.0

  -- A run of the isolated `names`, which leaves what it knows of the others.
  run_isolated_lem :
      (first : ℕ) (name : Text) (st : ActionState) (calls : ℕ)
      → (fs : List FinishedTest) × (st' : ActionState) × (n : ℕ) × (run_isolated s cas_note plan
            repeat_index first name st calls
          ≡ some (fs, st', n))
        × (st'.best ≡ st.best)
        × Answers fs (name ∷ []) st
  unfolding run_isolated finish_names finish_name make_finished identity_of into_outcome
  run_isolated_lem first name st calls =
      let prior : ActionState = record {
        best = entry name (lookup name st.best);
        attempts = entry name (lookup name st.attempts);
        attempt_history = entry name (lookup name st.attempt_history);
      } in
      let (e, runs) =
        run_attempts_total s plan (explicit (name ∷ [])) (name ∷ []) repeat_index first prior
          calls in
      let kept =
        keeps-progress prior (name ∷ []) e
          (run_attempts-keeps (explicit (name ∷ [])) (name ∷ []) first calls prior e runs) name in
      (
        (finish_names s cas_note plan repeat_index (name ∷ []) (end_progress e).state).0,
        record st {
          attempts = remove name st.attempts;
          attempt_history = remove name st.attempt_history;
        },
        (end_progress e).calls,
        rw (run_isolated, runs) refl,
        refl,
        (
          Perm.rfl,
          λ other h. (
            (λ same.
                best_or_missing-IsIncomplete (lookup name (end_progress e).state.best)
                  (kept (rw (lookup-entry name (lookup name st.best)) (rw (sym same) at h)))),
            tt,
          ),
        ),
      )

  pub run_all_isolated_lem :
      (first : ℕ) (names : List Text) (st : ActionState) (calls : ℕ)
      → Completes (run_all_isolated s cas_note plan repeat_index first names st calls) names st
  unfolding run_all_isolated
  run_all_isolated_lem first [] st calls = ([], calls, refl, (Perm.rfl, λ name h. tt))
  run_all_isolated_lem first (name ∷ names) st calls =
      let (fs, st', n, runs, same, here) = run_isolated_lem first name st calls in
      let (gs, m, runs', there) = run_all_isolated_lem first names st' n in
      let there' : Answers gs names st = (there.0, λ k h. there.1 k (rw same h)) in
      (
        fs ++ gs,
        m,
        rw (run_all_isolated, runs, runs') refl,
        Answers-append fs gs (name ∷ []) names st here there',
      )

  pub finish_names-best :
      (ns : List Text) (st : ActionState)
      → (finish_names s cas_note plan repeat_index ns st).1.best ≡ st.best
  unfolding finish_names finish_name
  finish_names-best [] st = refl
  finish_names-best (n ∷ ns) st =
      finish_names-best ns (finish_name s cas_note plan repeat_index n st).1
