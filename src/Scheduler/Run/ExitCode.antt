-- ===== src/Scheduler/Run/ExitCode.antt =====
-- The exit code of a session and its targets.
use quokka.Prelude.{
  Text, Bool, true, false, not, ◌&&◌, ◌||◌, Option, none, some, ℕ, suc, if◌then◌else◌, ◌≡◌, refl,
  sym, ap, ◌∙◌, ◌⊎◌, inl, inr, List, [], ◌∷◌, ◌++◌, Perm, arith, any, nat_key, text_key,
}
use quokka.Batching.Buckets.{IsUsable}
use quokka.Execution.Command.{ExecuteRequest2}
use quokka.Spec.{ExternalRunnerSpec}
use quokka.Config.{RunnerConfig}
use quokka.Translator.{Translator}
use quokka.DurationDb.{DurationDb}
use quokka.Scheduler.Verdict.{RunVerdict, pass, fail, exit_code, ReporterMessage}
use quokka.Scheduler.Request.{Session, RpcAnswer}
use quokka.Scheduler.Reporter.{reporter_task}
use quokka.Scheduler.Reporter.Laws.{blocks}
use quokka.Scheduler.Reporter.Verdicts.{exit_code-reporter_task}
use quokka.Scheduler.Target.{Event}
use quokka.Scheduler.Target.Laws.{messages}
use quokka.Scheduler.Target.Complete.{blocked, blocked-append, any-append, if_false}
use quokka.Scheduler.Run.{
  SpecEnvelope, received, missing_cgroup_override_targets, add_events, then_targets, run_targets,
  drops, all_messages, final_verdict, code_of, or_usage_error, run,
}
use quokka.Scheduler.Run.Laws.{AreAnswered, no_target, target, run_target_lem, any-perm}

zero_of : (bad : Bool) (v : RunVerdict) → exit_code (if bad then fail else v) ≡ 0 → exit_code v ≡ 0
unfolding exit_code
zero_of true v h = absurd (omega arith)
zero_of false v h = h

abbrev code_if : Bool → ℕ
code_if ok_ = if ok_ then 0 else 32

zero_only : (b c : Bool) → code_if (not b && c) ≡ 0 → b ≡ false
zero_only b c h = ground arith

code_cases :
    (help : Bool) (usage_error : Option Text) (code : Option ℕ) (v : RunVerdict)
    → code ≡ some (exit_code v)
    → ((if help then some 0 else or_usage_error usage_error code) ≡ some 0)
      ⊎ ((if help then some 0 else or_usage_error usage_error code) ≡ some 32)
unfolding exit_code or_usage_error
code_cases true o code v h = inl refl
code_cases false (some e) code v h = inr refl
code_cases false none code pass h = inl h
code_cases false none code fail h = inr h

some-same : {m n : ℕ} → some m ≡ some n → m ≡ n
some-same h = cc

or_false : (b c : Bool) → (b || c) ≡ false → (b ≡ false) × (c ≡ false)
or_false b c h = (ground arith, ground arith)

module _ (s : Session) (cas_note : Text → Text) (resolve : Text → RunnerConfig → Option Translator)
    (panicked : ℕ → Bool) (supervisor : Text) (list : ℕ → ExecuteRequest2 → RpcAnswer) where
  abbrev Answered : List ExternalRunnerSpec → List Event → Type 0
  Answered = AreAnswered s cas_note resolve panicked supervisor list

  -- The targets of a session all end.
  abbrev AllEnd : List ExternalRunnerSpec → Option (List Event) → Type 0
  AllEnd protos r =
      (events : List Event) × (r ≡ some events) × ((blocked events ≡ true) ⊎ Answered protos events)

  run_targets_lem :
      (panics : ℕ → Option (ℕ × Text)) (protos : List ExternalRunnerSpec) (i calls : ℕ)
      → IsUsable s.config.batch_mode
      → AllEnd protos
          (run_targets s cas_note resolve panicked supervisor list panics protos i calls)
  unfolding run_targets then_targets add_events
  run_targets_lem panics [] i calls usable = ([], refl, inr no_target)
  run_targets_lem panics (proto ∷ protos) i calls usable =
      let (events, calls', runs, mine) =
        run_target_lem s cas_note resolve panicked supervisor list proto calls usable (panics i) in
      let (rest, ends, others) = run_targets_lem panics protos (suc i) calls' usable in
      (
        events ++ rest,
        rw (runs, then_targets, ends, add_events) refl,
        elim mine [
          | inl fails ↦ inl (ground (arith, blocked-append events rest))
          | inr answered ↦ elim others [
            | inl fails ↦ inl (ground (arith, blocked-append events rest))
            | inr all_answered ↦ inr (target proto protos events rest answered all_answered)
          ]
        ],
      )

  drops-nil : (targets : List Text) → any blocks (drops targets) ≡ false → targets ≡ []
  unfolding drops
  drops-nil [] h = refl
  drops-nil (t ∷ targets) h = absurd cc

  module _ (delivered : ℕ → Bool) (now : ℕ → ℕ)
      (arrival : List ReporterMessage → List ReporterMessage)
      (arrives : (ms : List ReporterMessage) → Perm (arrival ms) ms) (db : DurationDb)
      (panics : ℕ → Option (ℕ × Text)) (task_panicked reporter_lost : Bool) where
    abbrev verdict : List ReporterMessage → RunVerdict
    verdict =
        final_verdict s cas_note resolve panicked supervisor list delivered now arrival db panics
          task_panicked reporter_lost

    abbrev sent_messages : List ExternalRunnerSpec → List Event → List ReporterMessage
    sent_messages =
        all_messages s cas_note resolve panicked supervisor list delivered now arrival db panics
          task_panicked reporter_lost

    abbrev session : List SpecEnvelope → Option ℕ
    session =
        run s cas_note resolve panicked supervisor list delivered now arrival db panics
          task_panicked reporter_lost

    exit_zero : (ms : List ReporterMessage) → exit_code (verdict ms) ≡ 0 → any blocks ms ≡ false
    unfolding final_verdict
    exit_zero ms h =
        let report = (reporter_task s.hash_key delivered now db (arrival ms)).verdict in
        let code = zero_of (task_panicked || reporter_lost) report h in
        let exact = exit_code-reporter_task s.hash_key delivered now db (arrival ms) in
        sym (any-perm blocks (arrives ms)) ∙ zero_only _ _ (sym exact ∙ code)

    quiet_targets :
        (protos : List ExternalRunnerSpec) (events : List Event)
        → any blocks (sent_messages protos events) ≡ false
        → (blocked events ≡ false) × (missing_cgroup_override_targets s.config protos ≡ [])
    unfolding all_messages
    quiet_targets protos events h =
        let missing = missing_cgroup_override_targets s.config protos in
        let (mine, dropped) =
          or_false _ _ (sym (any-append blocks (messages events) (drops missing)) ∙ h) in
        (mine, drops-nil missing dropped)

    session-code :
        (intake : List SpecEnvelope) (events : List Event)
        → s.config.libtest_help_only ≡ false
        → s.config.libtest_usage_error ≡ none
        → run_targets s cas_note resolve panicked supervisor list panics (received intake) 0 0
          ≡ some events
        → session intake ≡ some (exit_code (verdict (sent_messages (received intake) events)))
    unfolding run code_of or_usage_error
    session-code intake events no_help no_error ends =
        let code =
          code_of s cas_note resolve panicked supervisor list delivered now arrival db panics
            task_panicked reporter_lost (received intake) in
        let targets =
          run_targets s cas_note resolve panicked supervisor list panics (received intake) 0 0 in
        if_false s.config.libtest_help_only (some 0)
          (or_usage_error s.config.libtest_usage_error (code targets)) no_help
        ∙ ap (λ o. or_usage_error o (code targets)) no_error
        ∙ ap code ends

    -- The answer of a green session.
    abbrev pub Green : List ExternalRunnerSpec → Type 0
    Green protos =
        (events : List Event) × (run_targets s cas_note resolve panicked supervisor list panics
            protos 0 0
          ≡ some events)
        × Answered protos events
        × (blocked events ≡ false)
        × (missing_cgroup_override_targets s.config protos ≡ [])

    -- A session that neither prints help nor has a usage error exits with 0 only if every target that
    -- it was given was parsed, planned, listed and, unless the session only lists, answered, with a
    -- result for each test of its shard and each repeat, no message of a target fails the run, and
    -- every target that a memory override names was among them. This holds for any order in which
    -- the messages of the targets arrive, and for any panics.
    pub run-Green :
        (intake : List SpecEnvelope)
        → IsUsable s.config.batch_mode
        → s.config.libtest_help_only ≡ false
        → s.config.libtest_usage_error ≡ none
        → session intake ≡ some 0
        → Green (received intake)
    unfolding run code_of or_usage_error
    run-Green intake usable no_help no_error h =
        let protos = received intake in
        let (events, ends, answered) = run_targets_lem panics protos 0 0 usable in
        let ms = sent_messages protos events in
        let code = some-same (sym (session-code intake events no_help no_error ends) ∙ h) in
        let (quiet, received_all) = quiet_targets protos events (exit_zero ms code) in
        elim answered [
          | inl fails ↦ absurd cc
          | inr all_answered ↦ (events, ends, all_answered, quiet, received_all)
        ]

    -- Every session comes to an end, with exit code 0 or 32.
    pub run_total :
        (intake : List SpecEnvelope)
        → IsUsable s.config.batch_mode
        → (session intake ≡ some 0) ⊎ (session intake ≡ some 32)
    unfolding run code_of
    run_total intake usable =
        let (events, ends, answered) = run_targets_lem panics (received intake) 0 0 usable in
        code_cases s.config.libtest_help_only s.config.libtest_usage_error _ _ (
          ap
            (code_of s cas_note resolve panicked supervisor list delivered now arrival db panics
              task_panicked reporter_lost (received intake))
            ends)
