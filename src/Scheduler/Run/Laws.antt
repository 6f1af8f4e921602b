-- ===== src/Scheduler/Run/Laws.antt =====
-- What the exit code of a session says of its targets.
use quokka.Prelude.{
  Text, text, Bool, true, false, ◌||◌, Option, none, some, ℕ, ◌≡◌, refl, sym, ap, ◌∙◌, ◌⊎◌, inl,
  inr, List, [], ◌∷◌, ◌++◌, map, Perm, arith, take, any, Result, ok, err, nat_key, text_key,
}
use mathlib.Core.List.Perm
use mathlib.Core.List.{foldr}
use mathlib.Core.Bool.{Bool-set}
use quokka.Batching.Buckets.{IsUsable}
use quokka.Execution.Command.{ExecuteRequest2}
use quokka.Outcome.{TestVerdict}
use quokka.Variant.{count, once}
use quokka.Spec.{TargetSpec, ExternalRunnerSpec, SpecError, from_proto}
use quokka.Config.{RunnerConfig}
use quokka.Translator.{Translator, TestCase}
use quokka.Scheduler.Plan.{TargetPlan, derive}
use quokka.Scheduler.Plan.Laws.{derive-IsDerived}
use quokka.Scheduler.Batches.Usable.{chosen_mode-IsUsable}
use quokka.Scheduler.Request.{Session, RpcAnswer}
use quokka.Scheduler.Shard.{shard_filter}
use quokka.Scheduler.Listing.{listed, tests_of_target}
use quokka.Scheduler.Target.{Event, report_target_failure_for_spec}
use quokka.Scheduler.Target.Laws.{messages, times}
use quokka.Scheduler.Target.Complete.{
  sent_names, blocked, blocked-append, report_target_failure_for_spec-blocked,
  run_per_test_target_lem,
}
use quokka.Scheduler.Run.{after_panic, with_plan, with_spec, run_target}

module _ {A : Type 0} (p : A → Bool) where
  any-foldr : (xs : List A) → any p xs ≡ foldr (λ x b. p x || b) false xs
  any-foldr [] = refl
  any-foldr (x ∷ xs) = ap (λ b. p x || b) (any-foldr xs)

  swap_or : (a b : A) (c : Bool) → (p a || (p b || c)) ≡ (p b || (p a || c))
  swap_or a b c = ground arith

  pub any-perm : {xs ys : List A} → Perm xs ys → any p xs ≡ any p ys
  any-perm {xs} {ys} q =
      any-foldr xs ∙ Perm.foldr-eq Bool-set (λ x b. p x || b) swap_or q false ∙ sym (any-foldr ys)

take-blocked :
    (n : ℕ) (events failure : List Event)
    → blocked failure ≡ true
    → blocked (take n events ++ failure) ≡ true
take-blocked n events failure h = ground (arith, blocked-append (take n events) failure)

module _ (s : Session) (cas_note : Text → Text) (resolve : Text → RunnerConfig → Option Translator)
    (panicked : ℕ → Bool) (supervisor : Text) (list : ℕ → ExecuteRequest2 → RpcAnswer) where
  -- A target that was run: its spec was parsed, its policies derived and its tests listed, and,
  -- unless the run only lists, each test that the shard keeps has its result as often as the target
  -- is repeated.
  pub record IsAnswered (proto : ExternalRunnerSpec) (events : List Event) : Type 0 where
    pub target : TargetSpec
    pub plan : TargetPlan
    pub tests : List TestCase
    pub parsed : from_proto proto ≡ ok target
    pub derived : derive resolve target s.config ≡ ok plan
    pub found : tests_of_target supervisor list s.config plan ≡ listed tests
    pub results :
        (s.config.libtest_list_only ≡ true)
        ⊎ Perm (sent_names events) (
            times
              (count plan.repeat)
              (map (λ t. t.name) (shard_filter plan.spec.display tests s.config)))

  -- The events of the targets of a session, one target after the other.
  pub data AreAnswered : List ExternalRunnerSpec → List Event → Type 0 where
    no_target : AreAnswered [] []
    target :
        (proto : ExternalRunnerSpec) (protos : List ExternalRunnerSpec) (events rest : List Event)
        → IsAnswered proto events
        → AreAnswered protos rest
        → AreAnswered (proto ∷ protos) (events ++ rest)

  abbrev pub Ends : ExternalRunnerSpec → Option (List Event × ℕ) → Type 0
  Ends proto r =
      (events : List Event) × (calls : ℕ) × (r ≡ some (events, calls))
      × ((blocked events ≡ true) ⊎ IsAnswered proto events)

  module _ (proto : ExternalRunnerSpec) (calls : ℕ) (usable : IsUsable s.config.batch_mode) where
    with_plan_lem :
        (panic : Option (ℕ × Text)) (t : TargetSpec) (r : Result Text TargetPlan)
        → from_proto proto ≡ ok t
        → derive resolve t s.config ≡ r
        → Ends proto (with_plan s cas_note resolve panicked supervisor list t panic calls r)
    unfolding with_plan after_panic
    with_plan_lem panic t (err reason) parsed e = (
      _,
      calls,
      refl,
      inl (report_target_failure_for_spec-blocked s cas_note t false once TestVerdict.fatal reason),
    )
    with_plan_lem none t (ok plan) parsed e =
        let derived = derive-IsDerived resolve t s.config plan e in
        let fit =
          chosen_mode-IsUsable s.config usable plan.translator.parser_capability plan.batch_mode
            derived.usable in
        let (events, calls', runs, answers) =
          run_per_test_target_lem s cas_note panicked plan supervisor list calls fit in
        (
          events,
          calls',
          runs,
          elim answers [
            | inl fails ↦ inl fails
            | inr found ↦ elim found.2 [
              | inl fails ↦ inl fails
              | inr results ↦ inr (record {
                target = t;
                plan = plan;
                tests = found.0;
                parsed = parsed;
                derived = e;
                found = found.1;
                results = results;
              })
            ]
          ],
        )
    with_plan_lem (some (done, payload)) t (ok plan) parsed e =
        let derived = derive-IsDerived resolve t s.config plan e in
        let fit =
          chosen_mode-IsUsable s.config usable plan.translator.parser_capability plan.batch_mode
            derived.usable in
        let (events, calls', runs, answers) =
          run_per_test_target_lem s cas_note panicked plan supervisor list calls fit in
        let details = text "target " ++ (plan.spec.display ++ (text " panicked: " ++ payload)) in
        let failure =
          report_target_failure_for_spec s cas_note plan.spec false plan.repeat TestVerdict.fatal
            details in
        (
          take done events ++ failure,
          calls',
          rw (runs, after_panic) refl,
          inl (
              take-blocked done events failure (
                report_target_failure_for_spec-blocked s cas_note plan.spec false plan.repeat
                  TestVerdict.fatal details)),
        )

    with_spec_lem :
        (panic : Option (ℕ × Text)) (r : Result SpecError TargetSpec)
        → from_proto proto ≡ r
        → Ends proto (with_spec s cas_note resolve panicked supervisor list proto panic calls r)
    unfolding with_spec messages
    with_spec_lem panic (err e) h = (_, calls, refl, inl refl)
    with_spec_lem panic (ok t) h = with_plan_lem panic t (derive resolve t s.config) h refl

    -- Whatever happens to it, a target comes to its end, and either it sends a message that alone
    -- fails the run, or it is answered.
    pub run_target_lem :
        (panic : Option (ℕ × Text))
        → Ends proto (run_target s cas_note resolve panicked supervisor list proto panic calls)
    unfolding run_target
    run_target_lem panic = with_spec_lem panic (from_proto proto) refl
