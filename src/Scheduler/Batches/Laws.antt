-- ===== src/Scheduler/Batches/Laws.antt =====
-- The members of the batches of a target (`build_batches`).
use quokka.Prelude.{
  Text, Bool, ◌&&◌, Option, some, ℕ, Bool-cases, ◌≡◌, refl, sym, ap, inl, inr, List, [], ◌∷◌, ◌++◌,
  map, Perm, nat_key, text_key,
}
use quokka.Prelude.{sort, sort_insert}
use mathlib.Core.List.Perm
use mathlib.Core.List.{perm_middle, append-nil, map-append}
use quokka.Outcome.{TestIdentity}
use quokka.Batching.{BatchMode, TestSelection, all, explicit}
use quokka.Batching.Buckets.{IsUsable, members, partition-perm}
use quokka.Translator.{TestCase, DemuxCapability}
use quokka.DurationDb.{DurationDb, weight_ms, p50_ms}
use quokka.Config.{RunnerConfig, is_sharded}
use quokka.Scheduler.Batches.{
  LocalBatchInput, chosen_mode, is_target, name_selection, inputs_of, selections_of, sort_batches,
  build_batches, unseen_weight_ms,
}

module _ {T : Type 0} (tests : List T) where
  abbrev expand : TestSelection T → List T
  expand all = tests
  expand (explicit group) = group

  members-cons :
      (sel : TestSelection T) (sels : List (TestSelection T))
      → members tests (sel ∷ sels) ≡ expand sel ++ members tests sels
  unfolding members
  members-cons all sels = refl
  members-cons (explicit group) sels = refl

  exchange : (xs ys zs : List T) → Perm (xs ++ (ys ++ zs)) (ys ++ (xs ++ zs))
  exchange [] ys zs = Perm.rfl
  exchange (x ∷ xs) ys zs =
      Perm.trans (Perm.cons x (exchange xs ys zs)) (Perm.symm (perm_middle ys (xs ++ zs)))

  members-sort_insert :
      (before : TestSelection T → TestSelection T → Bool) (sel : TestSelection T)
      (sels : List (TestSelection T))
      → Perm (members tests (sort_insert before sel sels)) (expand sel ++ members tests sels)
  unfolding sort_insert
  members-sort_insert before sel [] = rw (members-cons sel []) Perm.rfl
  members-sort_insert before sel (s ∷ sels) = elim (Bool-cases (before sel s)) [
    | inl e ↦ rw (e, members-cons sel (s ∷ sels)) Perm.rfl
    | inr e ↦
        rw (e, members-cons s (sort_insert before sel sels), members-cons s sels)
          (Perm.trans (Perm.append_left (expand s) (members-sort_insert before sel sels))
            (exchange (expand s) (expand sel) (members tests sels)))
  ]

  members-sort :
      (before : TestSelection T → TestSelection T → Bool) (sels : List (TestSelection T))
      → Perm (members tests (sort before sels)) (members tests sels)
  unfolding sort
  members-sort before [] = Perm.rfl
  members-sort before (s ∷ sels) = rw (members-cons s sels) (
      Perm.trans (members-sort_insert before s (sort before sels))
        (Perm.append_left (expand s) (members-sort before sels)))

abbrev name_of : LocalBatchInput → Text
name_of t = t.name

members-name :
    (inputs : List LocalBatchInput) (sels : List (TestSelection LocalBatchInput))
    → members (map name_of inputs) (map name_selection sels) ≡ map name_of (members inputs sels)
unfolding members name_selection
members-name inputs [] = refl
members-name inputs (all ∷ sels) =
    rw (map-append name_of inputs (members inputs sels), members-name inputs sels)
members-name inputs (explicit group ∷ sels) =
    rw (map-append name_of group (members inputs sels), members-name inputs sels)

module _ (hash_key : TestIdentity → ℕ) where
  inputs-name :
      (target : Text) (tests : List TestCase) (config : RunnerConfig) (db : DurationDb)
      → map name_of (inputs_of hash_key target tests config db) ≡ map (λ t. t.name) tests
  unfolding inputs_of
  inputs-name target [] config db = refl
  inputs-name target (t ∷ tests) config db =
      ap (λ ns. t.name ∷ ns) (inputs-name target tests config db)

  selections-perm :
      (config : RunnerConfig) (mode : BatchMode) (inputs : List LocalBatchInput)
      → IsUsable mode
      → (sels : List (TestSelection LocalBatchInput)) × (selections_of hash_key config mode inputs
          ≡ some sels)
        × Perm (members inputs sels) inputs
  unfolding selections_of members
  selections-perm config mode inputs u =
      elim (Bool-cases (is_target mode && is_sharded config.shard)) [
        | inl e ↦ (explicit inputs ∷ [], rw e refl, rw (append-nil inputs) Perm.rfl)
        | inr e ↦
            let (sels, runs, same) =
              partition-perm (λ t. weight_ms t.estimate unseen_weight_ms) (λ t. p50_ms t.estimate 0)
                mode inputs u in
            (sels, rw e runs, same)
      ]

  -- With a usable batch mode (a chunk size of at least one) the batches of a target exist, and run
  -- each of its tests exactly as often as the target lists its name, whatever the mode, the
  -- framework, the shards and the history.
  pub build_batches-perm :
      (target : Text) (tests : List TestCase) (config : RunnerConfig) (db : DurationDb)
      (capability : DemuxCapability) (target_batch_mode : Option BatchMode)
      → IsUsable (chosen_mode config capability target_batch_mode)
      → (batches : List (TestSelection Text)) × (build_batches hash_key target tests config db
            capability target_batch_mode
          ≡ some batches)
        × Perm (members (map (λ t. t.name) tests) batches) (map (λ t. t.name) tests)
  unfolding build_batches sort_batches
  build_batches-perm target tests config db capability target_batch_mode u =
      let mode = chosen_mode config capability target_batch_mode in
      let inputs = inputs_of hash_key target tests config db in
      let (sels, runs, same) = selections-perm config mode inputs u in
      let named = map name_selection sels in
      (
        sort_batches hash_key target tests config db named,
        rw (build_batches, runs) refl,
        Perm.trans (members-sort (map (λ t. t.name) tests) _ named) (
            rw (sym (inputs-name target tests config db), members-name inputs sels)
              (Perm.map name_of same)),
      )
