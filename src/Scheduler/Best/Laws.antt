-- ===== src/Scheduler/Best/Laws.antt =====
-- What stays of a test's results, whatever the later attempts bring.
use quokka.Prelude.{
  Text, text_eq, text_eq_iff, text_eq_refl, Option, none, some, if◌then◌else◌, Bool-cases, ◌≡◌, inl,
  inr, arith, Map, lookup, lookup-insert, nat_key, text_key,
}
use quokka.Outcome.{is_failure}
use quokka.Scheduler.Verdict.{complete, missing_terminal_result}
use quokka.Scheduler.Best.{BestObs, merge_best}

-- The result that stands for a name after a merge into it.
pub better : Option BestObs → BestObs → BestObs
better none incoming = incoming
better (some existing) incoming = elim incoming.integrity [
  | missing_terminal_result ↦ incoming
  | complete ↦ elim existing.integrity [
    | missing_terminal_result ↦ existing
    | complete ↦ if is_failure existing.status then incoming else existing
  ]
]

-- A merge changes the result of its name alone: an incomplete result is taken over anything, an
-- incomplete one that stands stays against a complete one, a complete one that did not fail stays
-- too, and a complete failure gives way.
pub lookup-merge_best :
    (best : Map Text BestObs) (name j : Text) (incoming : BestObs)
    → lookup j (merge_best best name incoming)
      ≡ (if text_eq name j then some (better (lookup name best) incoming) else lookup j best)
unfolding merge_best better is_failure
lookup-merge_best best name j incoming =
    ground (arith, lookup-insert name j incoming best, text_eq_iff name j)

abbrev pub IsIncomplete : Option BestObs → Type 0
IsIncomplete none = ⊥
IsIncomplete (some b) = b.integrity ≡ missing_terminal_result

better-IsIncomplete :
    (o : Option BestObs) (incoming : BestObs)
    → IsIncomplete o
    → (better o incoming).integrity ≡ missing_terminal_result
unfolding better
better-IsIncomplete none incoming h = absurd h
better-IsIncomplete (some b) incoming h = ground arith

-- An incomplete result is absorbing: no merge makes the name's result complete again.
pub merge_best-IsIncomplete :
    (best : Map Text BestObs) (name j : Text) (incoming : BestObs)
    → IsIncomplete (lookup j best)
    → IsIncomplete (lookup j (merge_best best name incoming))
merge_best-IsIncomplete best name j incoming h =
    rw (lookup-merge_best best name j incoming) (elim (Bool-cases (text_eq name j)) [
      | inl e ↦
          rw e (better-IsIncomplete (lookup name best) incoming (rw ((text_eq_iff name j).0 e) h))
      | inr e ↦ rw e h
    ])

better_absorbs :
    (o : Option BestObs) (incoming : BestObs)
    → incoming.integrity ≡ missing_terminal_result
    → (better o incoming).integrity ≡ missing_terminal_result
unfolding better
better_absorbs none incoming h = h
better_absorbs (some b) incoming h = ground arith

-- A merged incomplete result leaves the name's result incomplete, whatever stood for it.
pub merge_best_absorbs :
    (best : Map Text BestObs) (name : Text) (incoming : BestObs)
    → incoming.integrity ≡ missing_terminal_result
    → IsIncomplete (lookup name (merge_best best name incoming))
merge_best_absorbs best name incoming h =
    rw (lookup-merge_best best name name incoming, text_eq_refl name)
      (better_absorbs (lookup name best) incoming h)
