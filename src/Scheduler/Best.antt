-- ===== src/Scheduler/Best.antt =====
-- src/scheduler.rs, `BestObs` and `merge_best`: the best result of a test over its attempts.
pub mod Laws
use quokka.Prelude.{
  Text, text, text_eq, text_eq_iff, text_eq_refl, strip_prefix, split_once, show_nat, Bool, true,
  false, not, ◌&&◌, ◌||◌, Option, none, some, ℕ, zero, suc, ◌+◌, ◌-◌, ◌*◌, ◌/◌, ◌%◌, ◌^◌, ◌≤◌, ◌<◌,
  max, min, ltb, leb, ◌==◌, if◌then◌else◌, ==_iff, Bool-cases, Option-cases, ◌≡◌, refl, sym, ap,
  ◌∙◌, ◌≢◌, ◌↔◌, ◌⊎◌, inl, inr, List, [], ◌∷◌, ◌++◌, map, Perm, arith, length, get_elem?, take,
  drop, replicate, any, filter, is_empty, All, flatten, Result, ok, err, ◌>>=◌, Key, Map, lookup,
  insert, remove, lookup-insert, lookup-insert_self, lookup-insert_ne, nat_key, text_key,
}
use quokka.Outcome.{TestVerdict, is_failure}
use quokka.Scheduler.Verdict.{
  ResultIntegrity, complete, missing_terminal_result, AttemptDuration, unmeasured, TestOutcome,
}

pub record BestObs : Type 0 where
  pub status : TestVerdict
  pub integrity : ResultIntegrity
  pub details : Text
  pub duration : AttemptDuration
  pub max_memory : Option ℕ

unfoldable pub missing : BestObs
missing = record {
  status = TestVerdict.fatal;
  integrity = missing_terminal_result;
  details = text "test produced no result";
  duration = unmeasured;
  max_memory = none;
}

unfoldable pub into_outcome : BestObs → TestOutcome
into_outcome b = record {
  status = b.status;
  integrity = b.integrity;
  details = b.details;
  duration = b.duration;
  max_memory = b.max_memory;
}

-- Whether the result that stands for a name is kept against a complete `incoming` one.
keeps : Option BestObs → Bool
unfolding is_failure
keeps none = false
keeps (some existing) = elim existing.integrity [
  | missing_terminal_result ↦ true
  | complete ↦ not (is_failure existing.status)
]

unfoldable pub merge_best : Map Text BestObs → Text → BestObs → Map Text BestObs
unfolding keeps
merge_best best name incoming = elim incoming.integrity [
  | missing_terminal_result ↦ insert name incoming best
  | complete ↦ if keeps (lookup name best) then best else insert name incoming best
]
