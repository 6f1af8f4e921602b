-- ===== src/Policy.antt =====
-- src/policy.rs: the policies that labels give a target.
pub mod Laws
use quokka.Prelude.{
  Text, text, text_eq, text_eq_iff, text_eq_refl, strip_prefix, split_once, show_nat, Bool, true,
  false, not, ◌&&◌, ◌||◌, Option, none, some, ℕ, zero, suc, ◌+◌, ◌-◌, ◌*◌, ◌/◌, ◌%◌, ◌^◌, ◌≤◌, ◌<◌,
  max, min, ltb, leb, ◌==◌, if◌then◌else◌, ==_iff, Bool-cases, Option-cases, ◌≡◌, refl, sym, ap,
  ◌∙◌, ◌≢◌, ◌↔◌, ◌⊎◌, inl, inr, List, [], ◌∷◌, ◌++◌, map, Perm, arith, length, get_elem?, take,
  drop, replicate, any, filter, is_empty, All, flatten, Result, ok, err, ◌>>=◌, Key, Map, lookup,
  insert, remove, lookup-insert, lookup-insert_self, lookup-insert_ne, nat_key, text_key,
}
use quokka.Labels.{label_suffix, has_suffix}

pub data QuarantineStatus : Type 0 where
  active quarantined : QuarantineStatus

pub record RetryPolicy : Type 0 where
  pub max_attempts : ℕ

unfoldable pub new : ℕ → RetryPolicy
new max_attempts = record { max_attempts = max max_attempts 1 }

unfoldable allows_retry : RetryPolicy → Bool
allows_retry p = ltb 1 p.max_attempts

pub data Owner : Type 0 where
  unowned : Owner
  team : Text → Owner

unfoldable pub quarantine_status : List Text → QuarantineStatus
quarantine_status labels =
    if any (λ l. text_eq (label_suffix l) (text "quarantined")) labels then quarantined else active

-- `matches!(suffix, "flaky" | "retry")`
is_retryable : Text → Bool
is_retryable suffix = text_eq suffix (text "flaky") || text_eq suffix (text "retry")

unfoldable pub retry_policy : List Text → ℕ → RetryPolicy
unfolding is_retryable new
retry_policy labels flaky_attempts =
    if any (λ l. is_retryable (label_suffix l)) labels then new flaky_attempts else new 1

owner_of : Option Text → Owner → Owner
owner_of none o = o
owner_of (some t) o = team t

-- `filter_map(…).last().unwrap_or(Unowned)`: the last label that names an owner wins.
owner_from : Owner → List Text → Owner
unfolding owner_of
owner_from o [] = o
owner_from o (l ∷ ls) = owner_from (owner_of (strip_prefix (label_suffix l) (text "owner=")) o) ls

unfoldable pub owner : List Text → Owner
unfolding owner_from
owner labels = owner_from unowned labels
