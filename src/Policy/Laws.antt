-- ===== src/Policy/Laws.antt =====
-- What src/policy.rs promises of the policies.
use quokka.Prelude.{
  Text, text, ◌&&◌, ◌||◌, ℕ, ◌≤◌, ltb, ◌≡◌, refl, List, [], ◌∷◌, arith, any, nat_key, text_key,
}
use quokka.Labels.{label_suffix, has_suffix}
use quokka.Policy.{new, is_retryable, retry_policy}

any-or_suffix :
    (labels : List Text)
    → any (λ l. is_retryable (label_suffix l)) labels
      ≡ (has_suffix (text "flaky") labels || has_suffix (text "retry") labels)
unfolding is_retryable
any-or_suffix [] = refl
any-or_suffix (l ∷ ls) = ground (arith, any-or_suffix ls)

-- The labels alone allow more than one attempt exactly when one of them says `flaky` or `retry` and
-- more than one attempt is configured for those, and they always allow at least one.
pub retry_policy_lem :
    (labels : List Text) (flaky_attempts : ℕ)
    → (1 ≤ (retry_policy labels flaky_attempts).max_attempts)
      × (ltb 1 (retry_policy labels flaky_attempts).max_attempts ≡ (
          (has_suffix (text "flaky") labels || has_suffix (text "retry") labels)
          && ltb 1 flaky_attempts))
unfolding retry_policy new
retry_policy_lem labels flaky_attempts = ground (arith, any-or_suffix labels)
