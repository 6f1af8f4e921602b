-- ===== src/Caching.antt =====
-- src/caching.rs: whether an execution may be served from the cache.
use quokka.Prelude.{
  Text, text, text_eq, Bool, true, false, not, ◌||◌, ℕ, ltb, if◌then◌else◌, List, [], ◌∷◌, any,
  nat_key, text_key,
}
use quokka.Labels.{label_suffix}

pub data CacheClass : Type 0 where
  cacheable disabled : CacheClass

pub data TestExecutionCaching : Type 0 where
  enabled disabled : TestExecutionCaching

disable_flag : TestExecutionCaching → Bool
disable_flag enabled = false
disable_flag disabled = true

unfoldable pub resolve : CacheClass → Bool → Bool → ℕ → TestExecutionCaching
resolve disabled is_default_variant is_stress attempt_index = TestExecutionCaching.disabled
resolve cacheable is_default_variant is_stress attempt_index =
    if not is_default_variant || is_stress || ltb 0 attempt_index
    then TestExecutionCaching.disabled
    else enabled

disabling : List Text
disabling =
    text "cache_disabled"
    ∷ text "uses_network"
    ∷ text "uses_wall_clock"
    ∷ text "uses_randomness_without_seed"
    ∷ text "requires_external_service"
    ∷ text "serial_global_state"
    ∷ text "stress"
    ∷ text "network-private"
    ∷ []

unfoldable pub cache_class : List Text → CacheClass
unfolding disabling
cache_class labels =
    if any (λ l. any (text_eq (label_suffix l)) disabling) labels
    then CacheClass.disabled
    else cacheable
