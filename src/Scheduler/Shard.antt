-- ===== src/Scheduler/Shard.antt =====
-- src/scheduler.rs, `shard_filter`: the tests of a target that this shard of the run owns.
pub mod Laws
use quokka.Prelude.{
  Text, text, text_eq, text_eq_iff, text_eq_refl, strip_prefix, split_once, show_nat, Bool, true,
  false, not, ◌&&◌, ◌||◌, Option, none, some, ℕ, zero, suc, ◌+◌, ◌-◌, ◌*◌, ◌/◌, ◌%◌, ◌^◌, ◌≤◌, ◌<◌,
  max, min, ltb, leb, ◌==◌, if◌then◌else◌, ==_iff, Bool-cases, Option-cases, ◌≡◌, refl, sym, ap,
  ◌∙◌, ◌≢◌, ◌↔◌, ◌⊎◌, inl, inr, List, [], ◌∷◌, ◌++◌, map, Perm, arith, length, get_elem?, take,
  drop, replicate, any, filter, is_empty, All, flatten, Result, ok, err, ◌>>=◌, Key, Map, lookup,
  insert, remove, lookup-insert, lookup-insert_self, lookup-insert_ne, nat_key, text_key,
}
use quokka.Execution.{fnv1a_from, fnv1a_basis}
use quokka.Translator.{TestCase}
use quokka.Config.{RunnerConfig, ShardSpec, is_sharded}

unfoldable pub fnv1a : Text → ℕ
unfolding fnv1a_from
fnv1a bytes = fnv1a_from fnv1a_basis bytes

-- The shard that owns a test; the byte 1 stands between the target and the name.
pub owner_shard : Text → ℕ → TestCase → ℕ
unfolding fnv1a
owner_shard target count t = (fnv1a (target ++ 1 ∷ t.name) % count) % 2 ^ 16

unfoldable pub shard_filter : Text → List TestCase → RunnerConfig → List TestCase
unfolding owner_shard is_sharded
shard_filter target tests config =
    if not (is_sharded config.shard)
    then tests
    else filter (λ t. owner_shard target config.shard.count t == config.shard.index) tests
