-- ===== src/Cli/Laws.antt =====
-- src/cli.rs: what the configuration of a parsed command line keeps.
use quokka.Prelude.{
  Text, text, text_eq, Bool, true, false, not, ◌&&◌, Option, none, some, ℕ, zero, suc, ◌≤◌, ◌<◌,
  max, leb, if◌then◌else◌, ◌≡◌, refl, sym, List, [], ◌∷◌, ◌++◌, arith, any, Result, ok, err, ◌>>=◌,
  nat_key, text_key,
}
use quokka.Execution.{CgroupMemoryMaxOverride, parse_override}
use quokka.Variant.{count}
use quokka.Batching.{BatchMode}
use quokka.Batching.Buckets.{IsUsable}
use quokka.Config.{IgnoredPolicy, exclude_ignored, include_ignored, ignored_only, ShardSpec}
use quokka.Translator.Libtest.{ListFormat, text_list, json_list}
use quokka.Scheduler.Target.Complete.{any-append}
use quokka.Cli.Options.{OuterCli, TpxConfig, resolve_transport}
use quokka.Cli.Values.{
  VarError, resolve_ignored, given_policies, resolve_list_format, resolve_run_format,
  resolve_batch_failure_policy, resolve_duration_db, resolve_cgroup_granularity, resolve_memory_max,
  resolve_pairs, env_entry, declared_entry, check_listing, resolve_batch_mode, same_test,
  push_override, resolve_overrides, resolve_shard, resolve_stress,
}
use quokka.Cli.{
  ResolvedConfig, Invocation, Checked, limits_of, check, config_of, resolve_config, parse_argv,
  effective_args, or_parse_error, before_dashes, after_dashes, program_name,
}

-- A run that would list no test: ignored tests alone, from a listing that cannot name them.
abbrev pub vacuous : IgnoredPolicy → ListFormat → Bool
vacuous ignored_only text_list = true
vacuous _ _ = false

-- No two overrides name one test.
unfoldable pub no_repeats : List CgroupMemoryMaxOverride → Bool
unfolding same_test
no_repeats [] = true
no_repeats (o ∷ os) = not (any (λ later. same_test later o) os) && no_repeats os

-- The configuration of a session that its parts can rely on.
pub record IsResolved (c : ResolvedConfig) : Type 0 where
  pub usable : IsUsable c.runner.batch_mode
  pub sharded : c.runner.shard.index < c.runner.shard.count
  pub listable : vacuous c.runner.ignored c.list_format ≡ false
  pub one_override : no_repeats c.runner.cgroup_memory_max_overrides ≡ true
  pub attempts : 1 ≤ c.runner.flaky_attempts
  pub repeats : (1 ≤ count c.runner.stress) × (1 ≤ c.runner.stress_label_reps)
  pub limits :
      (1 ≤ c.limits.max_inflight_listings)
      × (1 ≤ c.limits.max_inflight_test_actions)
      × (1 ≤ c.limits.max_inflight_per_target)

bind-ok :
    {E A B : Type 0} (r : Result E A) (f : A → Result E B) {b : B}
    → (r >>= f) ≡ ok b
    → (a : A) × (r ≡ ok a) × (f a ≡ ok b)
bind-ok (ok a) f h = (a, refl, h)
bind-ok (err e) f h = absurd cc

ok-same : {E A : Type 0} {a b : A} → Path (Result E A) (ok a) (ok b) → a ≡ b
ok-same h = cc

-- What holds of a result holds of the value that it was found to be.
of_ok : {E A : Type 0} (P : A → Type 0) {a b : A} → Path (Result E A) (ok a) (ok b) → P a → P b
of_ok P h p = rw (sym (ok-same h)) p

one_most : (n : ℕ) → 1 ≤ max n 1
one_most n = ground arith

-- One arm of a `match` on the text of an option.
if_ok :
    {E A : Type 0} (P : A → Type 0) (b : Bool) (x : A) (r : Result E A) {a : A}
    → P x
    → (r ≡ ok a → P a)
    → (if b then ok x else r) ≡ ok a
    → P a
if_ok P true x r px rest h = of_ok P h px
if_ok P false x r px rest h = rest h

if_err :
    {E A : Type 0} (b : Bool) (e : E) (x : A) {a : A}
    → (if b then err e else ok x) ≡ ok a
    → (b ≡ false) × (x ≡ a)
if_err true e x h = absurd cc
if_err false e x h = (refl, ok-same h)

resolve_batch_mode-IsUsable :
    (value : Text) (threshold size : ℕ) (mode : BatchMode)
    → resolve_batch_mode value threshold size ≡ ok mode
    → IsUsable mode
unfolding resolve_batch_mode
resolve_batch_mode-IsUsable value threshold size mode h =
    if_ok IsUsable (text_eq value (text "per-test")) _ _ tt
      (if_ok IsUsable (text_eq value (text "duration-bucketed")) _ _ tt (
        if_ok IsUsable (text_eq value (text "fixed-chunk")) _ _ (one_most size)
          (if_ok IsUsable (text_eq value (text "target")) _ _ tt (λ e. absurd cc))))
      h

resolve_shard-sharded :
    (shard found : ShardSpec) → resolve_shard shard ≡ ok found → found.index < found.count
unfolding resolve_shard
resolve_shard-sharded shard found h =
    let (inside, same) = if_err (leb shard.count shard.index) _ shard h in
    rw (sym same) (ground arith)

check_listing-listable :
    (ignored : IgnoredPolicy) (format found : ListFormat)
    → check_listing ignored format ≡ ok found
    → vacuous ignored found ≡ false
unfolding check_listing
check_listing-listable exclude_ignored format found h = refl
check_listing-listable include_ignored format found h = refl
check_listing-listable ignored_only text_list found h = absurd cc
check_listing-listable ignored_only json_list found h =
    of_ok (λ f. vacuous ignored_only f ≡ false) h refl

no_repeats-snoc :
    (os : List CgroupMemoryMaxOverride) (o : CgroupMemoryMaxOverride)
    → no_repeats os ≡ true
    → any (same_test o) os ≡ false
    → no_repeats (os ++ o ∷ []) ≡ true
unfolding no_repeats same_test
no_repeats-snoc [] o h fresh = refl
no_repeats-snoc (p ∷ os) o h fresh =
    let fresh_p = any-append (λ later. same_test later p) os (o ∷ []) in
    ground (arith, no_repeats-snoc os o, fresh_p)

push_override-no_repeats :
    (os : List CgroupMemoryMaxOverride) (raw : Text) (parsed : Option CgroupMemoryMaxOverride)
    (more : List CgroupMemoryMaxOverride)
    → no_repeats os ≡ true
    → push_override os raw parsed ≡ ok more
    → no_repeats more ≡ true
unfolding push_override
push_override-no_repeats os raw none more h e = absurd cc
push_override-no_repeats os raw (some o) more h e =
    let (fresh, same) = if_err (any (same_test o) os) _ (os ++ o ∷ []) e in
    rw (sym same) (no_repeats-snoc os o h fresh)

resolve_overrides-no_repeats :
    (raws : List Text) (os found : List CgroupMemoryMaxOverride)
    → no_repeats os ≡ true
    → resolve_overrides os raws ≡ ok found
    → no_repeats found ≡ true
unfolding resolve_overrides
resolve_overrides-no_repeats [] os found h e = of_ok (λ l. no_repeats l ≡ true) e h
resolve_overrides-no_repeats (raw ∷ raws) os found h e =
    let (more, pushed, rest) = bind-ok (push_override os raw (parse_override raw)) _ e in
    resolve_overrides-no_repeats raws more found
      (push_override-no_repeats os raw (parse_override raw) more h pushed) rest

resolve_stress-count : (n : ℕ) → 1 ≤ count (resolve_stress n)
unfolding resolve_stress count
resolve_stress-count zero = omega arith
resolve_stress-count (suc n) = omega arith

abbrev pub IsChecked : Checked → Type 0
IsChecked c =
    IsUsable c.batch_mode
    × (c.shard.index < c.shard.count)
    × (vacuous c.ignored c.list_format ≡ false)
    × (no_repeats c.overrides ≡ true)

module _ (memory_env : Result VarError Text) where
  check-IsChecked : (tpx : TpxConfig) (c : Checked) → check memory_env tpx ≡ ok c → IsChecked c
  unfolding check no_repeats
  check-IsChecked tpx c h =
      let (ignored, _, h1) =
        bind-ok (resolve_ignored exclude_ignored (given_policies tpx (effective_args tpx))) _ h in
      let (format, _, h2) = bind-ok (resolve_list_format tpx.list_format) _ h1 in
      let (list_format, is_listable, h3) = bind-ok (check_listing ignored format) _ h2 in
      let (_, _, h4) = bind-ok (resolve_run_format tpx.run_format) _ h3 in
      let (mode, is_mode, h5) =
        bind-ok (resolve_batch_mode tpx.batch_mode tpx.batch_threshold_ms tpx.chunk_size) _ h4 in
      let (_, _, h6) = bind-ok (resolve_batch_failure_policy tpx.batch_failure_policy) _ h5 in
      let (_, _, h7) = bind-ok (resolve_duration_db tpx.no_duration_db tpx.duration_db) _ h6 in
      let (_, _, h8) = bind-ok (resolve_cgroup_granularity tpx.cgroup_granularity) _ h7 in
      let (_, _, h9) = bind-ok (resolve_memory_max memory_env) _ h8 in
      let (overrides, are_overrides, h10) =
        bind-ok (resolve_overrides [] tpx.cgroup_memory_max_overrides) _ h9 in
      let (shard, is_shard, h11) =
        bind-ok (resolve_shard (record { index = tpx.shard_index; count = max tpx.shard_count 1 }))
          _ h10 in
      let (_, _, h12) = bind-ok (resolve_pairs env_entry tpx.env) _ h11 in
      let (_, _, h13) = bind-ok (resolve_pairs declared_entry tpx.declared_output_env) _ h12 in
      of_ok IsChecked h13 (
        resolve_batch_mode-IsUsable tpx.batch_mode tpx.batch_threshold_ms tpx.chunk_size mode
            is_mode,
        resolve_shard-sharded _ shard is_shard,
        check_listing-listable ignored format list_format is_listable,
        resolve_overrides-no_repeats tpx.cgroup_memory_max_overrides [] overrides refl
            are_overrides,
      )

  module _ (flaky_retry : Option ℕ) where
    config_of-IsResolved :
        (tpx : TpxConfig) (c : Checked)
        → IsChecked c
        → IsResolved (config_of memory_env flaky_retry tpx c)
    unfolding config_of limits_of
    config_of-IsResolved tpx c (usable, sharded, listable, one_override) = record {
      usable = usable;
      sharded = sharded;
      listable = listable;
      one_override = one_override;
      attempts = one_most tpx.flaky_attempts;
      repeats = (resolve_stress-count tpx.stress_count, one_most tpx.stress_label_reps);
      limits = (
        one_most tpx.max_inflight_listings,
        one_most tpx.max_inflight_test_actions,
        one_most tpx.max_inflight_per_target,
      );
    }

    module _ (outer_from : List Text → Result Text OuterCli)
        (tpx_from : List Text → Result Text TpxConfig) where
      -- A command line that is accepted gives a configuration whose batches can hold a test, whose
      -- shard is one of its shards, whose listing names the ignored tests where only those are run,
      -- whose memory overrides name each test at most once, and whose attempts, repeats and limits
      -- are at least one.
      pub parse_argv-IsResolved :
          (argv : List Text) (invocation : Invocation)
          → parse_argv memory_env flaky_retry outer_from tpx_from argv ≡ ok invocation
          → IsResolved invocation.config
      unfolding parse_argv resolve_config
      parse_argv-IsResolved argv invocation h =
          let (outer, _, h1) = bind-ok (or_parse_error (outer_from (before_dashes argv))) _ h in
          let (tpx, _, h2) =
            bind-ok (or_parse_error (tpx_from (program_name (after_dashes argv)))) _ h1 in
          let (_, _, h3) = bind-ok (resolve_transport outer) _ h2 in
          let (resolved, is_resolved, h4) =
            bind-ok (resolve_config memory_env flaky_retry outer tpx) _ h3 in
          let (c, is_checked, h5) = bind-ok (check memory_env tpx) _ is_resolved in
          of_ok (λ i. IsResolved i.config) h4
            (of_ok (λ r. IsResolved r.0) h5
              (config_of-IsResolved tpx c (check-IsChecked tpx c is_checked)))
