-- ===== src/Scheduler/Request/Caching.antt =====
-- Which requests of a group may be answered from the cache.
use quokka.Prelude.{
  Text, true, false, Option, none, ℕ, zero, suc, ◌+◌, Bool-cases, ◌≡◌, refl, ◌⊎◌, inl, inr, List,
  [], ◌∷◌, arith, any, All, Result, ok, err, nat_key, text_key,
}
use quokka.Variant.{is_default, is_stress}
use quokka.Caching.{TestExecutionCaching, resolve, enabled, cacheable}
use quokka.Batching.{TestSelection}
use quokka.Outcome.{
  Execute2Outcome, completed, cancelled_queue_timeout, cancelled_unspecified, malformed,
  decode_response,
}
use quokka.DurationDb.{DurationEstimate, measured, unseen, estimate}
use quokka.Config.{cache_busts_unseen_tests}
use quokka.Execution.{CgroupMemoryMax}
use quokka.Scheduler.Plan.{TargetPlan}
use quokka.Scheduler.Group.{GroupOutcome, infra_max_attempts}
use quokka.Scheduler.Request.{
  Session, TestingRequest, RpcAnswer, answered, rpc_failed, attempt_caching, has_unseen, is_unseen,
  identity_of, build_request, after_outcome, after_answer, after_limit, run_group_loop, run_group,
}

-- The history has measured this test.
abbrev pub IsKnown : DurationEstimate → Type 0
IsKnown (measured p50 p95) = Unit
IsKnown unseen = ⊥

-- No history is kept in a file, or it has measured all these tests.
abbrev pub AreKnown : Session → TargetPlan → List Text → Type 0
AreKnown s plan names =
    (cache_busts_unseen_tests s.config.duration_db ≡ false)
    ⊎ All (λ n. IsKnown (estimate s.hash_key s.estimates none (identity_of s plan n))) names

is_unseen-IsKnown : (e : DurationEstimate) → is_unseen e ≡ false → IsKnown e
unfolding is_unseen
is_unseen-IsKnown (measured p50 p95) h = tt
is_unseen-IsKnown unseen h = absurd cc

known :
    (s : Session) (plan : TargetPlan) (names : List Text)
    → any (λ n. is_unseen (estimate s.hash_key s.estimates none (identity_of s plan n))) names
      ≡ false
    → All (λ n. IsKnown (estimate s.hash_key s.estimates none (identity_of s plan n))) names
known s plan [] h = tt
known s plan (n ∷ ns) h =
    (is_unseen-IsKnown _ (ground (arith, h)), known s plan ns (ground (arith, h)))

has_unseen-AreKnown :
    (s : Session) (plan : TargetPlan) (names : List Text)
    → has_unseen s plan names ≡ false
    → AreKnown s plan names
unfolding has_unseen
has_unseen-AreKnown s plan names h =
    elim (Bool-cases (cache_busts_unseen_tests s.config.duration_db)) [
      | inl kept ↦ inr (known s plan names (ground arith))
      | inr none_kept ↦ inl none_kept
    ]

-- What a request needs to be served from the cache.
pub record MayCache (s : Session) (plan : TargetPlan) (names : List Text) : Type 0 where
  pub not_stress : is_stress plan.repeat ≡ false
  pub default_variant : is_default s.config.variant ≡ true
  pub class : plan.cache_class ≡ cacheable
  pub all_known : AreKnown s plan names

caching_guards :
    (s : Session) (plan : TargetPlan) (names : List Text) (attempt_index : ℕ)
    → attempt_caching s plan names attempt_index ≡ enabled
    → (attempt_index ≡ 0)
      × (is_stress plan.repeat ≡ false)
      × (is_default s.config.variant ≡ true)
      × (plan.cache_class ≡ cacheable)
      × (has_unseen s plan names ≡ false)
unfolding attempt_caching resolve
caching_guards s plan names attempt_index h = ground arith

attempt_caching-enabled :
    (s : Session) (plan : TargetPlan) (names : List Text) (attempt_index : ℕ)
    → attempt_caching s plan names attempt_index ≡ enabled
    → (attempt_index ≡ 0) × MayCache s plan names
attempt_caching-enabled s plan names attempt_index h =
    let (first, not_stress, default_variant, class, no_unseen) =
      caching_guards s plan names attempt_index h in
    (
      first,
      record {
        not_stress = not_stress;
        default_variant = default_variant;
        class = class;
        all_known = has_unseen-AreKnown s plan names no_unseen;
      },
    )

caching_cases : (c : TestExecutionCaching) → (c ≡ TestExecutionCaching.disabled) ⊎ (c ≡ enabled)
caching_cases enabled = inr refl
caching_cases TestExecutionCaching.disabled = inl refl

module _ (s : Session) (other : ℕ → TestingRequest → RpcAnswer) (plan : TargetPlan)
    (selection : TestSelection Text) (names : List Text) (repeat_index execution_attempt_index : ℕ)
    (same_fresh : (n : ℕ) (r : TestingRequest)
      → r.caching ≡ TestExecutionCaching.disabled
      → s.execute2 n r ≡ other n r) where
  abbrev t : Session
  t = record s { execute2 = other }

  -- The two executors answer the n-th request alike where it may come from the cache.
  abbrev SameFirst : ℕ → Type 0
  SameFirst n =
      execution_attempt_index ≡ 0
      → MayCache s plan names
      → (r : TestingRequest) → s.execute2 n r ≡ other n r

  abbrev SameRetry : (retry retry' : ℕ → Option (GroupOutcome × ℕ)) → Type 0
  SameRetry retry retry' = (n : ℕ) → retry n ≡ retry' n

  after_outcome-same :
      (token : Text) (infra_attempt n : ℕ) (retry retry' : ℕ → Option (GroupOutcome × ℕ))
      (o : Execute2Outcome)
      → SameRetry retry retry'
      → after_outcome s plan selection names repeat_index execution_attempt_index token
          infra_attempt n retry o
        ≡ after_outcome t plan selection names repeat_index execution_attempt_index token
            infra_attempt n retry' o
  unfolding after_outcome
  after_outcome-same token i n retry retry' (completed action) h = refl
  after_outcome-same token i n retry retry' cancelled_queue_timeout h = rw (h (suc n)) refl
  after_outcome-same token i n retry retry' cancelled_unspecified h = refl
  after_outcome-same token i n retry retry' (malformed reason) h = refl

  after_answer-same :
      (token : Text) (infra_attempt n : ℕ) (retry retry' : ℕ → Option (GroupOutcome × ℕ))
      (a : RpcAnswer)
      → SameRetry retry retry'
      → after_answer s plan selection names repeat_index execution_attempt_index token infra_attempt
          n retry a
        ≡ after_answer t plan selection names repeat_index execution_attempt_index token
            infra_attempt n retry' a
  unfolding after_answer
  after_answer-same token i n retry retry' (rpc_failed e) h = refl
  after_answer-same token i n retry retry' (answered r) h =
      after_outcome-same token i n retry retry' (decode_response r) h

  -- The request of a round, answered alike.
  request-same :
      (infra_attempt n : ℕ) (memory_max : CgroupMemoryMax)
      → (infra_attempt ≡ 0 → SameFirst n)
      → let r =
          build_request s plan selection names repeat_index
            (execution_attempt_index + infra_attempt)
            memory_max in
        s.execute2 n r ≡ other n r
  unfolding build_request
  request-same i n m first =
      let index = execution_attempt_index + i in
      elim (caching_cases (attempt_caching s plan names index)) [
        | inl fresh ↦ same_fresh n (build_request s plan selection names repeat_index index m) fresh
        | inr cached ↦
            let (at_first, may) = attempt_caching-enabled s plan names index cached in
            first (omega arith) (omega arith) may
              (build_request s plan selection names repeat_index index m)
      ]

  after_limit-same :
      (infra_attempt n : ℕ) (retry retry' : ℕ → Option (GroupOutcome × ℕ))
      (r : Result Text CgroupMemoryMax)
      → (infra_attempt ≡ 0 → SameFirst n)
      → SameRetry retry retry'
      → after_limit s plan selection names repeat_index execution_attempt_index infra_attempt n
          retry r
        ≡ after_limit t plan selection names repeat_index execution_attempt_index infra_attempt n
            retry' r
  unfolding after_limit build_request attempt_caching has_unseen
  after_limit-same i n retry retry' (err d) first h = refl
  after_limit-same i n retry retry' (ok m) first h =
      rw (request-same i n m first) (after_answer-same _ i n retry retry' _ h)

  run_group_loop-same :
      (fuel infra_attempt n : ℕ)
      → (infra_attempt ≡ 0 → SameFirst n)
      → run_group_loop s plan selection names repeat_index execution_attempt_index fuel
          infra_attempt n
        ≡ run_group_loop t plan selection names repeat_index execution_attempt_index fuel
            infra_attempt n
  unfolding run_group_loop
  run_group_loop-same zero i n first = refl
  run_group_loop-same (suc fuel) i n first =
      after_limit-same i n _ _ _ first
        (λ m. run_group_loop-same fuel (i + 1) m (λ e. absurd (omega arith)))

  -- What a group answers never comes out of the cache, but for its first request, and that only in
  -- the first attempt of its action, outside of stress repetitions, in the default variant, of a
  -- cacheable target, and where no test of the group is unmeasured in a history that is kept in a
  -- file: two executors that agree on every request whose caching is disabled, and under these
  -- conditions on the first request, give the group the same outcome after the same number of
  -- requests.
  pub run_group-fresh :
      (n : ℕ)
      → (execution_attempt_index ≡ 0
          → MayCache s plan names
          → (r : TestingRequest) → s.execute2 n r ≡ other n r)
      → run_group s plan selection names repeat_index execution_attempt_index n
        ≡ run_group
            (record s { execute2 = other })
            plan
            selection
            names
            repeat_index
            execution_attempt_index
            n
  unfolding run_group
  run_group-fresh n first = run_group_loop-same infra_max_attempts 0 n (λ e. first)
