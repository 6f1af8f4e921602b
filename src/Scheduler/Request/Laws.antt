-- ===== src/Scheduler/Request/Laws.antt =====
-- The loop of `run_group` over queue timeouts.
use quokka.Prelude.{
  Text, text, Option, some, ℕ, zero, suc, ◌+◌, ◌≤◌, ◌<◌, ltb, Bool-cases, ◌≡◌, refl, inl, inr, List,
  arith, Result, ok, err, nat_key, text_key,
}
use quokka.Batching.{TestSelection}
use quokka.Outcome.{
  Execute2Outcome, completed, cancelled_queue_timeout, cancelled_unspecified, malformed,
  decode_response, TestVerdict,
}
use quokka.Scheduler.Plan.{TargetPlan}
use quokka.Scheduler.Group.{GroupOutcome, infra_max_attempts, no_action}
use quokka.Scheduler.Request.{
  Session, RpcAnswer, answered, rpc_failed, run_group_loop, run_group, after_outcome, after_answer,
  after_limit,
}
use quokka.Execution.{CgroupMemoryMax}

module _ (s : Session) (plan : TargetPlan) (selection : TestSelection Text) (names : List Text)
    (repeat_index execution_attempt_index : ℕ) where
  abbrev pub Ends : Option (GroupOutcome × ℕ) → ℕ → ℕ → Type 0
  Ends r n most = (g : GroupOutcome) × (m : ℕ) × (r ≡ some (g, m)) × (n ≤ m) × (m ≤ n + most)

  abbrev Retries : (ℕ → Option (GroupOutcome × ℕ)) → ℕ → ℕ → Type 0
  Retries retry infra_attempt most =
      infra_attempt + 1 < infra_max_attempts → (n : ℕ) → Ends (retry n) n most

  after_outcome_total :
      (token : Text) (infra_attempt n most : ℕ) (retry : ℕ → Option (GroupOutcome × ℕ))
      (o : Execute2Outcome)
      → Retries retry infra_attempt most
      → Ends
          (after_outcome s plan selection names repeat_index execution_attempt_index token
            infra_attempt n retry o)
          n
          (suc most)
  unfolding after_outcome
  after_outcome_total token i n most retry (completed action) h =
      (_, _, refl, omega arith, omega arith)
  after_outcome_total token i n most retry cancelled_unspecified h =
      (_, _, refl, omega arith, omega arith)
  after_outcome_total token i n most retry (malformed reason) h =
      (_, _, refl, omega arith, omega arith)
  after_outcome_total token i n most retry cancelled_queue_timeout h =
      elim (Bool-cases (ltb (i + 1) infra_max_attempts)) [
        | inl e ↦
            let (g, m, runs, low, high) = h (ground arith) (suc n) in
            (g, m, rw e runs, omega arith, omega arith)
        | inr e ↦ (
          no_action TestVerdict.infra_failure (text "RE queue timeout (retries exhausted)"),
          suc n,
          rw e,
          omega arith,
          omega arith,
        )
      ]

  after_answer_total :
      (token : Text) (infra_attempt n most : ℕ) (retry : ℕ → Option (GroupOutcome × ℕ))
      (a : RpcAnswer)
      → Retries retry infra_attempt most
      → Ends
          (after_answer s plan selection names repeat_index execution_attempt_index token
            infra_attempt n retry a)
          n
          (suc most)
  unfolding after_answer
  after_answer_total token i n most retry (rpc_failed e) h = (_, _, refl, omega arith, omega arith)
  after_answer_total token i n most retry (answered r) h =
      after_outcome_total token i n most retry (decode_response r) h

  after_limit_total :
      (infra_attempt n most : ℕ) (retry : ℕ → Option (GroupOutcome × ℕ))
      (r : Result Text CgroupMemoryMax)
      → Retries retry infra_attempt most
      → Ends
          (after_limit s plan selection names repeat_index execution_attempt_index infra_attempt n
            retry r)
          n
          (suc most)
  unfolding after_limit
  after_limit_total i n most retry (err d) h = (_, _, refl, omega arith, omega arith)
  after_limit_total i n most retry (ok m) h = after_answer_total _ i n most retry _ h

  run_group_loop_total :
      (fuel infra_attempt n : ℕ)
      → infra_attempt < infra_max_attempts
      → infra_max_attempts ≤ fuel + infra_attempt
      → Ends
          (run_group_loop s plan selection names repeat_index execution_attempt_index fuel
            infra_attempt n)
          n
          fuel
  unfolding run_group_loop
  run_group_loop_total zero i n h k = absurd (omega arith)
  run_group_loop_total (suc fuel) i n h k =
      after_limit_total i n fuel _ _
        (λ more m. run_group_loop_total fuel (i + 1) m (omega arith) (omega arith))

  -- Whatever the executor answers, one run of a group ends with an outcome after at most three
  -- requests.
  pub run_group_total :
      (n : ℕ) → Ends (run_group s plan selection names repeat_index execution_attempt_index n) n 3
  unfolding run_group
  run_group_total n = run_group_loop_total infra_max_attempts 0 n (omega arith) (omega arith)
