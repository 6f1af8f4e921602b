-- ===== src/Wire.antt =====
-- The messages of proto/test.proto and proto/data.proto that the program decodes
-- (src/proto/gen/test.rs, src/proto/gen/data.rs).
use quokka.Prelude.{Text, Bool, Option, none, some, ℕ, zero, suc, nat_key, text_key}
use quokka.Prelude.{ℤ}

-- `prost_types::Duration`
pub record ProtoDuration : Type 0 where
  pub seconds : ℤ
  pub nanos : ℤ

pub data Status : Type 0 where
  finished : ℤ → Status
  timed_out : ProtoDuration → Status

pub record RemoteCommand : Type 0 where
  pub action_digest : Text
  pub cache_hit : Bool
  pub cache_hit_type : ℤ

pub data Command : Type 0 where
  local_command : (action_digest : Text) → Command
  remote_command : RemoteCommand → Command
  omitted_local_command : (action_digest : Text) → Command
  worker_init_command : Command
  worker_command : (action_digest : Text) → Command

-- A message with one optional field of its own stands for that field's two options.
pub record ExecutionResult2 : Type 0 where
  pub status : Option (Option Status)
  pub stdout : Option (Option Text)
  pub stderr : Option (Option Text)
  pub execution_time : Option ProtoDuration
  pub execution_details : Option (Option (Option Command))
  pub max_memory_used_bytes : Option ℕ

pub data Response : Type 0 where
  result : ExecutionResult2 → Response
  cancelled : (reason : Option ℤ) → Response

pub record ExecuteResponse2 : Type 0 where
  pub response : Option Response

-- The discriminants of `TestStatus`.
pub data TestStatus : Type 0 where
  not_set pass fail skip omitted fatal timeout unknown rerun listing_success listing_failed :
      TestStatus
  infra_failure : TestStatus

unfoldable pub discriminant : TestStatus → ℕ
discriminant not_set = 0
discriminant pass = 1
discriminant fail = 2
discriminant skip = 3
discriminant omitted = 4
discriminant fatal = 5
discriminant timeout = 6
discriminant unknown = 7
discriminant rerun = 8
discriminant listing_success = 9
discriminant listing_failed = 10
discriminant infra_failure = 11

pub data CancellationReason : Type 0 where
  not_specified re_queue_timeout : CancellationReason

-- `CancellationReason::try_from(r).ok()`
unfoldable pub reason_of : ℤ → Option CancellationReason
reason_of (ℤ.pos zero) = some not_specified
reason_of (ℤ.pos (suc zero)) = some re_queue_timeout
reason_of _ = none

pub record TestResult : Type 0 where
  pub name : Text
  pub status : ℕ
  pub msg : Option Text
  pub target : Option ℤ  -- `ConfiguredTargetHandle`
  pub duration : Option ProtoDuration
  pub details : Text
  pub max_memory_used_bytes : Option ℕ
