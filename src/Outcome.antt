-- ===== src/Outcome.antt =====
-- src/result.rs: the decoding of `Execute2` responses, verdicts and result identities.
pub mod Laws
use quokka.Prelude.{
  Text, text, text_eq, text_eq_iff, text_eq_refl, strip_prefix, split_once, show_nat, Bool, true,
  false, not, ◌&&◌, ◌||◌, Option, none, some, ℕ, zero, suc, ◌+◌, ◌-◌, ◌*◌, ◌/◌, ◌%◌, ◌^◌, ◌≤◌, ◌<◌,
  max, min, ltb, leb, ◌==◌, if◌then◌else◌, ==_iff, Bool-cases, Option-cases, ◌≡◌, refl, sym, ap,
  ◌∙◌, ◌≢◌, ◌↔◌, ◌⊎◌, inl, inr, List, [], ◌∷◌, ◌++◌, map, Perm, arith, length, get_elem?, take,
  drop, replicate, any, filter, is_empty, All, flatten, Result, ok, err, ◌>>=◌, Key, Map, lookup,
  insert, remove, lookup-insert, lookup-insert_self, lookup-insert_ne, nat_key, text_key,
}
use quokka.Prelude.{ℤ, pos, negsuc, pos_part}
use quokka.Wire
use quokka.Wire.{ProtoDuration, ExecuteResponse2, ExecutionResult2, TestResult}
use quokka.Variant.{Variant, RepeatKind, identity, is_stress}

-- `std::time::Duration` in nanoseconds.
abbrev pub Duration : Type 0
Duration = ℕ

pub data ProcessOutcome : Type 0 where
  finished : (exit_code : ℤ) → ProcessOutcome
  timed_out : (after : Duration) → ProcessOutcome

pub data ExecKind : Type 0 where
  local remote_cache_hit remote_executed omitted worker unknown : ExecKind

is_fresh_run : ExecKind → Bool
is_fresh_run local = true
is_fresh_run remote_executed = true
is_fresh_run worker = true
is_fresh_run _ = false

pub record CompletedAction : Type 0 where
  pub status : ProcessOutcome
  pub stdout : Text
  pub stderr : Text
  pub execution_time : Duration
  pub max_memory_used_bytes : Option ℕ
  pub exec_kind : ExecKind

pub data MalformedResponse : Type 0 where
  no_response_field : MalformedResponse

unfoldable pub detail : MalformedResponse → Text
detail no_response_field =
    text "buck2 returned an Execute2 response with neither a result nor a cancellation"

pub data Execute2Outcome : Type 0 where
  completed : CompletedAction → Execute2Outcome
  cancelled_queue_timeout : Execute2Outcome
  cancelled_unspecified : Execute2Outcome
  malformed : MalformedResponse → Execute2Outcome

pub data FailureClass : Type 0 where
  fail fatal timeout infra : FailureClass

pub data TestVerdict : Type 0 where
  pass fail skip omitted fatal timeout infra_failure : TestVerdict

to_wire : TestVerdict → Wire.TestStatus
to_wire pass = Wire.TestStatus.pass
to_wire fail = Wire.TestStatus.fail
to_wire skip = Wire.TestStatus.skip
to_wire omitted = Wire.TestStatus.omitted
to_wire fatal = Wire.TestStatus.fatal
to_wire timeout = Wire.TestStatus.timeout
to_wire infra_failure = Wire.TestStatus.infra_failure

unfoldable pub is_failure : TestVerdict → Bool
is_failure fail = true
is_failure fatal = true
is_failure timeout = true
is_failure infra_failure = true
is_failure _ = false

unfoldable pub failure_class : TestVerdict → Option FailureClass
failure_class fail = some FailureClass.fail
failure_class fatal = some FailureClass.fatal
failure_class timeout = some FailureClass.timeout
failure_class infra_failure = some FailureClass.infra
failure_class _ = none

unfoldable pub duration_from_proto : ProtoDuration → Duration
duration_from_proto d = pos_part d.seconds * 1_000_000_000 + min (pos_part d.nanos) 1_999_999_999

unfoldable pub classify_exec_kind : Option Wire.Command → ExecKind
classify_exec_kind (some (Wire.Command.local_command _)) = local
classify_exec_kind (some (Wire.Command.remote_command remote)) =
    if remote.cache_hit then remote_cache_hit else remote_executed
classify_exec_kind (some (Wire.Command.omitted_local_command _)) = omitted
classify_exec_kind (some Wire.Command.worker_init_command) = worker
classify_exec_kind (some (Wire.Command.worker_command _)) = worker
classify_exec_kind none = unknown

abbrev decode_status : Option (Option Wire.Status) → ProcessOutcome
decode_status (some (some (Wire.Status.finished exit_code))) = finished exit_code
decode_status (some (some (Wire.Status.timed_out d))) = timed_out (duration_from_proto d)
decode_status _ = finished (negsuc 0)

-- `and_then(|s| s.item).map(stream_bytes).unwrap_or_default()`
abbrev decode_stream : Option (Option Text) → Text
decode_stream (some (some bytes)) = bytes
decode_stream _ = []

abbrev decode_time : Option ProtoDuration → Duration
decode_time (some d) = duration_from_proto d
decode_time none = 0

abbrev decode_kind : Option (Option (Option Wire.Command)) → ExecKind
decode_kind (some (some kind)) = classify_exec_kind kind
decode_kind _ = unknown

unfoldable pub decode_result : ExecutionResult2 → CompletedAction
decode_result r = record {
  status = decode_status r.status;
  stdout = decode_stream r.stdout;
  stderr = decode_stream r.stderr;
  execution_time = decode_time r.execution_time;
  max_memory_used_bytes = r.max_memory_used_bytes;
  exec_kind = decode_kind r.execution_details;
}

abbrev decode_cancelled : Option Wire.CancellationReason → Execute2Outcome
decode_cancelled (some Wire.CancellationReason.re_queue_timeout) = cancelled_queue_timeout
decode_cancelled _ = cancelled_unspecified

abbrev reason_and_then : Option ℤ → Option Wire.CancellationReason
unfolding Wire.reason_of
reason_and_then none = none
reason_and_then (some r) = Wire.reason_of r

abbrev decode_oneof : Option Wire.Response → Execute2Outcome
unfolding decode_result reason_and_then
decode_oneof (some (Wire.Response.result r)) = completed (decode_result r)
decode_oneof (some (Wire.Response.cancelled reason)) = decode_cancelled (reason_and_then reason)
decode_oneof none = malformed no_response_field

unfoldable pub decode_response : ExecuteResponse2 → Execute2Outcome
unfolding decode_oneof duration_from_proto classify_exec_kind
decode_response response = decode_oneof response.response

pub record TestIdentity : Type 0 where
  pub target : Text
  pub name : Text
  pub variant : Variant

pub record RunIdentity : Type 0 where
  pub test : TestIdentity
  pub repeat : RepeatKind
  pub repeat_index : ℕ

abbrev variant_part : Option Text → Text
variant_part none = []
variant_part (some v) = b'#' ∷ v

unfoldable pub to_buck2_name : RunIdentity → Text
unfolding identity is_stress
to_buck2_name id =
    id.test.name
    ++ (variant_part (identity id.test.variant)
        ++ (if is_stress id.repeat then text "#rep" ++ show_nat id.repeat_index else []))

pub data LogRouting : Type 0 where
  inline upload_to_cas : LogRouting

unfoldable pub route_log : ℕ → ℕ → LogRouting
route_log len inline_limit = if leb len inline_limit then inline else upload_to_cas

abbrev proto_duration : Option Duration → Option ProtoDuration
proto_duration none = none
proto_duration (some d) =
    some (record { seconds = pos (d / 1_000_000_000); nanos = pos (d % 1_000_000_000) })

unfoldable pub build_test_result :
    RunIdentity → ℤ → TestVerdict → Option Duration → Text → Option ℕ → TestResult
unfolding to_wire Wire.discriminant
build_test_result id target status duration details max_memory = record {
  name = to_buck2_name id;
  status = Wire.discriminant (to_wire status);
  msg = none;
  target = some target;
  duration = proto_duration duration;
  details = details;
  max_memory_used_bytes = max_memory;
}
