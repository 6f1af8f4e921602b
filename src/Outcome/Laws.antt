-- ===== src/Outcome/Laws.antt =====
-- src/result.rs: what `decode_response` reads as a process that exited with code 0.
use quokka.Prelude.{Option, none, some, ◌≡◌, refl, ◌∙◌, arith, nat_key, text_key}
use quokka.Prelude.{pos}
use quokka.Wire
use quokka.Wire.{ExecuteResponse2, ExecutionResult2}
use quokka.Outcome.{
  completed, decode_response, decode_result, CompletedAction, ProcessOutcome, decode_status,
  decode_oneof, decode_cancelled, reason_and_then,
}

decode_status-finished :
    (status : Option (Option Wire.Status))
    → decode_status status ≡ ProcessOutcome.finished (pos 0)
    → status ≡ some (some (Wire.Status.finished (pos 0)))
decode_status-finished none h = cc
decode_status-finished (some none) h = cc
decode_status-finished (some (some (Wire.Status.timed_out d))) h = cc
decode_status-finished (some (some (Wire.Status.finished c))) h = cc

status-decode : (r : ExecutionResult2) → decode_status r.status ≡ (decode_result r).status
unfolding decode_result
status-decode r = refl

cancelled-completed :
    (reason : Option Wire.CancellationReason) (action : CompletedAction)
    → decode_cancelled reason ≡ completed action
    → ⊥
cancelled-completed none action h = ground arith
cancelled-completed (some Wire.CancellationReason.re_queue_timeout) action h = ground arith
cancelled-completed (some Wire.CancellationReason.not_specified) action h = ground arith

completed_by :
    (response : Option Wire.Response) (action : CompletedAction)
    → decode_oneof response ≡ completed action
    → action.status ≡ ProcessOutcome.finished (pos 0)
    → (r : ExecutionResult2) × (response ≡ some (Wire.Response.result r))
      × (r.status ≡ some (some (Wire.Status.finished (pos 0))))
unfolding decode_oneof
completed_by none action h k = absurd (ground arith)
completed_by (some (Wire.Response.result r)) action h k =
    let same : (decode_result r).status ≡ action.status = ground arith in
    (r, refl, decode_status-finished r.status (status-decode r ∙ (same ∙ k)))
completed_by (some (Wire.Response.cancelled reason)) action h k =
    absurd (cancelled-completed (reason_and_then reason) action h)

-- A response is taken as a process that exited with code 0 only if it holds a result whose status
-- says exactly that: no missing status, timeout or cancellation is read so.
pub decode_response-finished :
    (response : ExecuteResponse2) (action : CompletedAction)
    → decode_response response ≡ completed action
    → action.status ≡ ProcessOutcome.finished (pos 0)
    → (r : ExecutionResult2) × (response.response ≡ some (Wire.Response.result r))
      × (r.status ≡ some (some (Wire.Status.finished (pos 0))))
unfolding decode_response decode_oneof
decode_response-finished response action h k = completed_by response.response action h k
