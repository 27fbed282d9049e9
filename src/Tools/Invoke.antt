-- ===== src/Tools/Invoke.antt =====
-- services/tool_registry.py: `invoke`, from the admission of a call to the end of its handler.
use study_loop.Base.{
  Bool, List, Option, String, col_is, if◌then◌else◌, none, some, truthy, ℕ, ◌&&◌, ◌∷◌,
}
use study_loop.Base.Result.{Result, err, ok}
use study_loop.Json.{Fields}
use study_loop.Receipts.Owner.{mark_effect_started_sync}
use study_loop.Receipts.Receipt.{Error, Receipt, ReceiptLease}
use study_loop.Table.{Table}
use study_loop.Tools.Admission.{
  Admission, Invocation, admit, admitted, call_record, invalid_arguments, unknown_tool, violation,
}
use study_loop.Tools.Registry.{
  EffectMode, Reservation, Status, Tool, ToolCallRecord, ToolMetadata, ToolRegistry, add,
  ambiguous_, cancelled_, error, non_replayable, ok_, release_effect_digest, timeout, write_record,
}
use study_loop.Tools.Reservations.{ToolCodec}
use study_loop.Tools.Retry.{
  Attempt, Fault, Retried, cancelled, exhausted, failed, result, with_retry,
}

-- A run of a handler, with the number of times that it was called.
pub record HandlerRun : Type 0 where
  pub tool : Tool
  pub arguments : Fields
  pub calls : ℕ

pub record World : Type 0 where
  pub registry : ToolRegistry
  pub receipts : Table Receipt
  pub runs : List HandlerRun

-- `attempt` is what a handler does with arguments the n-th time; `reads_exceeded` is whether the text of
-- a RetryExhausted with this cause contains "exceeded".
pub record Handlers : Type 0 where
  pub attempt : ℕ → Fields → ℕ → Attempt String
  pub reads_exceeded : Fault → Bool

-- The callback `on_before_handler`, with what other tasks do until it is done: whether it raises, and
-- the world that it leaves.
abbrev pub Barrier : Type 0
Barrier = World → Option Fault × World

-- A text for the model, or an exception. `side_effect_ambiguous` is SideEffectAmbiguousError.
pub data Answer : Type 0 where
  text : String → Answer
  tool_unknown arguments_invalid side_effect_ambiguous : Answer
  policy_violation : String → Answer
  barrier_raised : Fault → Answer
  handler_raised : Fault → Answer
  retry_exhausted : Fault → Answer

abbrev pub log_record : ToolCallRecord → World → World
log_record r w = record w { registry = write_record r w.registry }

-- `_run_effect_attempts.add(run_id)`.
abbrev pub note_attempt : Tool → Option String → World → World
note_attempt tool none w = w
note_attempt tool (some r) w =
    if non_replayable tool.metadata.effect_mode
    then record w {
      registry = record (w.registry) { run_effect_attempts = add r w.registry.run_effect_attempts };
    }
    else w

abbrev final_status : Handlers → EffectMode → Retried String → Status
final_status hs mode (result s) = ok_
final_status hs mode (exhausted e) =
    if non_replayable mode then ambiguous_ else if hs.reads_exceeded e then timeout else error
final_status hs mode (failed cancelled) = if non_replayable mode then ambiguous_ else cancelled_
final_status hs mode (failed e) = if non_replayable mode then ambiguous_ else error

abbrev final_message : Retried String → Option String
final_message (result s) = none
final_message (exhausted e) = some "retry_exhausted"
final_message (failed cancelled) = some "cancelled"
final_message (failed e) = some "handler_error"

abbrev final_answer : EffectMode → Retried String → Answer
final_answer mode (result s) = text s
final_answer mode (exhausted e) =
    if non_replayable mode then side_effect_ambiguous else retry_exhausted e
final_answer mode (failed cancelled) = handler_raised cancelled
final_answer mode (failed e) =
    if non_replayable mode then side_effect_ambiguous else handler_raised e

abbrev pub retries_of : ToolMetadata → ℕ
retries_of m = if non_replayable m.effect_mode then 0 else m.max_retries

-- From the call of `with_retry` on. The audit record is one object that `finally` completes: it is
-- written here with its final fields, less the type name at the end of its message.
unfoldable pub run_handler : Handlers → Tool → Invocation → World → Answer × World
run_handler hs tool q w =
    let m = tool.metadata in
    let (r, calls) = with_retry (retries_of m) (hs.attempt tool.handler q.arguments) in
    (
      final_answer m.effect_mode r,
      log_record
          (call_record q m.effect_mode (final_status hs m.effect_mode r) (final_message r) calls)
          (record w {
            runs = record { tool = tool; arguments = q.arguments; calls = calls } ∷ w.runs;
          }),
    )

abbrev pub ambiguous_call : Tool → Invocation → String → World → Answer × World
ambiguous_call tool q reason w = (
  side_effect_ambiguous,
  log_record (call_record q tool.metadata.effect_mode error (some reason) 0) w,
)

abbrev pub after_mark :
    Handlers → Tool → Invocation → World → Result Error (Unit {0}) × Table Receipt → Answer × World
after_mark hs tool q w (ok u, t) = run_handler hs tool q (record w { receipts = t })
after_mark hs tool q w (err e, t) =
    ambiguous_call tool q "receipt_not_pending" (record w { receipts = t })

-- `mark_effect_started` of the receipt that the caller holds.
unfoldable pub mark_receipt :
    Handlers → Tool → Invocation → ℕ → Option ReceiptLease → World → Answer × World
unfolding run_handler
mark_receipt hs tool q now none w = ambiguous_call tool q "receipt_owner_missing" w
mark_receipt hs tool q now (some lease) w =
    if col_is q.idempotency_key lease.key
    then after_mark hs tool q w
        (mark_effect_started_sync lease.key lease.owner_token q.name now w.receipts)
    else ambiguous_call tool q "receipt_owner_missing" w

-- Whether the call stands under a receipt.
abbrev pub needs_receipt : Tool → Invocation → Bool
needs_receipt tool q = truthy q.idempotency_key && non_replayable tool.metadata.effect_mode

unfoldable pub start_handler : Handlers → Tool → Invocation → ℕ → World → Answer × World
unfolding mark_receipt
start_handler hs tool q now w =
    let w' = note_attempt tool q.run_id w in
    if needs_receipt tool q
    then mark_receipt hs tool q now q.idempotency_lease w'
    else run_handler hs tool q w'

abbrev pub release : Option String → Option Reservation → ToolRegistry → ToolRegistry
release (some run_id) (some x) g = release_effect_digest run_id x g
release _ _ g = g

abbrev pub after_barrier :
    Handlers → Tool → Option Reservation → Invocation → ℕ → Option Fault × World → Answer × World
after_barrier hs tool x q now (none, w) = start_handler hs tool q now w
after_barrier hs tool x q now (some e, w) =
    (barrier_raised e, record w { registry = release q.run_id x w.registry })

abbrev pub after_admission :
    Handlers → Barrier → Invocation → ℕ → World → Admission × ToolRegistry → Answer × World
after_admission hs barrier q now w (unknown_tool, g) = (tool_unknown, record w { registry = g })
after_admission hs barrier q now w (invalid_arguments, g) =
    (arguments_invalid, record w { registry = g })
after_admission hs barrier q now w (violation reason, g) =
    (policy_violation reason, record w { registry = g })
after_admission hs barrier q now w (admitted tool x, g) =
    after_barrier hs tool x q now (barrier (record w { registry = g }))

-- `invoke`; `now` is the time of the transaction that marks the receipt.
unfoldable pub invoke : ToolCodec → Handlers → Barrier → Invocation → ℕ → World → Answer × World
unfolding admit start_handler
invoke cx hs barrier q now w = after_admission hs barrier q now w (admit cx q w.registry)
