-- ===== src/Tools/Admission.antt =====
-- services/tool_registry.py: the part of `invoke` before its first `await`, which admits a call or
-- refuses it.
use study_loop.Base.{
  Bool, List, Option, String, [], false, if◌then◌else◌, is_none, leb, length, none, not, some,
  str_eq, ℕ, ◌&&◌, ◌||◌, ◌∷◌,
}
use study_loop.Json.{Fields, Json, end, field, str}
use study_loop.Receipts.Receipt.{ReceiptLease}
use study_loop.Scope.{argument}
use study_loop.Table.{find, put}
use study_loop.Tools.Registry.{
  EffectMode, Reservation, Status, Tool, ToolCallRecord, ToolRegistry, blocked, error, member,
  non_replayable, policy_max_reservations, reservations_of, reserved, unknown, write_record,
}
use study_loop.Tools.Reservations.{ToolCodec, dedupes, semantic_reservation}

pub record Invocation : Type 0 where
  pub name : String
  pub arguments : Fields
  pub run_id : Option String
  pub user_id : Option String
  pub idempotency_key : Option String
  pub idempotency_lease : Option ReceiptLease

-- An answer to the model, a ToolPolicyViolation, or the tool and its reservation.
pub data Admission : Type 0 where
  unknown_tool : Admission
  invalid_arguments : Admission
  violation : String → Admission
  admitted : Tool → Option Reservation → Admission

abbrev pub call_record : Invocation → EffectMode → Status → Option String → ℕ → ToolCallRecord
call_record q effect_mode status error_message attempts = record {
  tool_name = q.name;
  arguments = q.arguments;
  status = status;
  effect_mode = effect_mode;
  run_id = q.run_id;
  user_id = q.user_id;
  error_message = error_message;
  retry_attempts = attempts;
}

-- `[field for field in required if field not in arguments]` and `if missing`.
unfoldable pub misses : List String → Fields → Bool
unfolding argument
misses [] fs = false
misses (k ∷ ks) fs = is_none (argument k fs) || misses ks fs

unfoldable pub undeclared : Fields → List String → Bool
undeclared end ks = false
undeclared (field k v fs) ks = not (member k ks) || undeclared fs ks

unfoldable pub binding_error : Tool → Fields → Option String
unfolding misses undeclared
binding_error tool arguments =
    if misses tool.required arguments
    then some "missing_required_arguments"
    else if tool.closed && undeclared arguments tool.properties
    then some "unknown_arguments"
    else if not (tool.binds arguments)
    then some "signature_mismatch"
    else none

abbrev pub is_text : Option Json → String → Bool
is_text (some (str s)) t = str_eq s t
is_text _ t = false

abbrev pub bound_owner : Option String → Option Json → Option String
bound_owner none v = some "owner_context_missing"
bound_owner (some user_id) v = if is_text v user_id then none else some "owner_mismatch"

unfoldable pub owner_fault : Option String → Invocation → Option String
unfolding argument
owner_fault none q = none
owner_fault (some o) q =
    if str_eq o "" then none else bound_owner q.user_id (argument o q.arguments)

abbrev pub in_run : Option String → List String → Bool
in_run none runs = false
in_run (some r) runs = member r runs

-- A run that has read suspicious content starts no effect that cannot be replayed.
abbrev pub tainted : Tool → Invocation → ToolRegistry → Bool
tainted tool q g =
    non_replayable tool.metadata.effect_mode && in_run q.run_id g.run_untrusted_content

-- `reject_policy`.
abbrev pub block : Tool → Invocation → String → ToolRegistry → Admission × ToolRegistry
block tool q reason g = (
  violation reason,
  write_record (call_record q tool.metadata.effect_mode blocked (some reason) 0) g,
)

-- The lookup and the insertion of a reservation.
unfoldable pub reserve_effect :
    Tool → Invocation → String → Option Reservation → ToolRegistry → Admission × ToolRegistry
unfolding reservations_of
reserve_effect tool q run_id none g = block tool q "invalid_dedupe_arguments" g
reserve_effect tool q run_id (some x) g =
    let xs = reservations_of run_id g in
    if reserved x xs
    then block tool q "duplicate_within_run" g
    else if leb policy_max_reservations (length xs)
    then block tool q "run_policy_reservation_limit" g
    else (
      admitted tool (some x),
      record g { run_effect_digests = put run_id (x ∷ xs) g.run_effect_digests },
    )

unfoldable pub admit_effect :
    ToolCodec → Tool → Invocation → Option String → ToolRegistry → Admission × ToolRegistry
unfolding reserve_effect
admit_effect cx tool q none g = (admitted tool none, g)
admit_effect cx tool q (some run_id) g =
    if dedupes tool.metadata
    then reserve_effect tool q run_id (semantic_reservation cx tool q.arguments g) g
    else (admitted tool none, g)

unfoldable pub admit_owned : ToolCodec → Tool → Invocation → ToolRegistry → Admission × ToolRegistry
unfolding owner_fault admit_effect
admit_owned cx tool q g = elim (owner_fault tool.metadata.owner_argument q) [
  | some reason ↦ block tool q reason g
  | none ↦
      if tainted tool q g
      then block tool q "untrusted_content_taint" g
      else admit_effect cx tool q q.run_id g
]

unfoldable pub admit_tool : ToolCodec → Tool → Invocation → ToolRegistry → Admission × ToolRegistry
unfolding binding_error admit_owned
admit_tool cx tool q g = elim (binding_error tool q.arguments) [
  | some e ↦
      (invalid_arguments, write_record (call_record q tool.metadata.effect_mode error (some e) 0) g)
  | none ↦ admit_owned cx tool q g
]

unfoldable pub admit : ToolCodec → Invocation → ToolRegistry → Admission × ToolRegistry
unfolding admit_tool
admit cx q g = elim (find q.name g.tools) [
  | none ↦ (unknown_tool, write_record (call_record q unknown error (some "unknown_tool") 0) g)
  | some tool ↦ admit_tool cx tool q g
]
