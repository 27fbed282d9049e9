-- ===== src/Receipts/Receipt.antt =====
-- services/idempotency.py: the table of receipts, the lease and the errors of IdempotencyStore.
use study_loop.Base.{Bool, Option, String, false, leb, ltb, none, some, str_eq, true, ℕ, ◌&&◌}
use study_loop.Base.Result.{Result, err}
use study_loop.Json.{Json, JsonText}
use study_loop.Table.{Table}

-- The column `state`; `other` is a text that no version of the program writes.
pub data ReceiptState : Type 0 where
  pending pending_v2 effect_started effect_started_v2 completed ambiguous : ReceiptState
  other : String → ReceiptState

pub record Receipt : Type 0 where
  pub operation : String
  pub fingerprint : String
  pub state : ReceiptState
  pub response_json : Option JsonText
  pub effect_tool : Option String
  pub owner_token : Option String
  pub recovery_token : Option String
  pub lease_expires_at : Option ℕ
  pub created_at : ℕ
  pub updated_at : ℕ

pub data Reason : Type 0 where
  payload_mismatch in_progress unclear receipt_not_pending receipt_not_completable : Reason
  receipt_missing : Reason

-- `conflict` is IdempotencyConflictError; the others are RuntimeError and JSONDecodeError.
pub data Error : Type 0 where
  conflict : Reason → Error
  not_an_object disagrees invalid_json disappeared : Error

pub record ReceiptLease : Type 0 where
  pub key : String
  pub owner_token : String
  pub recovery_token : String
  pub expires_at : ℕ

-- BeginDecision: `replayed=True` with a response, or a lease.
pub data BeginDecision : Type 0 where
  replay : Json → BeginDecision
  granted : ReceiptLease → BeginDecision

-- What binds a receipt to its request.
pub record Request : Type 0 where
  pub key : String
  pub operation : String
  pub fingerprint : String

abbrev pub Tx : Type 0 → Type 0
Tx A = Table Receipt → Result Error A × Table Receipt

abbrev pub refuse : {A : Type 0} → Reason → Tx A
refuse e t = (err (conflict e), t)

abbrev pub is_pending_v2 : ReceiptState → Bool
is_pending_v2 pending_v2 = true
is_pending_v2 _ = false

abbrev pub is_effect_started_v2 : ReceiptState → Bool
is_effect_started_v2 effect_started_v2 = true
is_effect_started_v2 _ = false

-- `state in {"effect_started", "effect_started_v2", "ambiguous"}`.
abbrev pub has_effect : ReceiptState → Bool
has_effect effect_started = true
has_effect effect_started_v2 = true
has_effect ambiguous = true
has_effect _ = false

-- `column <= now` and `column > now` in SQL, where NULL is neither.
abbrev pub due : Option ℕ → ℕ → Bool
due none now = false
due (some e) now = leb e now

abbrev pub live : Option ℕ → ℕ → Bool
live none now = false
live (some e) now = ltb now e

abbrev pub binds : Receipt → Request → Bool
binds r q = str_eq r.operation q.operation && str_eq r.fingerprint q.fingerprint

-- What `_complete_sync` and `_reconcile_completed_sync` write.
abbrev pub completed_receipt : JsonText → ℕ → Receipt → Receipt
completed_receipt response now r = record r {
  state = completed;
  response_json = some response;
  owner_token = none;
  lease_expires_at = none;
  updated_at = now;
}
