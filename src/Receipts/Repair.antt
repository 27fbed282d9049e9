-- ===== src/Receipts/Repair.antt =====
-- services/idempotency.py: `_reconcile_completed_sync` and `_recovery_token_sync`, which name a
-- receipt by its request and need no owner.
use study_loop.Base.{Bool, Option, String, false, if◌then◌else◌, none, some, true, ℕ, ◌&&◌}
use study_loop.Base.Result.{err, ok}
use study_loop.Json.{Json, JsonText, json_eq, loads}
use study_loop.Receipts.Receipt.{
  Receipt, ReceiptState, Request, Tx, ambiguous, binds, completed, completed_receipt, disagrees,
  effect_started_v2, invalid_json, payload_mismatch, pending_v2, receipt_missing,
  receipt_not_completable, refuse, unclear,
}
use study_loop.Table.{find, update_where}

-- `state IN {allowed_sql}` of `_reconcile_completed_sync`.
abbrev pub repairable : Bool → ReceiptState → Bool
repairable allow_effect pending_v2 = true
repairable allow_effect effect_started_v2 = allow_effect
repairable allow_effect ambiguous = allow_effect
repairable allow_effect _ = false

-- A completed receipt is left alone where both texts hold equal values.
unfoldable pub agree : Option Json → Option Json → Tx (Unit {0})
agree (some a) (some b) t = if json_eq a b then (ok tt, t) else (err disagrees, t)
agree _ _ t = (err invalid_json, t)

abbrev pub loads_column : Option JsonText → Option Json
loads_column none = none
loads_column (some text) = loads text

-- The guarded UPDATE that completes the receipt with the canonical response.
unfoldable pub repair : Request → JsonText → Bool → ℕ → Tx (Unit {0})
unfolding update_where
repair q response allow_effect now t =
    let (t', updated) =
      update_where q.key (λ r. binds r q && repairable allow_effect r.state)
        (completed_receipt response now) t in
    if updated then (ok tt, t') else refuse receipt_not_completable t

unfoldable pub reconcile_by_state :
    Request → JsonText → Bool → ℕ → Receipt → ReceiptState → Tx (Unit {0})
unfolding agree repair
reconcile_by_state q response allow_effect now row completed t =
    agree (loads_column row.response_json) (loads response) t
reconcile_by_state q response allow_effect now row state t =
    if repairable allow_effect state then repair q response allow_effect now t else refuse unclear t

-- `_reconcile_completed_sync`.
unfoldable pub reconcile_completed_sync : Request → JsonText → Bool → ℕ → Tx (Unit {0})
unfolding reconcile_by_state
reconcile_completed_sync q response allow_effect now t = elim (find q.key t) [
  | none ↦ refuse receipt_missing t
  | some row ↦
      if binds row q
      then reconcile_by_state q response allow_effect now row row.state t
      else refuse payload_mismatch t
]

-- `_recovery_token_sync`, which reads only.
unfoldable pub recovery_token_sync : Request → Tx (Option String)
recovery_token_sync q t = elim (find q.key t) [
  | none ↦ (ok none, t)
  | some row ↦ if binds row q then (ok row.recovery_token, t) else refuse payload_mismatch t
]
