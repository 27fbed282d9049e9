-- ===== src/Receipts/Replay.antt =====
-- services/idempotency.py: a completed receipt, and what a retry gets from it.
use study_loop.Base.{
  Bool, List, String, [], arith, eq_iff, eq_refl, if◌then◌else◌, refl, some, true, ℕ, ◌∙◌, ◌∷◌, ◌≡◌,
  ◌≢◌,
}
use study_loop.Base.Result.{err, ok}
use study_loop.Json.{Fields, JsonText, holds, json_eq_refl, obj}
use study_loop.Receipts.Begin.{begin_sync}
use study_loop.Receipts.History.{
  Call, abort, begin, complete, mark_effect_started, reconcile_completed, renew, run, step,
}
use study_loop.Receipts.Owner.{abort_sync, complete_sync}
use study_loop.Receipts.Receipt.{
  Receipt, Request, binds, completed, completed_receipt, conflict, payload_mismatch, replay,
}
use study_loop.Receipts.Repair.{reconcile_completed_sync}
use study_loop.Table.{Table, find, find-put, find-remove}

module _ (lease_seconds : ℕ) (k : String) (r : Receipt) (done : r.state ≡ completed) where
  -- A completed receipt is never written again.
  step-completed :
      (t : Table Receipt) (c : ℕ × Call)
      → find k t ≡ some r
      → find k (step lease_seconds t c) ≡ some r
  unfolding step reconcile_completed_sync abort_sync
  step-completed t (now, begin q owner recovery) h = grind (arith, find-put, eq_iff)
  step-completed t (now, renew key owner) h = grind (arith, find-put, eq_iff)
  step-completed t (now, mark_effect_started key owner tool) h = grind (arith, find-put, eq_iff)
  step-completed t (now, complete key owner response) h = grind (arith, find-put, eq_iff)
  step-completed t (now, reconcile_completed q response allow_effect) h =
      grind (arith, find-put, eq_iff)
  step-completed t (now, abort key owner) h = grind (arith, find-put, find-remove, eq_iff)

  pub run-completed :
      (t : Table Receipt) (cs : List (ℕ × Call))
      → find k t ≡ some r
      → find k (run lease_seconds t cs) ≡ some r
  unfolding run
  run-completed t [] h = h
  run-completed t (c ∷ cs) h = run-completed (step lease_seconds t c) cs (step-completed t c h)

complete-find :
    (k owner : String) (response : JsonText) (now : ℕ) (t : Table Receipt) (r : Receipt)
    → find k t ≡ some r
    → (complete_sync k owner response now t).0 ≡ ok tt
    → find k (complete_sync k owner response now t).1 ≡ some (completed_receipt response now r)
unfolding complete_sync
complete-find k owner response now t r h e = grind (arith, find-put, eq_refl)

begin-completed :
    (between : Table Receipt → Table Receipt) (later lease_seconds : ℕ) (q : Request)
    (owner recovery : String) (now : ℕ) (t : Table Receipt) (r : Receipt) (fs : Fields)
    → find q.key t ≡ some r
    → r.state ≡ completed
    → r.response_json ≡ some (holds (obj fs))
    → begin_sync between later lease_seconds q owner recovery now t
      ≡ (if binds r q then (ok (replay (obj fs)), t) else (err (conflict payload_mismatch), t))
unfolding begin_sync
begin-completed between later lease_seconds q owner recovery now t r fs h s e = grind arith

-- After `complete` has stored a response object, and any history of further calls, a `begin` of
-- the same operation and payload replays exactly that object, one of another operation or payload
-- is refused as a mismatch, and neither changes the table.
pub retry_replays_response :
    (lease_seconds : ℕ) (t : Table Receipt) (q : Request) (owner : String) (fs : Fields) (at : ℕ)
    (r : Receipt) (cs : List (ℕ × Call)) (owner' recovery' : String) (now : ℕ)
    → find q.key t ≡ some r
    → (complete_sync q.key owner (holds (obj fs)) at t).0 ≡ ok tt
    → let u = run lease_seconds (complete_sync q.key owner (holds (obj fs)) at t).1 cs in
      begin_sync (λ u. u) now lease_seconds q owner' recovery' now u
      ≡ (if binds r q then (ok (replay (obj fs)), u) else (err (conflict payload_mismatch), u))
retry_replays_response lease_seconds t q owner fs at r cs owner' recovery' now h e =
    begin-completed (λ u. u) now lease_seconds q owner' recovery' now _
      (completed_receipt (holds (obj fs)) at r) fs
      (run-completed lease_seconds q.key (completed_receipt (holds (obj fs)) at r) refl _ cs
        (complete-find q.key owner (holds (obj fs)) at t r h e))
      refl refl

reconcile-find :
    (q : Request) (response : JsonText) (allow_effect : Bool) (now : ℕ) (t : Table Receipt)
    (r : Receipt)
    → find q.key t ≡ some r
    → r.state ≢ completed
    → (reconcile_completed_sync q response allow_effect now t).0 ≡ ok tt
    → (binds r q ≡ true)
      × (find q.key (reconcile_completed_sync q response allow_effect now t).1
          ≡ some (completed_receipt response now r))
unfolding reconcile_completed_sync
reconcile-find q response allow_effect now t r h open_ e =
    (grind arith, grind (arith, find-put, eq_refl))

-- Repairing a receipt from the canonical outcome closes it: a repeated repair with the same
-- outcome succeeds without a write, and a retry replays the outcome.
pub repair_closes_receipt :
    (lease_seconds : ℕ) (t : Table Receipt) (q : Request) (fs : Fields) (allow_effect : Bool)
    (at later : ℕ) (r : Receipt) (owner recovery : String)
    → find q.key t ≡ some r
    → r.state ≢ completed
    → (reconcile_completed_sync q (holds (obj fs)) allow_effect at t).0 ≡ ok tt
    → let u = (reconcile_completed_sync q (holds (obj fs)) allow_effect at t).1 in
      (reconcile_completed_sync q (holds (obj fs)) allow_effect later u ≡ (ok tt, u))
      × (begin_sync (λ u. u) later lease_seconds q owner recovery later u
          ≡ (ok (replay (obj fs)), u))
unfolding reconcile_completed_sync
repair_closes_receipt lease_seconds t q fs allow_effect at later r owner recovery h open_ e =
    let closed = reconcile-find q (holds (obj fs)) allow_effect at t r h open_ e in
    (
      grind (arith, closed.0, closed.1, json_eq_refl (obj fs)),
      begin-completed (λ u. u) later lease_seconds q owner recovery later _
            (completed_receipt (holds (obj fs)) at r) fs closed.1 refl refl
          ∙ grind (arith, closed.0),
    )
