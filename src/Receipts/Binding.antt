-- ===== src/Receipts/Binding.antt =====
-- services/idempotency.py: the columns of a row that its request sets, the rows that a call touches, and
-- the answer of `_abort_sync`.
use study_loop.Base.{
  Bool, String, arith, col_is, eq_iff, eq_refl, false, inl, inr, none, some, ℕ, ◌&&◌, ◌||◌, ◌≡◌,
  ◌≢◌,
}
use study_loop.Receipts.Begin.{BeginWrites, begin-writes}
use study_loop.Receipts.History.{
  Call, abort, begin, complete, mark_effect_started, reconcile_completed, renew, step,
}
use study_loop.Receipts.Owner.{RenewWrites, abort_sync, has_effect_started_sync, renew-writes}
use study_loop.Receipts.Receipt.{Receipt, Request, is_effect_started_v2, is_pending_v2}
use study_loop.Receipts.Repair.{reconcile_completed_sync}
use study_loop.Table.{Table, find, find-put, find-remove}

-- What a call may not change in a row that it leaves in place.
pub record SameBinding (r s : Receipt) : Type 0 where
  pub operation : s.operation ≡ r.operation
  pub fingerprint : s.fingerprint ≡ r.fingerprint
  pub recovery_token : s.recovery_token ≡ r.recovery_token
  pub created_at : s.created_at ≡ r.created_at

BeginWrites-SameBinding :
    (lease_seconds : ℕ) (k : String) (q : Request) (owner recovery : String) (now : ℕ)
    (t t' : Table Receipt) (r s : Receipt)
    → BeginWrites lease_seconds q owner recovery now t t'
    → find k t ≡ some r
    → find k t' ≡ some s
    → SameBinding r s
BeginWrites-SameBinding lease_seconds k q owner recovery now t t' r s (inl kept) h e = grind arith
BeginWrites-SameBinding lease_seconds k q owner recovery now t t' r s (inr (inl (absent, w))) h e =
    grind (arith, find-put, eq_iff)
BeginWrites-SameBinding lease_seconds k q owner recovery now t t' r s
      (inr (inr (row, there, state, w))) h e =
    grind (arith, find-put, eq_iff)

RenewWrites-SameBinding :
    (lease_seconds : ℕ) (k key : String) (now : ℕ) (t t' : Table Receipt) (r s : Receipt)
    → RenewWrites lease_seconds key now t t'
    → find k t ≡ some r
    → find k t' ≡ some s
    → SameBinding r s
RenewWrites-SameBinding lease_seconds k key now t t' r s (inl kept) h e = grind arith
RenewWrites-SameBinding lease_seconds k key now t t' r s (inr (row, there, inl (state, w))) h e =
    grind (arith, find-put, eq_iff)
RenewWrites-SameBinding lease_seconds k key now t t' r s (inr (row, there, inr (state, w))) h e =
    grind (arith, find-put, eq_iff)

-- No call rebinds a receipt: as long as the row of a key stands, its operation, fingerprint,
-- recovery token and creation time are the ones that it was inserted with.
pub step-SameBinding :
    (lease_seconds : ℕ) (k : String) (t : Table Receipt) (c : ℕ × Call) (r s : Receipt)
    → find k t ≡ some r
    → find k (step lease_seconds t c) ≡ some s
    → SameBinding r s
unfolding step reconcile_completed_sync abort_sync
step-SameBinding lease_seconds k t (now, begin q owner recovery) r s h e =
    BeginWrites-SameBinding lease_seconds k q owner recovery now t _ r s
      (begin-writes lease_seconds q owner recovery now t) h e
step-SameBinding lease_seconds k t (now, renew key owner) r s h e =
    RenewWrites-SameBinding lease_seconds k key now t _ r s
      (renew-writes lease_seconds key owner now t) h e
step-SameBinding lease_seconds k t (now, mark_effect_started key owner tool) r s h e =
    grind (arith, find-put, eq_iff)
step-SameBinding lease_seconds k t (now, complete key owner response) r s h e =
    grind (arith, find-put, eq_iff)
step-SameBinding lease_seconds k t (now, reconcile_completed q response allow_effect) r s h e =
    grind (arith, find-put, eq_iff)
step-SameBinding lease_seconds k t (now, abort key owner) r s h e =
    grind (arith, find-put, find-remove, eq_iff)

abbrev pub key_of : Call → String
key_of (begin q owner recovery) = q.key
key_of (renew key owner) = key
key_of (mark_effect_started key owner tool) = key
key_of (complete key owner response) = key
key_of (reconcile_completed q response allow_effect) = q.key
key_of (abort key owner) = key

-- A call reads and writes the row of its own key alone.
pub step-other_key :
    (lease_seconds : ℕ) (k : String) (t : Table Receipt) (now : ℕ) (c : Call)
    → key_of c ≢ k
    → find k (step lease_seconds t (now, c)) ≡ find k t
unfolding step reconcile_completed_sync abort_sync
step-other_key lease_seconds k t now (begin q owner recovery) ne = grind (arith, find-put, eq_iff)
step-other_key lease_seconds k t now (renew key owner) ne = grind (arith, find-put, eq_iff)
step-other_key lease_seconds k t now (mark_effect_started key owner tool) ne =
    grind (arith, find-put, eq_iff)
step-other_key lease_seconds k t now (complete key owner response) ne =
    grind (arith, find-put, eq_iff)
step-other_key lease_seconds k t now (reconcile_completed q response allow_effect) ne =
    grind (arith, find-put, eq_iff)
step-other_key lease_seconds k t now (abort key owner) ne =
    grind (arith, find-put, find-remove, eq_iff)

-- The token of a claim that is still open: a pending claim, or one that has started an effect.
abbrev pub open_claim : String → String → Table Receipt → Bool
open_claim k owner t = elim (find k t) [
  | none ↦ false
  | some r ↦ col_is r.owner_token owner && (is_pending_v2 r.state || is_effect_started_v2 r.state)
]

-- `abort` returns true exactly when the table, afterwards, records an effect under the key, so that
-- the caller may not retry; and afterwards the token has no open claim on the key.
pub abort_reports_effect :
    (k owner : String) (now : ℕ) (t : Table Receipt)
    → ((abort_sync k owner now t).0 ≡ has_effect_started_sync k (abort_sync k owner now t).1)
      × (open_claim k owner (abort_sync k owner now t).1 ≡ false)
unfolding abort_sync has_effect_started_sync
abort_reports_effect k owner now t =
    (grind (arith, find-put, find-remove, eq_refl), grind (arith, find-put, find-remove, eq_refl))
