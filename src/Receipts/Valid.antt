-- ===== src/Receipts/Valid.antt =====
-- services/idempotency.py: the columns that each state of a receipt asks for.
use study_loop.Base.{
  Bool, List, String, [], arith, eq_iff, inl, inr, is_none, is_some, none, some, true, truthy, ℕ,
  ◌&&◌, ◌∷◌, ◌≡◌,
}
use study_loop.Json.{JsonText}
use study_loop.Receipts.Begin.{BeginWrites, begin-writes, begin_sync, new_receipt}
use study_loop.Receipts.History.{
  Call, abort, begin, complete, mark_effect_started, reconcile_completed, renew, run, step,
}
use study_loop.Receipts.Owner.{
  RenewWrites, abort_sync, complete_sync, mark_effect_started_sync, renew-writes, renew_sync,
}
use study_loop.Receipts.Receipt.{
  Receipt, ReceiptState, Request, ambiguous, completed, effect_started_v2, pending_v2,
}
use study_loop.Receipts.Repair.{reconcile_completed_sync}
use study_loop.Table.{Table, find, find-put, find-remove}

abbrev pub row_valid_by : ReceiptState → Receipt → Bool
row_valid_by pending_v2 r =
    truthy r.owner_token
    && (is_some r.lease_expires_at && (truthy r.recovery_token && is_none r.response_json))
row_valid_by effect_started_v2 r =
    truthy r.owner_token && (is_none r.lease_expires_at && is_some r.effect_tool)
row_valid_by completed r =
    is_none r.owner_token && (is_none r.lease_expires_at && is_some r.response_json)
row_valid_by ambiguous r = is_none r.owner_token && is_none r.lease_expires_at
row_valid_by _ r = true

-- The row of the key, if there is one, has the columns that its state asks for.
abbrev pub valid_at : String → Table Receipt → Bool
valid_at k t = elim (find k t) [ none ↦ true | some r ↦ row_valid_by r.state r ]

-- secrets.token_urlsafe returns no empty text.
abbrev pub fresh_tokens : Call → Bool
fresh_tokens (begin q owner recovery) = truthy (some owner) && truthy (some recovery)
fresh_tokens _ = true

module _ (lease_seconds : ℕ) (k : String) (t : Table Receipt) where
  valid-BeginWrites :
      (q : Request) (owner recovery : String) (now : ℕ) (t' : Table Receipt)
      → BeginWrites lease_seconds q owner recovery now t t'
      → valid_at k t ≡ true
      → fresh_tokens (begin q owner recovery) ≡ true
      → valid_at k t' ≡ true
  unfolding new_receipt
  valid-BeginWrites q owner recovery now t' (inl kept) h f = rw kept h
  valid-BeginWrites q owner recovery now t' (inr (inl (absent, w))) h f =
      grind (arith, find-put, eq_iff)
  valid-BeginWrites q owner recovery now t' (inr (inr (row, there, state, w))) h f =
      grind (arith, find-put, eq_iff)

  valid-begin :
      (q : Request) (owner recovery : String) (now : ℕ)
      → valid_at k t ≡ true
      → fresh_tokens (begin q owner recovery) ≡ true
      → valid_at k (begin_sync (λ u. u) now lease_seconds q owner recovery now t).1 ≡ true
  valid-begin q owner recovery now h f =
      valid-BeginWrites q owner recovery now _ (begin-writes lease_seconds q owner recovery now t) h
        f

  valid-RenewWrites :
      (key : String) (now : ℕ) (t' : Table Receipt)
      → RenewWrites lease_seconds key now t t'
      → valid_at k t ≡ true
      → valid_at k t' ≡ true
  valid-RenewWrites key now t' (inl kept) h = rw kept h
  valid-RenewWrites key now t' (inr (row, there, inl (state, w))) h =
      grind (arith, find-put, eq_iff)
  valid-RenewWrites key now t' (inr (row, there, inr (state, w))) h =
      grind (arith, find-put, eq_iff)

  valid-renew :
      (key owner : String) (now : ℕ)
      → valid_at k t ≡ true
      → valid_at k (renew_sync lease_seconds key owner now t).1 ≡ true
  valid-renew key owner now h =
      valid-RenewWrites key now _ (renew-writes lease_seconds key owner now t) h

  valid-mark :
      (key owner tool : String) (now : ℕ)
      → valid_at k t ≡ true
      → valid_at k (mark_effect_started_sync key owner tool now t).1 ≡ true
  unfolding mark_effect_started_sync
  valid-mark key owner tool now h = grind (arith, find-put, eq_iff)

  valid_complete :
      (key owner : String) (response : JsonText) (now : ℕ)
      → valid_at k t ≡ true
      → valid_at k (complete_sync key owner response now t).1 ≡ true
  unfolding complete_sync
  valid_complete key owner response now h = grind (arith, find-put, eq_iff)

  valid-reconcile :
      (q : Request) (response : JsonText) (allow_effect : Bool) (now : ℕ)
      → valid_at k t ≡ true
      → valid_at k (reconcile_completed_sync q response allow_effect now t).1 ≡ true
  unfolding reconcile_completed_sync
  valid-reconcile q response allow_effect now h = grind (arith, find-put, eq_iff)

  valid-abort :
      (key owner : String) (now : ℕ)
      → valid_at k t ≡ true
      → valid_at k (abort_sync key owner now t).1 ≡ true
  unfolding abort_sync
  valid-abort key owner now h = grind (arith, find-put, find-remove, eq_iff)

module _ (lease_seconds : ℕ) (k : String) where
  step-valid :
      (t : Table Receipt) (now : ℕ) (c : Call)
      → valid_at k t ≡ true
      → fresh_tokens c ≡ true
      → valid_at k (step lease_seconds t (now, c)) ≡ true
  unfolding step
  step-valid t now (begin q owner recovery) h f =
      valid-begin lease_seconds k t q owner recovery now h f
  step-valid t now (renew key owner) h f = valid-renew lease_seconds k t key owner now h
  step-valid t now (mark_effect_started key owner tool) h f =
      valid-mark lease_seconds k t key owner tool now h
  step-valid t now (complete key owner response) h f =
      valid_complete lease_seconds k t key owner response now h
  step-valid t now (reconcile_completed q response allow_effect) h f =
      valid-reconcile lease_seconds k t q response allow_effect now h
  step-valid t now (abort key owner) h f = valid-abort lease_seconds k t key owner now h

  abbrev all_fresh : List (ℕ × Call) → Bool
  all_fresh [] = true
  all_fresh ((now, c) ∷ cs) = fresh_tokens c && all_fresh cs

  -- Any history of calls with non-empty tokens keeps every row in the form that its state asks for:
  -- a claim has owner, lease and recovery token and no response, a started effect an owner, a tool
  -- and no lease, and a completed or ambiguous receipt neither owner nor lease.
  pub run-valid :
      (t : Table Receipt) (cs : List (ℕ × Call))
      → valid_at k t ≡ true
      → all_fresh cs ≡ true
      → valid_at k (run lease_seconds t cs) ≡ true
  unfolding run
  run-valid t [] h f = h
  run-valid t ((now, c) ∷ cs) h f =
      run-valid (step lease_seconds t (now, c)) cs (step-valid t now c h (ground arith))
        (ground arith)
