-- ===== src/Receipts/Sealed.antt =====
-- services/idempotency.py: the receipts that are not reclaimable, through the calls of a history.
use study_loop.Base.{
  Bool, List, String, [], arith, eq_iff, eq_refl, false, none, not, some, true, ℕ, ◌∷◌, ◌≡◌, ◌≢◌,
}
use study_loop.Base.Result.{ok}
use study_loop.Json.{JsonText}
use study_loop.Receipts.Begin.{begin_sync}
use study_loop.Receipts.History.{
  Call, abort, begin, complete, mark_effect_started, reconcile_completed, renew, run, step,
}
use study_loop.Receipts.Owner.{abort_sync, complete_sync, mark_effect_started_sync, renew_sync}
use study_loop.Receipts.Receipt.{Receipt, ReceiptLease, Request, granted, is_pending_v2}
use study_loop.Receipts.Repair.{reconcile_completed_sync}
use study_loop.Table.{Table, find, find-put, find-remove}

-- A receipt of the key that is not 'pending_v2': it has started an effect, is completed, or is
-- one that an older version wrote.
abbrev pub sealed_at : String → Table Receipt → Bool
sealed_at k t = elim (find k t) [ none ↦ false | some r ↦ not (is_pending_v2 r.state) ]

module _ (lease_seconds : ℕ) (k : String) (t : Table Receipt) where
  sealed-begin :
      (q : Request) (owner recovery : String) (now : ℕ)
      → sealed_at k t ≡ true
      → sealed_at k (begin_sync (λ u. u) now lease_seconds q owner recovery now t).1 ≡ true
  unfolding begin_sync
  sealed-begin q owner recovery now h = grind (arith, find-put, eq_iff)

  sealed-renew :
      (key owner : String) (now : ℕ)
      → sealed_at k t ≡ true
      → sealed_at k (renew_sync lease_seconds key owner now t).1 ≡ true
  unfolding renew_sync
  sealed-renew key owner now h = grind (arith, find-put, eq_iff)

module _ (k : String) (t : Table Receipt) where
  sealed-mark :
      (key owner tool : String) (now : ℕ)
      → sealed_at k t ≡ true
      → sealed_at k (mark_effect_started_sync key owner tool now t).1 ≡ true
  unfolding mark_effect_started_sync
  sealed-mark key owner tool now h = grind (arith, find-put, eq_iff)

  sealed_complete :
      (key owner : String) (response : JsonText) (now : ℕ)
      → sealed_at k t ≡ true
      → sealed_at k (complete_sync key owner response now t).1 ≡ true
  unfolding complete_sync
  sealed_complete key owner response now h = grind (arith, find-put, eq_iff)

  sealed-reconcile :
      (q : Request) (response : JsonText) (allow_effect : Bool) (now : ℕ)
      → sealed_at k t ≡ true
      → sealed_at k (reconcile_completed_sync q response allow_effect now t).1 ≡ true
  unfolding reconcile_completed_sync
  sealed-reconcile q response allow_effect now h = grind (arith, find-put, eq_iff)

  sealed-abort :
      (key owner : String) (now : ℕ)
      → sealed_at k t ≡ true
      → sealed_at k (abort_sync key owner now t).1 ≡ true
  unfolding abort_sync
  sealed-abort key owner now h = grind (arith, find-put, find-remove, eq_iff)

module _ (lease_seconds : ℕ) (k : String) where
  -- No call makes a sealed receipt reclaimable, and none deletes it.
  pub step-sealed :
      (t : Table Receipt) (c : ℕ × Call)
      → sealed_at k t ≡ true
      → sealed_at k (step lease_seconds t c) ≡ true
  unfolding step
  step-sealed t (now, begin q owner recovery) h =
      sealed-begin lease_seconds k t q owner recovery now h
  step-sealed t (now, renew key owner) h = sealed-renew lease_seconds k t key owner now h
  step-sealed t (now, mark_effect_started key owner tool) h = sealed-mark k t key owner tool now h
  step-sealed t (now, complete key owner response) h = sealed_complete k t key owner response now h
  step-sealed t (now, reconcile_completed q response allow_effect) h =
      sealed-reconcile k t q response allow_effect now h
  step-sealed t (now, abort key owner) h = sealed-abort k t key owner now h

  -- A receipt that is not 'pending_v2' stays so through any history of calls: none deletes it or
  -- makes it reclaimable again.
  pub run-sealed :
      (t : Table Receipt) (cs : List (ℕ × Call))
      → sealed_at k t ≡ true
      → sealed_at k (run lease_seconds t cs) ≡ true
  unfolding run
  run-sealed t [] h = h
  run-sealed t (c ∷ cs) h = run-sealed (step lease_seconds t c) cs (step-sealed t c h)

-- A sealed receipt grants no lease, whoever asks and whatever else commits meanwhile.
pub sealed_never_granted :
    (between : Table Receipt → Table Receipt) (later lease_seconds : ℕ) (q : Request)
    (owner recovery : String) (now : ℕ) (t : Table Receipt) (lease : ReceiptLease)
    → sealed_at q.key t ≡ true
    → (begin_sync between later lease_seconds q owner recovery now t).0 ≢ ok (granted lease)
unfolding begin_sync
sealed_never_granted between later lease_seconds q owner recovery now t lease h e =
    grind (arith, find-put, eq_iff)

mark-sealed :
    (key owner tool : String) (now : ℕ) (t : Table Receipt)
    → (mark_effect_started_sync key owner tool now t).0 ≡ ok tt
    → sealed_at key (mark_effect_started_sync key owner tool now t).1 ≡ true
unfolding mark_effect_started_sync
mark-sealed key owner tool now t e = grind (arith, find-put, eq_refl)

complete-sealed :
    (key owner : String) (response : JsonText) (now : ℕ) (t : Table Receipt)
    → (complete_sync key owner response now t).0 ≡ ok tt
    → sealed_at key (complete_sync key owner response now t).1 ≡ true
unfolding complete_sync
complete-sealed key owner response now t e = grind (arith, find-put, eq_refl)

module _ (lease_seconds : ℕ) (t : Table Receipt) (cs : List (ℕ × Call)) where
  -- Once `mark_effect_started` has succeeded for a key, no `begin` of that key is ever granted a
  -- lease again: not after any history of calls by any process, at any times, under any tokens.
  pub effect_starts_once :
      (q : Request) (owner tool : String) (at : ℕ) (new_owner recovery : String) (now : ℕ)
      (lease : ReceiptLease)
      → (mark_effect_started_sync q.key owner tool at t).0 ≡ ok tt
      → (begin_sync
          (λ u. u)
          now
          lease_seconds
          q
          new_owner
          recovery
          now
          (run lease_seconds (mark_effect_started_sync q.key owner tool at t).1 cs)).0
        ≢ ok (granted lease)
  effect_starts_once q owner tool at new_owner recovery now lease e =
      sealed_never_granted (λ u. u) now lease_seconds q new_owner recovery now _ lease
        (run-sealed lease_seconds q.key _ cs (mark-sealed q.key owner tool at t e))
