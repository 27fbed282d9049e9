-- ===== src/Receipts/Fencing.antt =====
-- services/idempotency.py: who may act on a receipt, by its owner token and its lease.
use study_loop.Base.{
  Bool, Option-cases, String, ap, arith, col_is, eq_iff, eq_refl, false, inl, inr, is_some, none,
  some, sym, true, ℕ, ◌&&◌, ◌<◌, ◌∙◌, ◌≡◌, ◌≢◌,
}
use study_loop.Base.Result.{err, ok}
use study_loop.Json.{JsonText}
use study_loop.Receipts.Begin.{
  begin_existing, begin_sync, begin_sync-absent, begin_sync-existing, claim_new, claim_new-existing,
}
use study_loop.Receipts.Owner.{abort_sync, complete_sync, mark_effect_started_sync, renew_sync}
use study_loop.Receipts.Receipt.{
  Receipt, ReceiptLease, Request, conflict, granted, is_pending_v2, live, receipt_not_completable,
  receipt_not_pending,
}
use study_loop.Table.{Table, find, find-put}

-- The row of the key is owned by this token.
abbrev pub owned_by : String → String → Table Receipt → Bool
owned_by k owner t = elim (find k t) [ none ↦ false | some r ↦ col_is r.owner_token owner ]

abbrev pub leased_until : String → ℕ → Table Receipt → Bool
leased_until k time t = elim (find k t) [
  | none ↦ false
  | some r ↦ is_pending_v2 r.state && (live r.lease_expires_at time && is_some r.recovery_token)
]

-- A call with a token that does not own the row fails in the way of its kind, and changes nothing.
pub stale_owner_fenced :
    (lease_seconds : ℕ) (k owner tool : String) (response : JsonText) (now : ℕ) (t : Table Receipt)
    → owned_by k owner t ≡ false
    → (mark_effect_started_sync k owner tool now t ≡ (err (conflict receipt_not_pending), t))
      × (complete_sync k owner response now t ≡ (err (conflict receipt_not_completable), t))
      × (renew_sync lease_seconds k owner now t ≡ (none, t))
      × ((abort_sync k owner now t).1 ≡ t)
unfolding mark_effect_started_sync complete_sync renew_sync abort_sync
stale_owner_fenced lease_seconds k owner tool response now t h =
    (grind arith, grind arith, grind arith, grind arith)

module _ (between : Table Receipt → Table Receipt) (later lease_seconds : ℕ) (q : Request)
    (owner recovery : String) (now : ℕ) (t : Table Receipt) (lease : ReceiptLease) where
  -- A granted lease names the row's owner and its expiry.
  pub granted-owned_by :
      (begin_sync between later lease_seconds q owner recovery now t).0 ≡ ok (granted lease)
      → owned_by q.key owner (begin_sync between later lease_seconds q owner recovery now t).1
        ≡ true
  unfolding begin_sync
  granted-owned_by e = grind (arith, find-put, eq_iff, eq_refl)

owned_by_one :
    (k a b : String) (t : Table Receipt) → owned_by k a t ≡ true → b ≢ a → owned_by k b t ≡ false
owned_by_one k a b t h ne = grind (arith, eq_iff)

module _ (between : Table Receipt → Table Receipt) (later lease_seconds : ℕ) (q : Request)
    (owner recovery : String) (now : ℕ) (t : Table Receipt) (lease : ReceiptLease)
    (e : (begin_sync between later lease_seconds q owner recovery now t).0
      ≡ ok (granted lease)) where
  -- Whenever `begin` grants a claim to one token, also by taking over the expired claim of another
  -- process, every other token fails on the new table: it can mark no effect, complete nothing and
  -- extend no lease, and an abort with it changes nothing.
  pub takeover_fences_old_owner :
      (old tool : String) (response : JsonText) (at : ℕ)
      → old ≢ owner
      → let t' = (begin_sync between later lease_seconds q owner recovery now t).1 in
        (mark_effect_started_sync q.key old tool at t' ≡ (err (conflict receipt_not_pending), t'))
        × (complete_sync q.key old response at t' ≡ (err (conflict receipt_not_completable), t'))
        × (renew_sync lease_seconds q.key old at t' ≡ (none, t'))
        × ((abort_sync q.key old at t').1 ≡ t')
  takeover_fences_old_owner old tool response at ne =
      stale_owner_fenced lease_seconds q.key old tool response at _ (
        owned_by_one q.key owner old _
          (granted-owned_by between later lease_seconds q owner recovery now t lease e) ne)

-- The same for the lease: it stands in the row until its expiry.
existing-leased_until :
    (lease_seconds : ℕ) (q : Request) (owner : String) (now time : ℕ) (row : Receipt)
    (t : Table Receipt) (lease : ReceiptLease)
    → find q.key t ≡ some row
    → (begin_existing lease_seconds q owner now row t).0 ≡ ok (granted lease)
    → time < lease.expires_at
    → leased_until q.key time (begin_existing lease_seconds q owner now row t).1 ≡ true
unfolding begin_existing
existing-leased_until lease_seconds q owner now time row t lease h e before =
    grind (arith, find-put, eq_refl)

inserted-leased_until :
    (later lease_seconds : ℕ) (q : Request) (owner recovery : String) (now time : ℕ)
    (t : Table Receipt) (lease : ReceiptLease)
    → find q.key t ≡ none
    → (claim_new later lease_seconds q owner recovery now t).0 ≡ ok (granted lease)
    → time < lease.expires_at
    → leased_until q.key time (claim_new later lease_seconds q owner recovery now t).1 ≡ true
unfolding claim_new
inserted-leased_until later lease_seconds q owner recovery now time t lease h e before =
    grind (arith, find-put, eq_refl)

claim_new-leased_until :
    (later lease_seconds : ℕ) (q : Request) (owner recovery : String) (now time : ℕ)
    (t : Table Receipt) (lease : ReceiptLease)
    → (claim_new later lease_seconds q owner recovery now t).0 ≡ ok (granted lease)
    → time < lease.expires_at
    → leased_until q.key time (claim_new later lease_seconds q owner recovery now t).1 ≡ true
claim_new-leased_until later lease_seconds q owner recovery now time t lease e before =
    elim (Option-cases (find q.key t)) [
      | inl absent ↦
          inserted-leased_until later lease_seconds q owner recovery now time t lease absent e
            before
      | inr (row, there) ↦
          let same = claim_new-existing later lease_seconds q owner recovery now t row there in
          rw same (
            existing-leased_until lease_seconds q owner later time row t lease there
              (sym (ap (λ x. x.0) same) ∙ e) before)
    ]

granted-leased_until :
    (between : Table Receipt → Table Receipt) (later lease_seconds : ℕ) (q : Request)
    (owner recovery : String) (now time : ℕ) (t : Table Receipt) (lease : ReceiptLease)
    → (begin_sync between later lease_seconds q owner recovery now t).0 ≡ ok (granted lease)
    → time < lease.expires_at
    → leased_until q.key time (begin_sync between later lease_seconds q owner recovery now t).1
      ≡ true
granted-leased_until between later lease_seconds q owner recovery now time t lease e before =
    elim (Option-cases (find q.key t)) [
      | inl absent ↦
          let same = begin_sync-absent between later lease_seconds q owner recovery now t absent in
          rw same (
            claim_new-leased_until later lease_seconds q owner recovery now time (between t) lease
              (sym (ap (λ x. x.0) same) ∙ e) before)
      | inr (row, there) ↦
          let same =
            begin_sync-existing between later lease_seconds q owner recovery now t row there in
          rw same (
            existing-leased_until lease_seconds q owner now time row t lease there
              (sym (ap (λ x. x.0) same) ∙ e) before)
    ]

leased_refuses :
    (between : Table Receipt → Table Receipt) (later lease_seconds : ℕ) (q : Request)
    (owner recovery : String) (now : ℕ) (t : Table Receipt)
    → leased_until q.key now t ≡ true
    → ((begin_sync between later lease_seconds q owner recovery now t).1 ≡ t)
      × ((lease : ReceiptLease)
          → (begin_sync between later lease_seconds q owner recovery now t).0 ≢ ok (granted lease))
unfolding begin_sync
leased_refuses between later lease_seconds q owner recovery now t h =
    (grind arith, λ lease e. grind arith)

-- While a granted lease has not expired, every further `begin` of the key is refused, whatever
-- request it makes, and leaves the table alone.
pub live_lease_excludes :
    (between : Table Receipt → Table Receipt) (later lease_seconds : ℕ) (q q' : Request)
    (owner recovery owner' recovery' : String) (now now' : ℕ) (t : Table Receipt)
    (lease lease' : ReceiptLease)
    → (begin_sync between later lease_seconds q owner recovery now t).0 ≡ ok (granted lease)
    → now' < lease.expires_at
    → q'.key ≡ q.key
    → let t' = (begin_sync between later lease_seconds q owner recovery now t).1 in
      ((begin_sync between later lease_seconds q' owner' recovery' now' t').1 ≡ t')
      × ((begin_sync between later lease_seconds q' owner' recovery' now' t').0
          ≢ ok (granted lease'))
live_lease_excludes between later lease_seconds q q' owner recovery owner' recovery' now now' t
      lease lease' e before same =
    let (kept, refused) = leased_refuses between later lease_seconds q' owner' recovery' now' _ (
      rw same (
        granted-leased_until between later lease_seconds q owner recovery now now' t lease e
          before)) in
    (kept, refused lease')

-- `renew` never shortens the lease of a live claim.
pub renew_keeps_lease :
    (lease_seconds : ℕ) (k owner : String) (now time : ℕ) (t : Table Receipt)
    → leased_until k time t ≡ true
    → leased_until k time (renew_sync lease_seconds k owner now t).1 ≡ true
unfolding renew_sync
renew_keeps_lease lease_seconds k owner now time t h = grind (arith, find-put, eq_refl)
