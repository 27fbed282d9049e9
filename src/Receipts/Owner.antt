-- ===== src/Receipts/Owner.antt =====
-- services/idempotency.py: what the owner of a claim calls: `_renew_sync`,
-- `_mark_effect_started_sync`, `_complete_sync` and `_abort_sync`; and `_has_effect_started_sync`.
use study_loop.Base.{
  Bool, Bool-cases, Option, Option-cases, String, arith, col_is, false, if◌then◌else◌, inl, inr,
  ltb, max, none, not, some, str_eq, true, truthy, ℕ, ◌&&◌, ◌+◌, ◌||◌, ◌∙◌, ◌≡◌, ◌⊎◌,
}
use study_loop.Base.Result.{ok}
use study_loop.Json.{JsonText}
use study_loop.Receipts.Receipt.{
  Receipt, ReceiptLease, ReceiptState, Tx, ambiguous, completed_receipt, effect_started,
  effect_started_v2, has_effect, is_effect_started_v2, is_pending_v2, live, pending_v2,
  receipt_not_completable, receipt_not_pending, refuse,
}
use study_loop.Table.{Table, delete_where, find, put, update_where}

-- `owner_token` is this one, and the claim is live or has started an effect: the WHERE clause of
-- `_mark_effect_started_sync` and `_complete_sync`.
abbrev pub holds_claim : String → ℕ → Receipt → Bool
holds_claim owner now r =
    col_is r.owner_token owner
    && (is_pending_v2 r.state && live r.lease_expires_at now || is_effect_started_v2 r.state)

-- The lease that `_renew_sync` writes for a live claim.
unfoldable pub extend_lease :
    ℕ → String → String → ℕ → ℕ → String → Table Receipt → Option ReceiptLease × Table Receipt
unfolding update_where
extend_lease lease_seconds key owner now expiry recovery t =
    let expires_at = max expiry (now + lease_seconds) in
    let (t', updated) =
      update_where key
        (λ r. is_pending_v2 r.state && (col_is r.owner_token owner && live r.lease_expires_at now))
        (λ r. record r { lease_expires_at = some expires_at; updated_at = now }) t in
    if updated
    then (
      some (record {
        key = key;
        owner_token = owner;
        recovery_token = recovery;
        expires_at = expires_at;
      }),
      t',
    )
    else (none, t)

unfoldable pub renew_pending :
    ℕ
    → String
    → String
    → ℕ
    → Receipt
    → Option ℕ
    → Option String
    → Table Receipt
    → Option ReceiptLease × Table Receipt
unfolding extend_lease
renew_pending lease_seconds key owner now row (some expiry) (some recovery) t =
    if is_pending_v2 row.state
      && (col_is row.owner_token owner && (not (str_eq recovery "") && ltb now expiry))
    then extend_lease lease_seconds key owner now expiry recovery t
    else (none, t)
renew_pending lease_seconds key owner now row _ _ t = (none, t)

abbrev pub or_empty : Option String → String
or_empty none = ""
or_empty (some s) = s

-- The heartbeat of a request that has started an effect, whose receipt has no lease to extend.
unfoldable pub renew_effect :
    ℕ → String → String → ℕ → Receipt → Table Receipt → Option ReceiptLease × Table Receipt
unfolding update_where
renew_effect lease_seconds key owner now row t = (
  some (record {
    key = key;
    owner_token = owner;
    recovery_token = or_empty row.recovery_token;
    expires_at = now + lease_seconds;
  }),
  (update_where key (λ r. is_effect_started_v2 r.state && col_is r.owner_token owner)
      (λ r. record r { updated_at = now }) t).0,
)

-- `_renew_sync`.
unfoldable pub renew_sync :
    ℕ → String → String → ℕ → Table Receipt → Option ReceiptLease × Table Receipt
unfolding renew_pending renew_effect
renew_sync lease_seconds key owner now t = elim (find key t) [
  | none ↦ (none, t)
  | some row ↦
      if is_effect_started_v2 row.state
        && (col_is row.owner_token owner && truthy row.recovery_token)
      then renew_effect lease_seconds key owner now row t
      else renew_pending lease_seconds key owner now row row.lease_expires_at row.recovery_token t
]

-- `_mark_effect_started_sync`.
unfoldable pub mark_effect_started_sync : String → String → String → ℕ → Tx (Unit {0})
unfolding update_where
mark_effect_started_sync key owner tool now t =
    let (t', updated) =
      update_where key (holds_claim owner now)
        (λ r. record r {
          state = effect_started_v2;
          effect_tool = some tool;
          lease_expires_at = none;
          updated_at = now;
        })
        t in
    if updated then (ok tt, t') else refuse receipt_not_pending t

-- `_complete_sync`.
unfoldable pub complete_sync : String → String → JsonText → ℕ → Tx (Unit {0})
unfolding update_where
complete_sync key owner response now t =
    let (t', updated) =
      update_where key (holds_claim owner now) (completed_receipt response now) t in
    if updated then (ok tt, t') else refuse receipt_not_completable t

unfoldable pub abort_by_state :
    String → String → ℕ → ReceiptState → Table Receipt → Bool × Table Receipt
unfolding delete_where update_where
abort_by_state key owner now pending_v2 t =
    (false, (delete_where key (λ r. is_pending_v2 r.state && col_is r.owner_token owner) t).0)
abort_by_state key owner now effect_started_v2 t =
    let (t', updated) =
      update_where key (λ r. is_effect_started_v2 r.state && col_is r.owner_token owner)
        (λ r. record r {
          state = ambiguous;
          owner_token = none;
          lease_expires_at = none;
          updated_at = now;
        })
        t in
    (updated, t')
abort_by_state key owner now effect_started t = (true, t)
abort_by_state key owner now ambiguous t = (true, t)
abort_by_state key owner now _ t = (false, t)

-- `_abort_sync`: whether an effect may have happened.
unfoldable pub abort_sync : String → String → ℕ → Table Receipt → Bool × Table Receipt
unfolding abort_by_state
abort_sync key owner now t = elim (find key t) [
  | none ↦ (false, t)
  | some row ↦
      if col_is row.owner_token owner
      then abort_by_state key owner now row.state t
      else (has_effect row.state, t)
]

-- `_has_effect_started_sync`.
unfoldable pub has_effect_started_sync : String → Table Receipt → Bool
has_effect_started_sync key t = elim (find key t) [ none ↦ false | some row ↦ has_effect row.state ]

-- The rows that `renew` leaves.
abbrev pub heartbeat : ℕ → Receipt → Receipt
heartbeat now r = record r { updated_at = now }

abbrev or_zero : Option ℕ → ℕ
or_zero none = 0
or_zero (some n) = n

abbrev pub extended : ℕ → ℕ → Receipt → Receipt
extended lease_seconds now r = record r {
  lease_expires_at = some (max (or_zero r.lease_expires_at) (now + lease_seconds));
  updated_at = now;
}

-- What `renew` writes: nothing, the heartbeat of an effect, or a later lease in a pending row.
abbrev pub RenewWrites : ℕ → String → ℕ → Table Receipt → Table Receipt → Type 0
RenewWrites lease_seconds key now t t' =
    (t' ≡ t)
    ⊎ ((row : Receipt) × (find key t ≡ some row)
        × (((row.state ≡ effect_started_v2) × (t' ≡ put key (heartbeat now row) t))
            ⊎ ((row.state ≡ pending_v2) × (t' ≡ put key (extended lease_seconds now row) t))))

module _ (lease_seconds : ℕ) (key owner : String) (now : ℕ) (row : Receipt) (t : Table Receipt)
    (there : find key t ≡ some row) where
  effect-writes :
      ((renew_effect lease_seconds key owner now row t).1 ≡ t)
      ⊎ ((row.state ≡ effect_started_v2)
          × ((renew_effect lease_seconds key owner now row t).1 ≡ put key (heartbeat now row) t))
  unfolding renew_effect
  effect-writes = grind arith

  pending-writes :
      let t' =
        (renew_pending lease_seconds key owner now row row.lease_expires_at row.recovery_token
          t).1 in
      (t' ≡ t) ⊎ ((row.state ≡ pending_v2) × (t' ≡ put key (extended lease_seconds now row) t))
  unfolding renew_pending
  pending-writes = grind arith

  found-writes : RenewWrites lease_seconds key now t (renew_sync lease_seconds key owner now t).1
  unfolding renew_sync
  found-writes =
      elim (Bool-cases (
        is_effect_started_v2 row.state
        && (col_is row.owner_token owner && truthy row.recovery_token))) [
          | inl started ↦
              let same : (renew_sync lease_seconds key owner now t).1
                  ≡ (renew_effect lease_seconds key owner now row t).1 =
                ground (arith, there, started) in
              elim effect-writes [
                | inl kept ↦ inl (same ∙ kept)
                | inr (state, written) ↦ inr (row, there, inl (state, same ∙ written))
              ]
          | inr waiting ↦
              let same : (renew_sync lease_seconds key owner now t).1
                  ≡ (renew_pending lease_seconds key owner now row row.lease_expires_at
                      row.recovery_token t).1 =
                ground (arith, there, waiting) in
              elim pending-writes [
                | inl kept ↦ inl (same ∙ kept)
                | inr (state, written) ↦ inr (row, there, inr (state, same ∙ written))
              ]
        ]

pub renew-writes :
    (lease_seconds : ℕ) (key owner : String) (now : ℕ) (t : Table Receipt)
    → RenewWrites lease_seconds key now t (renew_sync lease_seconds key owner now t).1
renew-writes lease_seconds key owner now t = elim (Option-cases (find key t)) [
  | inl absent ↦ inl (unfold renew_sync in ground (arith, absent))
  | inr (row, there) ↦ found-writes lease_seconds key owner now row t there
]
