-- ===== src/Receipts/Begin.antt =====
-- services/idempotency.py: `_begin_sync`, which claims a key, takes an expired claim over, replays
-- a completed response, or refuses.
use study_loop.Base.{
  Option, Option-cases, String, ap, arith, col_is, if◌then◌else◌, inl, inr, ltb, none, some, str_eq,
  ℕ, ◌&&◌, ◌+◌, ◌||◌, ◌∙◌, ◌≡◌, ◌⊎◌,
}
use study_loop.Base.Result.{err, ok}
use study_loop.Json.{JsonText, blank, holds, obj}
use study_loop.Receipts.Receipt.{
  BeginDecision, Receipt, ReceiptState, Request, Tx, binds, completed, disappeared, due, granted,
  in_progress, invalid_json, is_pending_v2, not_an_object, payload_mismatch, pending, pending_v2,
  refuse, replay, unclear,
}
use study_loop.Table.{Table, find, insert_or_ignore, put, update_where}

-- The receipt of a fresh claim, in the order of the INSERT.
unfoldable pub new_receipt : ℕ → Request → String → String → ℕ → Receipt
new_receipt lease_seconds q owner recovery now = record {
  operation = q.operation;
  fingerprint = q.fingerprint;
  state = pending_v2;
  response_json = none;
  effect_tool = none;
  owner_token = some owner;
  recovery_token = some recovery;
  lease_expires_at = some (now + lease_seconds);
  created_at = now;
  updated_at = now;
}

-- A completed receipt answers with the object that it stores.
unfoldable pub answer : JsonText → Tx BeginDecision
answer (holds (obj fs)) t = (ok (replay (obj fs)), t)
answer (holds _) t = (err not_an_object, t)
answer _ t = (err invalid_json, t)

unfoldable pub replay_stored : Option JsonText → Tx BeginDecision
unfolding answer
replay_stored none = refuse unclear
replay_stored (some blank) = refuse unclear
replay_stored (some text) = answer text

-- The guarded UPDATE that takes an expired claim over.
unfoldable pub take_over : ℕ → Request → String → ℕ → String → String → Tx BeginDecision
unfolding update_where
take_over lease_seconds q owner now old recovery t =
    let (t', updated) =
      update_where q.key
        (λ r. is_pending_v2 r.state && (col_is r.owner_token old && due r.lease_expires_at now))
        (λ r. record r {
          owner_token = some owner;
          lease_expires_at = some (now + lease_seconds);
          updated_at = now;
        })
        t in
    if updated
    then (
      ok (
          granted (record {
            key = q.key;
            owner_token = owner;
            recovery_token = recovery;
            expires_at = now + lease_seconds;
          })),
      t',
    )
    else refuse in_progress t

-- A pending_v2 receipt: broken, still leased, or free to be taken over.
unfoldable pub reclaim :
    ℕ → Request → String → ℕ → Option String → Option ℕ → Option String → Tx BeginDecision
unfolding take_over
reclaim lease_seconds q owner now (some old) (some expiry) (some recovery) t =
    if str_eq old "" || str_eq recovery ""
    then refuse unclear t
    else if ltb now expiry
    then refuse in_progress t
    else take_over lease_seconds q owner now old recovery t
reclaim lease_seconds q owner now _ _ _ t = refuse unclear t

unfoldable pub begin_by_state : ℕ → Request → String → ℕ → Receipt → ReceiptState → Tx BeginDecision
unfolding replay_stored reclaim
begin_by_state lease_seconds q owner now row completed t = replay_stored row.response_json t
begin_by_state lease_seconds q owner now row pending t = refuse in_progress t
begin_by_state lease_seconds q owner now row pending_v2 t =
    reclaim lease_seconds q owner now row.owner_token row.lease_expires_at row.recovery_token t
begin_by_state lease_seconds q owner now row _ t = refuse unclear t

-- `_begin_sync` once a receipt of the key has been read.
unfoldable pub begin_existing : ℕ → Request → String → ℕ → Receipt → Tx BeginDecision
unfolding begin_by_state
begin_existing lease_seconds q owner now row t =
    if binds row q
    then begin_by_state lease_seconds q owner now row row.state t
    else refuse payload_mismatch t

-- The INSERT, and what follows where another transaction has inserted the key before it.
unfoldable pub claim_new : ℕ → ℕ → Request → String → String → ℕ → Tx BeginDecision
unfolding begin_existing new_receipt insert_or_ignore
claim_new later lease_seconds q owner recovery now t =
    let (t', inserted) =
      insert_or_ignore q.key (new_receipt lease_seconds q owner recovery now) t in
    if inserted
    then (
      ok (
          granted (record {
            key = q.key;
            owner_token = owner;
            recovery_token = recovery;
            expires_at = now + lease_seconds;
          })),
      t',
    )
    else elim (find q.key t) [
      | none ↦ (err disappeared, t)
      | some row ↦ begin_existing lease_seconds q owner later row t
    ]

-- `_begin_sync`. Where no receipt is there to lock, `between` is what other transactions commit
-- between the SELECT and the INSERT, and `later` the time that is read after an ignored INSERT.
-- Under BEGIN IMMEDIATE, in SQLite, `between` changes nothing.
unfoldable pub begin_sync :
    (Table Receipt → Table Receipt) → ℕ → ℕ → Request → String → String → ℕ → Tx BeginDecision
unfolding claim_new
begin_sync between later lease_seconds q owner recovery now t = elim (find q.key t) [
  | none ↦ claim_new later lease_seconds q owner recovery now (between t)
  | some row ↦ begin_existing lease_seconds q owner now row t
]

module _ (between : Table Receipt → Table Receipt) (later lease_seconds : ℕ) (q : Request)
    (owner recovery : String) (now : ℕ) (t : Table Receipt) where
  pub begin_sync-existing :
      (row : Receipt)
      → find q.key t ≡ some row
      → begin_sync between later lease_seconds q owner recovery now t
        ≡ begin_existing lease_seconds q owner now row t
  unfolding begin_sync
  begin_sync-existing row there = ground arith

  pub begin_sync-absent :
      find q.key t ≡ none
      → begin_sync between later lease_seconds q owner recovery now t
        ≡ claim_new later lease_seconds q owner recovery now (between t)
  unfolding begin_sync
  begin_sync-absent absent = ground arith

pub claim_new-existing :
    (later lease_seconds : ℕ) (q : Request) (owner recovery : String) (now : ℕ) (t : Table Receipt)
    (row : Receipt)
    → find q.key t ≡ some row
    → claim_new later lease_seconds q owner recovery now t
      ≡ begin_existing lease_seconds q owner later row t
unfolding claim_new
claim_new-existing later lease_seconds q owner recovery now t row there = ground arith

abbrev time_of_claim : Option Receipt → ℕ → ℕ → ℕ
time_of_claim none now later = now
time_of_claim (some row) now later = later

-- Losing a race is the same as coming late: a `begin` that finds no receipt answers, and changes
-- the table, as one undisturbed `begin` does after all that the other transactions committed.
pub begin_linearizes :
    (between : Table Receipt → Table Receipt) (later lease_seconds : ℕ) (q : Request)
    (owner recovery : String) (now : ℕ) (t : Table Receipt)
    → find q.key t ≡ none
    → let time = time_of_claim (find q.key (between t)) now later in
      begin_sync between later lease_seconds q owner recovery now t
      ≡ begin_sync (λ u. u) time lease_seconds q owner recovery time (between t)
unfolding begin_sync
begin_linearizes between later lease_seconds q owner recovery now t absent = grind arith

-- The row that `take_over` leaves.
abbrev pub taken_over : ℕ → String → ℕ → Receipt → Receipt
taken_over lease_seconds owner now r = record r {
  owner_token = some owner;
  lease_expires_at = some (now + lease_seconds);
  updated_at = now;
}

-- What an undisturbed `begin` writes: nothing, a new row, or the taken over row.
abbrev pub BeginWrites : ℕ → Request → String → String → ℕ → Table Receipt → Table Receipt → Type 0
BeginWrites lease_seconds q owner recovery now t t' =
    (t' ≡ t)
    ⊎ (((find q.key t ≡ none) × (t' ≡ put q.key (new_receipt lease_seconds q owner recovery now) t))
        ⊎ ((row : Receipt) × (find q.key t ≡ some row)
            × (row.state ≡ pending_v2)
            × (t' ≡ put q.key (taken_over lease_seconds owner now row) t)))

existing-writes :
    (lease_seconds : ℕ) (q : Request) (owner : String) (now : ℕ) (row : Receipt) (t : Table Receipt)
    → find q.key t ≡ some row
    → ((begin_existing lease_seconds q owner now row t).1 ≡ t)
      ⊎ ((row.state ≡ pending_v2)
          × ((begin_existing lease_seconds q owner now row t).1
              ≡ put q.key (taken_over lease_seconds owner now row) t))
unfolding begin_existing
existing-writes lease_seconds q owner now row t h = grind arith

absent-writes :
    (later lease_seconds : ℕ) (q : Request) (owner recovery : String) (now : ℕ) (t : Table Receipt)
    → find q.key t ≡ none
    → (claim_new later lease_seconds q owner recovery now t).1
      ≡ put q.key (new_receipt lease_seconds q owner recovery now) t
unfolding claim_new
absent-writes later lease_seconds q owner recovery now t h = grind arith

pub begin-writes :
    (lease_seconds : ℕ) (q : Request) (owner recovery : String) (now : ℕ) (t : Table Receipt)
    → BeginWrites lease_seconds q owner recovery now t
        (begin_sync (λ u. u) now lease_seconds q owner recovery now t).1
begin-writes lease_seconds q owner recovery now t = elim (Option-cases (find q.key t)) [
  | inl absent ↦ inr (
      inl (
        absent,
        ap (λ x. x.1) (begin_sync-absent (λ u. u) now lease_seconds q owner recovery now t absent)
            ∙ absent-writes now lease_seconds q owner recovery now t absent,
      ))
  | inr (row, there) ↦
      let same =
        ap (λ x. x.1)
          (begin_sync-existing (λ u. u) now lease_seconds q owner recovery now t row there) in
      elim (existing-writes lease_seconds q owner now row t there) [
        | inl kept ↦ inl (same ∙ kept)
        | inr (open_, taken) ↦ inr (inr (row, there, open_, same ∙ taken))
      ]
]
