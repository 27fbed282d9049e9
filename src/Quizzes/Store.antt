-- ===== src/Quizzes/Store.antt =====
-- services/quiz_sessions.py: `_claim_sync`, `_checkpoint_sync`, `_complete_sync`, `_release_sync`,
-- `_inspect_sync` and `_find_start_sync`.
use study_loop.Base.{
  Bool, Option, String, [], col_is, false, if◌then◌else◌, is_none, leb, ltb, none, some, str_eq,
  suc, true, ℕ, ◌&&◌, ◌+◌, ◌||◌, ◌∷◌,
}
use study_loop.Base.Result.{Result, err, ok}
use study_loop.Json.{JsonText}
use study_loop.Quizzes.Row.{
  Codec, QuizRow, StoreError, StoreSettings, StoredQuizSession, disappeared, due, live,
  row_to_record, start_mismatch,
}
use study_loop.Table.{Table, find, update_where}

pub data Refusal : Type 0 where
  missing past_expiry in_progress : Refusal

-- QuizSessionClaim.
pub data QuizSessionClaim : Type 0 where
  granted : String → StoredQuizSession → QuizSessionClaim
  refused : Refusal → QuizSessionClaim

abbrev pub claimable : ℕ → QuizRow → Bool
claimable now r = ltb now r.expires_at && (is_none r.claim_token || due r.claim_expires_at now)

abbrev pub claimed_row : StoreSettings → String → String → ℕ → QuizRow → QuizRow
claimed_row st operation token now r = record r {
  claim_token = some token;
  claim_operation = some operation;
  claim_expires_at = some (now + st.operation_lease_seconds);
  updated_at = now;
}

abbrev pub refusal : ℕ → Option QuizRow → Refusal
refusal now none = missing
refusal now (some r) = if leb r.expires_at now then past_expiry else in_progress

-- The record is read back in the transaction; where that raises, the write is rolled back.
abbrev pub grant :
    Table QuizRow
    → Table QuizRow
    → String
    → Result StoreError StoredQuizSession
    → Result StoreError QuizSessionClaim × Table QuizRow
grant t t' token (ok record_) = (ok (granted token record_), t')
grant t t' token (err e) = (err e, t)

-- `_claim_sync`.
unfoldable pub claim_sync :
    Codec
    → StoreSettings
    → String
    → String
    → String
    → ℕ
    → Table QuizRow
    → Result StoreError QuizSessionClaim × Table QuizRow
unfolding row_to_record update_where
claim_sync cx st sid operation token now t =
    let (t', updated) = update_where sid (claimable now) (claimed_row st operation token now) t in
    if updated
    then elim (find sid t') [
      | none ↦ (err disappeared, t)
      | some row ↦ grant t t' token (row_to_record cx sid row now)
    ]
    else (ok (refused (refusal now (find sid t))), t)

-- The token holds a live claim on a session that has not expired, and the immutable part is the same.
abbrev pub writable : String → String → ℕ → QuizRow → Bool
writable token hash now r =
    col_is r.claim_token token
    && (live r.claim_expires_at now && (ltb now r.expires_at && str_eq r.immutable_hash hash))

abbrev pub checkpointed : StoreSettings → String → JsonText → ℕ → QuizRow → QuizRow
checkpointed st status payload now r = record r {
  payload_json = payload;
  status = status;
  revision = suc r.revision;
  updated_at = now;
  claim_expires_at = some (now + st.operation_lease_seconds);
}

abbrev pub completed_row : StoreSettings → String → JsonText → ℕ → QuizRow → QuizRow
completed_row st status payload now r = record r {
  payload_json = payload;
  status = status;
  revision = suc r.revision;
  updated_at = now;
  expires_at = now + st.ttl_seconds;
  claim_token = none;
  claim_operation = none;
  claim_expires_at = none;
}

abbrev pub written :
    Table QuizRow
    → Table QuizRow
    → Result StoreError StoredQuizSession
    → Result StoreError (Option StoredQuizSession) × Table QuizRow
written t t' (ok record_) = (ok (some record_), t')
written t t' (err e) = (err e, t)

-- The guarded UPDATE of a checkpoint or of a completion, and the record that is read back.
unfoldable pub write_payload :
    Codec
    → String
    → String
    → String
    → (QuizRow → QuizRow)
    → ℕ
    → Table QuizRow
    → Result StoreError (Option StoredQuizSession) × Table QuizRow
unfolding row_to_record update_where
write_payload cx sid token hash f now t =
    let (t', updated) = update_where sid (writable token hash now) f t in
    if updated
    then elim (find sid t') [
      | none ↦ (ok none, t')
      | some row ↦ written t t' (row_to_record cx sid row now)
    ]
    else (ok none, t)

-- `_checkpoint_sync`.
unfoldable pub checkpoint_sync :
    Codec
    → StoreSettings
    → String
    → String
    → String
    → JsonText
    → String
    → ℕ
    → Table QuizRow
    → Result StoreError (Option StoredQuizSession) × Table QuizRow
unfolding write_payload
checkpoint_sync cx st sid token status payload hash now t =
    write_payload cx sid token hash (checkpointed st status payload now) now t

-- `_complete_sync`.
unfoldable pub complete_sync :
    Codec
    → StoreSettings
    → String
    → String
    → String
    → JsonText
    → String
    → ℕ
    → Table QuizRow
    → Result StoreError (Option StoredQuizSession) × Table QuizRow
unfolding write_payload
complete_sync cx st sid token status payload hash now t =
    write_payload cx sid token hash (completed_row st status payload now) now t

abbrev pub released : ℕ → QuizRow → QuizRow
released now r = record r {
  claim_token = none;
  claim_operation = none;
  claim_expires_at = none;
  updated_at = now;
}

-- `_release_sync`.
unfoldable pub release_sync : String → String → ℕ → Table QuizRow → Bool × Table QuizRow
unfolding update_where
release_sync sid token now t =
    let (t', updated) = update_where sid (λ r. col_is r.claim_token token) (released now) t in
    (updated, t')

abbrev pub some_record :
    Result StoreError StoredQuizSession → Result StoreError (Option StoredQuizSession)
some_record (ok r) = ok (some r)
some_record (err e) = err e

-- `_inspect_sync`, which writes nothing.
unfoldable pub inspect_sync :
    Codec → String → ℕ → Table QuizRow → Result StoreError (Option StoredQuizSession)
unfolding row_to_record
inspect_sync cx sid now t = elim (find sid t) [
  | none ↦ ok none
  | some row ↦ some_record (row_to_record cx sid row now)
]

-- `SELECT ... WHERE start_key_hash = ?`.
unfoldable pub select_by_start_key : String → Table QuizRow → Option (String × QuizRow)
select_by_start_key key_hash [] = none
select_by_start_key key_hash ((sid, r) ∷ t) =
    if col_is r.start_key_hash key_hash then some (sid, r) else select_by_start_key key_hash t

abbrev pub same_request : Option String → Option String → Bool
same_request none none = true
same_request (some a) (some b) = str_eq a b
same_request _ _ = false

-- `_find_start_sync`, which writes nothing.
unfoldable pub find_start_sync :
    Codec → String → String → ℕ → Table QuizRow → Result StoreError (Option StoredQuizSession)
unfolding row_to_record select_by_start_key
find_start_sync cx key_hash request_hash now t = elim (select_by_start_key key_hash t) [
  | none ↦ ok none
  | some (sid, row) ↦
      if same_request row.start_request_hash (some request_hash)
      then some_record (row_to_record cx sid row now)
      else err start_mismatch
]
