-- ===== src/Quizzes/Ownership.antt =====
-- services/quiz_sessions.py: a granted claim, and the calls of other tokens.
use study_loop.Base.{
  Bool, String, arith, col_is, eq_iff, eq_refl, false, leb, none, some, true, ℕ, ◌&&◌, ◌+◌, ◌<◌,
  ◌≡◌, ◌≢◌,
}
use study_loop.Base.Result.{ok}
use study_loop.Json.{JsonText}
use study_loop.Quizzes.Row.{Codec, QuizRow, StoreSettings, StoredQuizSession}
use study_loop.Quizzes.Store.{
  checkpoint_sync, checkpointed, claim_sync, complete_sync, completed_row, granted, refusal,
  refused, release_sync, write_payload,
}
use study_loop.Table.{Table, find, find-put}

-- The row is claimed by this token at least until this time.
abbrev held_by : String → ℕ → QuizRow → Bool
held_by token until_ r =
    col_is r.claim_token token && elim r.claim_expires_at [ none ↦ false | some e ↦ leb until_ e ]

abbrev pub held_at : String → String → ℕ → Table QuizRow → Bool
held_at sid token until_ t = elim (find sid t) [ none ↦ false | some r ↦ held_by token until_ r ]

claim-held :
    (cx : Codec) (st : StoreSettings) (sid operation token : String) (now : ℕ) (t : Table QuizRow)
    (record_ : StoredQuizSession)
    → (claim_sync cx st sid operation token now t).0 ≡ ok (granted token record_)
    → held_at sid token
        (now + st.operation_lease_seconds)
        (claim_sync cx st sid operation token now t).1
      ≡ true
unfolding claim_sync
claim-held cx st sid operation token now t record_ e = grind (arith, find-put, eq_refl)

module _ (cx : Codec) (sid token token' : String) (until_ time : ℕ) (t : Table QuizRow)
    (held : held_at sid token until_ t ≡ true) (before : time < until_)
    (other : token' ≢ token) where
  held-claim :
      (st : StoreSettings) (operation : String)
      → claim_sync cx st sid operation token' time t ≡ (ok (refused (refusal time (find sid t))), t)
  unfolding claim_sync
  held-claim st operation = grind arith

  held-write :
      (hash : String) (f : QuizRow → QuizRow) (at : ℕ)
      → write_payload cx sid token' hash f at t ≡ (ok none, t)
  unfolding write_payload
  held-write hash f at = grind (arith, eq_iff)

  held-release : (at : ℕ) → release_sync sid token' at t ≡ (false, t)
  unfolding release_sync
  held-release at = grind (arith, eq_iff)

-- From a granted claim until its lease runs out, every other claim of the quiz is refused, and no
-- other token can write a checkpoint or a completion or release the claim; none of these calls changes
-- the table.
pub claim_excludes :
    (cx : Codec) (st : StoreSettings) (sid operation token : String) (now : ℕ) (t : Table QuizRow)
    (record_ : StoredQuizSession) (operation' token' status hash : String) (payload : JsonText)
    (time : ℕ)
    → (claim_sync cx st sid operation token now t).0 ≡ ok (granted token record_)
    → time < now + st.operation_lease_seconds
    → token' ≢ token
    → let t' = (claim_sync cx st sid operation token now t).1 in
      (claim_sync cx st sid operation' token' time t'
        ≡ (ok (refused (refusal time (find sid t'))), t'))
      × (checkpoint_sync cx st sid token' status payload hash time t' ≡ (ok none, t'))
      × (complete_sync cx st sid token' status payload hash time t' ≡ (ok none, t'))
      × (release_sync sid token' time t' ≡ (false, t'))
unfolding checkpoint_sync complete_sync
claim_excludes cx st sid operation token now t record_ operation' token' status hash payload time e
      before other =
    let t' = (claim_sync cx st sid operation token now t).1 in
    let held = claim-held cx st sid operation token now t record_ e in
    let until_ = now + st.operation_lease_seconds in
    (
      held-claim cx sid token token' until_ time t' held before other st operation',
      held-write cx sid token token' until_ time t' held before other hash
          (checkpointed st status payload time) time,
      held-write cx sid token token' until_ time t' held before other hash
          (completed_row st status payload time) time,
      held-release cx sid token token' until_ time t' held before other time,
    )
