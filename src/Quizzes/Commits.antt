-- ===== src/Quizzes/Commits.antt =====
-- services/quiz_sessions.py, services/session.py and routers/session.py together: an answer that is
-- applied under a claim, and its commit.
use study_loop.Base.{
  ==_iff, Bool, Bool-cases, Option, String, and_left, and_right, ap, arith, eq_iff, eq_refl, inl,
  inr, length, refl, some, str_eq, subst, sym, true, ℕ, ◌==◌, ◌∙◌, ◌≡◌, ◌≢◌,
}
use study_loop.Base.Result.{ok, ok_injective}
use study_loop.Json.{JsonText, holds, obj}
use study_loop.Quizzes.Answers.{answer_aggregate, answered}
use study_loop.Quizzes.Keeps.{
  and_intro, answer-completed, answer-moved, valid-answered, valid-progress,
}
use study_loop.Quizzes.Progress.{
  after_answer, answer_aggregate-next, awaits, binding_hashed, next_question,
}
use study_loop.Quizzes.Quiz.{Question, QuizSessionAggregate}
use study_loop.Quizzes.Reading.{
  decode-valid, inspect-there, read_decodes, reads_as, serialize-valid, write-held,
}
use study_loop.Quizzes.Row.{
  Codec, QuizRow, StoreSettings, StoredQuizSession, immutable_hash, matches, row_to_record,
  serialize_payload, stored,
}
use study_loop.Quizzes.Store.{complete_sync, completed_row, inspect_sync, writable}
use study_loop.Quizzes.Valid.{validate_state_machine}
use study_loop.Table.{Table, find, find-put, put}

-- An answer that is taken is one to the question that the quiz waits for.
answer-ok :
    (rounded : ℕ → ℕ → String) (answers_match : Question → String → Bool)
    (a b : QuizSessionAggregate) (answer : String) (index : ℕ) (binding : Option (String × String))
    → validate_state_machine rounded a ≡ true
    → answer_aggregate answers_match a answer index binding ≡ ok b
    → (awaits a.session ≡ true)
      × (q : Question) × (b ≡ after_answer answers_match a answer q binding)
unfolding validate_state_machine
answer-ok rounded answers_match a b answer index binding h e =
    elim (valid-progress a.session.status _ _ (and_left _ _ h)) [
      | inr done ↦
          absurd (ground (arith, answer-completed answers_match a answer index binding done, e))
      | inl waiting ↦ elim (Bool-cases (index == length a.session.user_answers)) [
        | inr no_ ↦
            let moved : index ≢ length a.session.user_answers = λ x. ground (arith, x, no_) in
            absurd
              (ground (arith, answer-moved answers_match a answer index binding waiting moved, e))
        | inl yes_ ↦
            let same = (==_iff index (length a.session.user_answers)).0 yes_ in
            let (q, asked) = next_question a.session waiting in
            let taken : answer_aggregate answers_match a answer index binding
                ≡ ok (after_answer answers_match a answer q binding) =
              subst
                (λ i.
                  answer_aggregate answers_match a answer i binding
                  ≡ ok (after_answer answers_match a answer q binding))
                (sym same) (answer_aggregate-next answers_match a answer binding q waiting asked) in
            (waiting, q, ok_injective b _ _ e taken)
      ]
    ]

immutable_hash-answered :
    (cx : Codec) (answers_match : Question → String → Bool) (a : QuizSessionAggregate)
    (answer : String) (q : Question) (binding : Option (String × String))
    → immutable_hash cx (after_answer answers_match a answer q binding) ≡ immutable_hash cx a
unfolding immutable_hash
immutable_hash-answered cx answers_match a answer q binding = refl

-- The new aggregate matches the row that is written for it.
matches-answered :
    (cx : Codec) (answers_match : Question → String → Bool) (sid : String) (row row' : QuizRow)
    (a : QuizSessionAggregate) (answer : String) (q : Question) (binding : Option (String × String))
    → matches cx sid row a ≡ true
    → row'.status ≡ (answered a.session answer).status
    → row'.immutable_hash ≡ row.immutable_hash
    → matches cx sid row' (after_answer answers_match a answer q binding) ≡ true
matches-answered cx answers_match sid row row' a answer q binding same status hash =
    let id_ = and_left (str_eq a.session.session_id sid) _ same in
    let hashed =
      and_right (str_eq a.session.status row.status) _
        (and_right (str_eq a.session.session_id sid) _ same) in
    let b = after_answer answers_match a answer q binding in
    let status_ : str_eq b.session.status row'.status ≡ true =
      rw status (eq_refl (answered a.session answer).status) in
    let hash_ : str_eq (immutable_hash cx b) row'.immutable_hash ≡ true =
      rw (hash, immutable_hash-answered cx answers_match a answer q binding) hashed in
    and_intro _ _ id_ (and_intro _ _ status_ hash_)

-- An answer is committed. Let a quiz be stored whose record the claim has read, and let the token hold
-- a live claim when the commit runs. If the code takes the answer, then the new aggregate passes the
-- validator, `complete` accepts it under the hash of the stored row, gives the claim back and counts
-- the revision up, and from then on the quiz reads as exactly that aggregate. It is assumed that
-- parsing returns this aggregate from its dump.
pub answer_is_committed :
    (cx : Codec) (st : StoreSettings) (answers_match : Question → String → Bool)
    (sid token : String) (row : QuizRow) (read_at now later : ℕ) (t : Table QuizRow)
    (record_ : StoredQuizSession) (answer : String) (index : ℕ) (binding : Option (String × String))
    (b : QuizSessionAggregate)
    → cx.parse (cx.dump b) ≡ some b
    → find sid t ≡ some row
    → row_to_record cx sid row read_at ≡ ok record_
    → writable token row.immutable_hash now row ≡ true
    → binding_hashed binding ≡ true
    → answer_aggregate answers_match record_.aggregate answer index binding ≡ ok b
    → (payload : JsonText) × (serialize_payload cx b ≡ some payload)
      × (let row' = completed_row st b.session.status payload now row in
          let (answer_, t') =
            complete_sync cx st sid token b.session.status payload (immutable_hash cx b) now t in
          (answer_ ≡ ok (some (stored row' b now)))
          × (find sid t' ≡ some row')
          × (inspect_sync cx sid later t' ≡ ok (some (stored row' b later))))
answer_is_committed cx st answers_match sid token row read_at now later t record_ answer index
      binding b back there read held hashed taken =
    let a = record_.aggregate in
    let (version, same, decoded) = read_decodes cx sid row read_at record_ read in
    let valid_ = decode-valid cx row.payload_json a decoded in
    let (waiting, q, shape) =
      answer-ok cx.rounded answers_match a b answer index binding valid_ taken in
    let valid_b : validate_state_machine cx.rounded b ≡ true =
      rw shape (valid-answered cx.rounded answers_match a answer binding q valid_ hashed waiting) in
    let (dumped, parsed) = serialize-valid cx b back valid_b in
    let kept : immutable_hash cx b ≡ row.immutable_hash =
      ap (immutable_hash cx) shape
      ∙ immutable_hash-answered cx answers_match a answer q binding
      ∙ (eq_iff (immutable_hash cx a) row.immutable_hash).0 (
          and_right (str_eq a.session.status row.status) _
            (and_right (str_eq a.session.session_id sid) _ same)) in
    let payload = holds (obj (cx.dump b)) in
    let row' = completed_row st b.session.status payload now row in
    let fits : matches cx sid row' b ≡ true =
      subst (λ x. matches cx sid (completed_row st x.session.status payload now row) x ≡ true)
        (sym shape)
        (matches-answered cx answers_match sid row
          (completed_row st (answered a.session answer).status payload now row) a answer q binding
          same refl refl) in
    let reads : (time : ℕ) → row_to_record cx sid row' time ≡ ok (stored row' b time) =
      λ time. reads_as cx sid row' time b version parsed fits in
    let committed =
      write-held cx sid token (immutable_hash cx b) (completed_row st b.session.status payload now)
        now t row (stored row' b now) there (rw kept held) (reads now) in
    let done : complete_sync cx st sid token b.session.status payload (immutable_hash cx b) now t
        ≡ (ok (some (stored row' b now)), put sid row' t) =
      unfold complete_sync in committed in
    let stands : find sid (put sid row' t) ≡ some row' =
      find-put sid sid row' t ∙ ground (arith, eq_refl sid) in
    let table = sym (ap (λ x. x.1) done) in
    (
      payload,
      dumped,
      (
        ap (λ x. x.0) done,
        subst (λ u. find sid u ≡ some row') table stands,
        subst (λ u. inspect_sync cx sid later u ≡ ok (some (stored row' b later))) table
            (inspect-there cx sid later (put sid row' t) row' (stored row' b later) stands
              (reads later)),
      ),
    )
