-- ===== src/Quizzes/Reading.antt =====
-- services/quiz_sessions.py: what a payload has passed that reads as a record, and what is read back of a
-- payload that is written.
use study_loop.Base.{
  Bool-cases, Option-cases, String, arith, eq_refl, inl, inr, some, subst, true, ℕ, ◌==◌, ◌∙◌, ◌≡◌,
}
use study_loop.Base.Result.{ok}
use study_loop.Json.{Fields, JsonText, arr, blank, bool, holds, lit, malformed, null, num, obj, str}
use study_loop.Quizzes.Quiz.{QuizSessionAggregate}
use study_loop.Quizzes.Row.{
  Codec, QuizRow, StoredQuizSession, decode_payload, matches, model_validate, row_to_record,
  serialize_payload, stored,
}
use study_loop.Quizzes.Store.{inspect_sync, writable, write_payload}
use study_loop.Quizzes.Valid.{validate_state_machine}
use study_loop.Table.{Table, find, find-put, put}

validate-fields :
    (cx : Codec) (fs : Fields) (a : QuizSessionAggregate)
    → model_validate cx fs ≡ some a
    → validate_state_machine cx.rounded a ≡ true
unfolding model_validate
validate-fields cx fs a e = elim (Option-cases (cx.parse fs)) [
  | inl none_ ↦ absurd (ground (arith, none_, e))
  | inr (x, parsed) ↦ elim (Bool-cases (validate_state_machine cx.rounded x)) [
    | inr bad ↦ absurd (ground (arith, parsed, bad, e))
    | inl good ↦
        let same : x ≡ a = ground (arith, parsed, good, e) in
        subst (λ y. validate_state_machine cx.rounded y ≡ true) same good
  ]
]

pub decode-valid :
    (cx : Codec) (text : JsonText) (a : QuizSessionAggregate)
    → decode_payload cx text ≡ some a
    → validate_state_machine cx.rounded a ≡ true
unfolding decode_payload
decode-valid cx (holds null) a e = absurd (ground (arith, e))
decode-valid cx (holds (bool b)) a e = absurd (ground (arith, e))
decode-valid cx (holds (num n)) a e = absurd (ground (arith, e))
decode-valid cx (holds (lit s)) a e = absurd (ground (arith, e))
decode-valid cx (holds (str s)) a e = absurd (ground (arith, e))
decode-valid cx (holds (arr xs)) a e = absurd (ground (arith, e))
decode-valid cx (holds (obj fs)) a e = validate-fields cx fs a e
decode-valid cx blank a e = absurd (ground (arith, e))
decode-valid cx malformed a e = absurd (ground (arith, e))

-- What a row that reads as a record has passed.
pub read_decodes :
    (cx : Codec) (sid : String) (row : QuizRow) (now : ℕ) (record_ : StoredQuizSession)
    → row_to_record cx sid row now ≡ ok record_
    → (row.schema_version ≡ 1)
      × (matches cx sid row record_.aggregate ≡ true)
      × (decode_payload cx row.payload_json ≡ some record_.aggregate)
unfolding row_to_record
read_decodes cx sid row now record_ e = elim (Bool-cases (row.schema_version == 1)) [
  | inr other ↦ absurd (ground (arith, other, e))
  | inl first ↦ elim (Option-cases (decode_payload cx row.payload_json)) [
    | inl none_ ↦ absurd (ground (arith, first, none_, e))
    | inr (a, decoded) ↦ elim (Bool-cases (matches cx sid row a)) [
      | inr differs ↦ absurd (ground (arith, first, decoded, differs, e))
      | inl same ↦
          let shape : stored row a now ≡ record_ = ground (arith, first, decoded, same, e) in
          (
            ground (arith, first),
            subst (λ x. matches cx sid row x.aggregate ≡ true) shape same,
            subst (λ x. decode_payload cx row.payload_json ≡ some x.aggregate) shape decoded,
          )
    ]
  ]
]

pub serialize-valid :
    (cx : Codec) (a : QuizSessionAggregate)
    → cx.parse (cx.dump a) ≡ some a
    → validate_state_machine cx.rounded a ≡ true
    → (serialize_payload cx a ≡ some (holds (obj (cx.dump a))))
      × (decode_payload cx (holds (obj (cx.dump a))) ≡ some a)
unfolding serialize_payload decode_payload
serialize-valid cx a back h = (ground (arith, back, h), ground (arith, back, h))

pub reads_as :
    (cx : Codec) (sid : String) (row : QuizRow) (now : ℕ) (a : QuizSessionAggregate)
    → row.schema_version ≡ 1
    → decode_payload cx row.payload_json ≡ some a
    → matches cx sid row a ≡ true
    → row_to_record cx sid row now ≡ ok (stored row a now)
unfolding row_to_record
reads_as cx sid row now a version decoded same = ground (arith, version, decoded, same)

pub write-held :
    (cx : Codec) (sid token hash : String) (f : QuizRow → QuizRow) (now : ℕ) (t : Table QuizRow)
    (row : QuizRow) (record_ : StoredQuizSession)
    → find sid t ≡ some row
    → writable token hash now row ≡ true
    → row_to_record cx sid (f row) now ≡ ok record_
    → write_payload cx sid token hash f now t ≡ (ok (some record_), put sid (f row) t)
unfolding write_payload
write-held cx sid token hash f now t row record_ there held read =
    let again : find sid (put sid (f row) t) ≡ some (f row) =
      find-put sid sid (f row) t ∙ ground (arith, eq_refl sid) in
    ground (arith, there, held, read, again)

pub inspect-there :
    (cx : Codec) (sid : String) (now : ℕ) (t : Table QuizRow) (row : QuizRow)
    (record_ : StoredQuizSession)
    → find sid t ≡ some row
    → row_to_record cx sid row now ≡ ok record_
    → inspect_sync cx sid now t ≡ ok (some record_)
unfolding inspect_sync
inspect-there cx sid now t row record_ there read = ground (arith, there, read)
