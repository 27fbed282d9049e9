-- ===== src/Quizzes/Row.antt =====
-- services/quiz_sessions.py: the table of quiz sessions, the codec of its payloads, and the record that
-- is read from a row. `parse`, `dump` and `sha256` are pydantic's, json's and hashlib's.
use study_loop.Base.{
  Bool, List, Option, String, [], false, if◌then◌else◌, is_some, leb, ltb, none, not, some, str_eq,
  ℕ, ◌&&◌, ◌==◌, ◌∷◌,
}
use study_loop.Base.Result.{Result, err, ok}
use study_loop.Json.{
  Fields, Items, Json, JsonText, arr, cons, end, field, holds, nil, null, num, obj, str,
}
use study_loop.Quizzes.Quiz.{LearningPathQuizSource, Question, QuizSessionAggregate}
use study_loop.Quizzes.Valid.{validate_state_machine}

-- `parse` reads the fields of an aggregate from a dict, before `validate_state_machine` runs;
-- `dump` is `model_dump(mode="json")`; `sha256` hashes the canonical text of a value.
pub record Codec : Type 0 where
  pub parse : Fields → Option QuizSessionAggregate
  pub dump : QuizSessionAggregate → Fields
  pub sha256 : Json → String
  pub rounded : ℕ → ℕ → String

pub record QuizRow : Type 0 where
  pub schema_version : ℕ
  pub payload_json : JsonText
  pub status : String
  pub immutable_hash : String
  pub revision : ℕ
  pub start_key_hash : Option String
  pub start_request_hash : Option String
  pub created_at : ℕ
  pub updated_at : ℕ
  pub expires_at : ℕ
  pub claim_token : Option String
  pub claim_operation : Option String
  pub claim_expires_at : Option ℕ

pub record StoreSettings : Type 0 where
  pub ttl_seconds : ℕ
  pub operation_lease_seconds : ℕ
  pub max_count : ℕ
  pub id_before : String → String → Bool

-- QuizSessionAlreadyExistsError, QuizSessionCapacityError, QuizSessionCorruptError,
-- QuizSessionStartConflictError and the RuntimeError of a row that is gone.
pub data StoreError : Type 0 where
  already_exists all_active corrupt start_mismatch disappeared : StoreError

pub record StoredQuizSession : Type 0 where
  pub aggregate : QuizSessionAggregate
  pub revision : ℕ
  pub created_at : ℕ
  pub updated_at : ℕ
  pub expires_at : ℕ
  pub busy : Bool
  pub expired : Bool

-- `QuizSessionAggregate.model_validate`.
unfoldable pub model_validate : Codec → Fields → Option QuizSessionAggregate
unfolding validate_state_machine
model_validate cx fs = elim (cx.parse fs) [
  | none ↦ none
  | some a ↦ if validate_state_machine cx.rounded a then some a else none
]

-- `_serialize_payload` within the size limit; `none` is its ValidationError.
unfoldable pub serialize_payload : Codec → QuizSessionAggregate → Option JsonText
unfolding model_validate
serialize_payload cx a = elim (model_validate cx (cx.dump a)) [
  | none ↦ none
  | some v ↦ some (holds (obj (cx.dump v)))
]

abbrev text_or_null : Option String → Json
text_or_null none = null
text_or_null (some s) = str s

abbrev texts : List String → Items
texts [] = nil
texts (s ∷ ss) = cons (str s) (texts ss)

abbrev options_json : Option (List String) → Json
options_json none = null
options_json (some ss) = arr (texts ss)

-- `question.model_dump(mode="json")`, keys sorted.
abbrev question_json : Question → Json
question_json q = obj (
    field "answer" (str q.answer) (
      field "explanation" (str q.explanation) (
        field "options" (options_json q.options) (
          field "question" (str q.question)
            (field "source" (str q.source) (field "type" (str q.type_) end))))))

abbrev questions_json : List Question → Items
questions_json [] = nil
questions_json (q ∷ qs) = cons (question_json q) (questions_json qs)

abbrev with_source : Option LearningPathQuizSource → Fields → Fields
with_source none fs = fs
with_source (some source) fs =
    field "learning_path_source"
      (obj (
        field "learning_path_id" (str source.learning_path_id)
          (field "stage_id" (num source.stage_id) end)))
      fs

-- `_immutable_hash`.
unfoldable pub immutable_hash : Codec → QuizSessionAggregate → String
immutable_hash cx a =
    let s = a.session in
    cx.sha256 (
      obj (
        field "document_id" (str s.document_id) (
          with_source a.learning_path_source (
            field "questions" (arr (questions_json s.questions))
              (field "session_id" (str s.session_id) (field "user_id" (str s.user_id) end))))))

unfoldable pub decode_payload : Codec → JsonText → Option QuizSessionAggregate
unfolding model_validate
decode_payload cx (holds (obj fs)) = model_validate cx fs
decode_payload cx _ = none

abbrev pub live : Option ℕ → ℕ → Bool
live none now = false
live (some e) now = ltb now e

abbrev pub due : Option ℕ → ℕ → Bool
due none now = false
due (some e) now = leb e now

abbrev pub stored : QuizRow → QuizSessionAggregate → ℕ → StoredQuizSession
stored r a now = record {
  aggregate = a;
  revision = r.revision;
  created_at = r.created_at;
  updated_at = r.updated_at;
  expires_at = r.expires_at;
  busy = is_some r.claim_token && live r.claim_expires_at now;
  expired = leb r.expires_at now;
}

abbrev pub matches : Codec → String → QuizRow → QuizSessionAggregate → Bool
matches cx sid r a =
    str_eq a.session.session_id sid
    && (str_eq a.session.status r.status && str_eq (immutable_hash cx a) r.immutable_hash)

-- `_row_to_record`; `sid` is the primary key of the row.
unfoldable pub row_to_record : Codec → String → QuizRow → ℕ → Result StoreError StoredQuizSession
unfolding decode_payload
row_to_record cx sid r now =
    if not (r.schema_version == 1) then err corrupt else elim (decode_payload cx r.payload_json) [
      | none ↦ err corrupt
      | some a ↦ if matches cx sid r a then ok (stored r a now) else err corrupt
    ]
