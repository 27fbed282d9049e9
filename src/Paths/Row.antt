-- ===== src/Paths/Row.antt =====
-- services/learning_path_store.py: the rows of learning paths and of stage completions, their hashes, and
-- what is checked when they are read.
use Prim.Native.Char.{code}
use Prim.Native.String.{count, len}
use study_loop.Base.{
  Bool, List, Option, String, [], false, if◌then◌else◌, leb, length, ltb, none, not, some, str_eq,
  suc, true, ℕ, ◌&&◌, ◌==◌, ◌||◌, ◌∷◌,
}
use study_loop.Base.Result.{Result, err, ok}
use study_loop.Json.{Fields, Json, end, field, num, obj, str}

-- `content` stands for the fields that the store does not look at.
pub record LearningPath : Type 0 where
  pub document_id : String
  pub total_stages : ℕ
  pub content : Json

-- `loads`, `canonical` and `sha256` are json's and hashlib's, `parse` and `dump` pydantic's, `strip` is
-- `str.strip`.
pub record PathCodec : Type 0 where
  pub loads_text : String → Option Json
  pub canonical : Json → String
  pub sha256 : String → String
  pub parse : Fields → Option LearningPath
  pub dump : LearningPath → Json
  pub strip : String → String
  pub max_payload_bytes : ℕ

pub record PathRow : Type 0 where
  pub schema_version : ℕ
  pub user_id : String
  pub document_id : String
  pub payload_json : String
  pub status : String
  pub immutable_hash : String
  pub idempotency_key_hash : String
  pub request_fingerprint : String
  pub created_at : ℕ

pub record Completion : Type 0 where
  pub path_id : String
  pub schema_version : ℕ
  pub stage_id : ℕ
  pub quiz_session_id : String
  pub user_id : String
  pub document_id : String
  pub grading_report_hash : String
  pub completed_at : ℕ
  pub immutable_hash : String

pub record LearningPathRecord : Type 0 where
  pub path_id : String
  pub user_id : String
  pub document_id : String
  pub path : LearningPath
  pub schema_version : ℕ
  pub created_at : ℕ
  pub completed_through : ℕ
  pub progress_revision : ℕ

-- LearningPathStageConflictError by its reason, LearningPathCorruptError, and the RuntimeErrors.
pub data PathError : Type 0 where
  path_missing path_binding_mismatch stage_missing quiz_session_reused : PathError
  completion_binding_mismatch stage_locked corrupt lost : PathError

abbrev hex_code : ℕ → Bool
hex_code c = leb 48 c && leb c 57 || leb 97 c && leb c 102

unfoldable all_hex : String → Bool
all_hex String.[] = true
all_hex (String.◌∷◌ c s) = hex_code (code c) && all_hex s

unfoldable pub is_sha256 : String → Bool
unfolding all_hex
is_sha256 s = count s == 64 && all_hex s

-- `_PATH_ID_PATTERN.fullmatch`: "lp_" and 32 hexadecimal digits.
unfoldable pub path_id_ok : String → Bool
unfolding all_hex
path_id_ok (String.◌∷◌ l (String.◌∷◌ p (String.◌∷◌ u s))) =
    code l == 108 && (code p == 112 && (code u == 95 && (count s == 32 && all_hex s)))
path_id_ok _ = false

abbrev pub stored_identifier : PathCodec → String → ℕ → Bool
stored_identifier cx s max_length =
    not (str_eq s "") && (leb (count s) max_length && str_eq s (cx.strip s))

-- `_completion_hash`, keys sorted.
unfoldable pub completion_hash :
    PathCodec → String → ℕ → String → String → String → String → ℕ → String
completion_hash cx path_id stage_id quiz_session_id user_id document_id grading_report_hash now =
    cx.sha256 (
      cx.canonical (
        obj (
          field "completed_at" (num now) (
            field "document_id" (str document_id) (
              field "grading_report_hash" (str grading_report_hash) (
                field "path_id" (str path_id) (
                  field "quiz_session_id" (str quiz_session_id) (
                    field "schema_version" (num 1)
                      (field "stage_id" (num stage_id) (field "user_id" (str user_id) end))))))))))

-- `_validate_completion_row`, which raises where this is false.
unfoldable pub completion_ok : PathCodec → Completion → Bool
unfolding is_sha256 path_id_ok completion_hash
completion_ok cx c =
    stored_identifier cx c.path_id 128
    && (path_id_ok c.path_id
        && (c.schema_version == 1
            && (leb 1 c.stage_id
                && leb c.stage_id 12
                && (stored_identifier cx c.quiz_session_id 256
                    && (stored_identifier cx c.user_id 128
                        && (stored_identifier cx c.document_id 512
                            && (is_sha256 c.grading_report_hash
                                && (is_sha256 c.immutable_hash
                                    && str_eq c.immutable_hash (
                                        completion_hash cx c.path_id c.stage_id c.quiz_session_id
                                          c.user_id c.document_id c.grading_report_hash
                                          c.completed_at)))))))))

-- `_immutable_hash`, keys sorted.
unfoldable pub immutable_hash : PathCodec → String → PathRow → String
immutable_hash cx path_id r = cx.sha256 (
    cx.canonical (
      obj (
        field "created_at" (num r.created_at) (
          field "document_id" (str r.document_id) (
            field "idempotency_key_hash" (str r.idempotency_key_hash) (
              field "path_id" (str path_id) (
                field "payload_json" (str r.payload_json) (
                  field "request_fingerprint" (str r.request_fingerprint) (
                    field "schema_version" (num 1)
                      (field "status" (str "ready") (field "user_id" (str r.user_id) end)))))))))))

abbrev parsed_path : PathCodec → Option Json → Option LearningPath
parsed_path cx (some (obj fs)) = cx.parse fs
parsed_path cx _ = none

-- `_decode_payload`: the text is short enough, reads as a path, and is the canonical text of it.
unfoldable pub decode_payload : PathCodec → String → Option LearningPath
decode_payload cx text =
    if ltb cx.max_payload_bytes (len text)
    then none
    else elim (parsed_path cx (cx.loads_text text)) [
      | none ↦ none
      | some p ↦ if str_eq (cx.canonical (cx.dump p)) text then some p else none
    ]

unfoldable pub row_ok : PathCodec → String → PathRow → Bool
unfolding is_sha256 path_id_ok
row_ok cx path_id r =
    stored_identifier cx path_id 128
    && (path_id_ok path_id
        && (r.schema_version == 1
            && (stored_identifier cx r.user_id 128
                && (stored_identifier cx r.document_id 512
                    && (str_eq r.status "ready"
                        && (is_sha256 r.immutable_hash
                            && (is_sha256 r.idempotency_key_hash
                                && is_sha256 r.request_fingerprint)))))))

-- `_row_to_record` with the progress that `_record_with_progress` adds.
unfoldable pub row_to_record :
    PathCodec → String → PathRow → ℕ → Result PathError LearningPathRecord
unfolding decode_payload immutable_hash row_ok
row_to_record cx path_id r completed_through =
    if not (row_ok cx path_id r) then err corrupt else elim (decode_payload cx r.payload_json) [
      | none ↦ err corrupt
      | some p ↦
          if str_eq p.document_id r.document_id
            && str_eq r.immutable_hash (immutable_hash cx path_id r)
          then ok (record {
            path_id = path_id;
            user_id = r.user_id;
            document_id = r.document_id;
            path = p;
            schema_version = 1;
            created_at = r.created_at;
            completed_through = completed_through;
            progress_revision = suc completed_through;
          })
          else err corrupt
    ]

-- `SELECT ... WHERE path_id = ? ORDER BY stage_id ASC`.
unfoldable pub insert_stage : Completion → List Completion → List Completion
insert_stage c [] = c ∷ []
insert_stage c (d ∷ ds) =
    let rest = insert_stage c ds in if leb c.stage_id d.stage_id then c ∷ d ∷ ds else d ∷ rest

unfoldable pub stages_of : String → List Completion → List Completion
unfolding insert_stage
stages_of path_id [] = []
stages_of path_id (c ∷ cs) =
    let rest = stages_of path_id cs in
    if str_eq c.path_id path_id then insert_stage c rest else rest

-- The loop of `_record_with_progress`: the stages are `expected`, `expected + 1`, and so on.
unfoldable pub history_ok : PathCodec → LearningPathRecord → ℕ → List Completion → Bool
unfolding completion_ok
history_ok cx base expected [] = true
history_ok cx base expected (c ∷ cs) =
    completion_ok cx c
    && (str_eq c.path_id base.path_id
        && (c.stage_id == expected
            && (str_eq c.user_id base.user_id
                && (str_eq c.document_id base.document_id
                    && (leb c.stage_id base.path.total_stages
                        && history_ok cx base (suc expected) cs)))))

-- `_record_with_progress`.
unfoldable pub record_with_progress :
    PathCodec → String → PathRow → List Completion → Result PathError LearningPathRecord
unfolding row_to_record stages_of history_ok
record_with_progress cx path_id r cs =
    let rows = stages_of path_id cs in
    elim (row_to_record cx path_id r (length rows)) [
      | err e ↦ err e
      | ok base ↦ if history_ok cx base 1 rows then ok base else err corrupt
    ]
