-- ===== src/Paths/Stages.antt =====
-- services/learning_path_store.py: `_complete_stage_sync`, which appends the completion of one stage.
use study_loop.Base.{
  List, Option, String, [], if◌then◌else◌, is_some, leb, ltb, none, not, some, str_eq, suc, ℕ, ◌&&◌,
  ◌==◌, ◌||◌, ◌∷◌,
}
use study_loop.Base.Result.{Result, err, ok}
use study_loop.Paths.Row.{
  Completion, LearningPathRecord, PathCodec, PathError, PathRow, completion_binding_mismatch,
  completion_hash, completion_ok, corrupt, lost, path_binding_mismatch, path_missing,
  quiz_session_reused, record_with_progress, stage_locked, stage_missing,
}
use study_loop.Table.{Table, find}

-- The completion that is bound to a quiz session, and the one of a stage.
unfoldable pub by_quiz : String → List Completion → Option Completion
by_quiz quiz_session_id [] = none
by_quiz quiz_session_id (c ∷ cs) =
    if str_eq c.quiz_session_id quiz_session_id then some c else by_quiz quiz_session_id cs

unfoldable pub by_stage : String → ℕ → List Completion → Option Completion
by_stage path_id stage_id [] = none
by_stage path_id stage_id (c ∷ cs) =
    if str_eq c.path_id path_id && c.stage_id == stage_id
    then some c
    else by_stage path_id stage_id cs

-- What a quiz that has passed its grading asks of the store.
pub record StageRequest : Type 0 where
  pub path_id : String
  pub stage_id : ℕ
  pub quiz_session_id : String
  pub user_id : String
  pub document_id : String
  pub grading_report_hash : String

-- The checks on the receipt of the quiz session; `none` passes.
unfoldable pub receipt_fault : PathCodec → StageRequest → Completion → Option PathError
unfolding completion_ok
receipt_fault cx q c =
    if not (completion_ok cx c)
    then some corrupt
    else if not (str_eq c.path_id q.path_id && c.stage_id == q.stage_id)
    then some quiz_session_reused
    else if not (
        str_eq c.user_id q.user_id
        && (str_eq c.document_id q.document_id
            && str_eq c.grading_report_hash q.grading_report_hash))
    then some completion_binding_mismatch
    else none

abbrev pub new_completion : PathCodec → StageRequest → ℕ → Completion
new_completion cx q now = record {
  path_id = q.path_id;
  schema_version = 1;
  stage_id = q.stage_id;
  quiz_session_id = q.quiz_session_id;
  user_id = q.user_id;
  document_id = q.document_id;
  grading_report_hash = q.grading_report_hash;
  completed_at = now;
  immutable_hash =
      completion_hash cx q.path_id q.stage_id q.quiz_session_id q.user_id q.document_id
        q.grading_report_hash now;
}

abbrev pub Done : Type 0
Done = Result PathError LearningPathRecord × List Completion

abbrev pub answer_or : Option PathError → Done → List Completion → Done
answer_or none d cs = d
answer_or (some e) d cs = (err e, cs)

-- The last read; where it raises, the insertion is rolled back.
abbrev pub reread : List Completion → List Completion → Result PathError LearningPathRecord → Done
reread cs cs' (ok r) = (ok r, cs')
reread cs cs' (err e) = (err e, cs)

-- Another transaction has completed the stage.
unfoldable pub raced :
    PathCodec → StageRequest → PathRow → List Completion → Option Completion → Done
raced cx q row cs none = (err lost, cs)
raced cx q row cs (some c) =
    if completion_ok cx c then (record_with_progress cx q.path_id row cs, cs) else (err corrupt, cs)

-- The INSERT ... ON CONFLICT DO NOTHING did nothing: another transaction was faster.
unfoldable pub lost_insert : PathCodec → StageRequest → PathRow → List Completion → Done
unfolding by_quiz by_stage
lost_insert cx q row cs =
    let stage : Done = raced cx q row cs (by_stage q.path_id q.stage_id cs) in
    elim (by_quiz q.quiz_session_id cs) [
      | none ↦ stage
      | some c ↦ answer_or (receipt_fault cx q c) stage cs
    ]

unfoldable pub append_stage : PathCodec → StageRequest → PathRow → ℕ → List Completion → Done
unfolding lost_insert
append_stage cx q row now cs =
    if is_some (by_stage q.path_id q.stage_id cs) || is_some (by_quiz q.quiz_session_id cs)
    then lost_insert cx q row cs
    else (let cs' = new_completion cx q now ∷ cs in
        reread cs cs' (record_with_progress cx q.path_id row cs'))

-- After the record and the receipt have been read. `between` is what other transactions complete
-- before the INSERT: the row of the path is locked, but not a quiz session that another path uses.
unfoldable pub stage_in_order :
    (List Completion → List Completion)
    → PathCodec
    → StageRequest
    → PathRow
    → LearningPathRecord
    → ℕ
    → List Completion
    → Done
unfolding append_stage
stage_in_order between cx q row r now cs =
    if leb q.stage_id r.completed_through
    then (ok r, cs)
    else if not (q.stage_id == suc r.completed_through)
    then (err stage_locked, cs)
    else append_stage cx q row now (between cs)

unfoldable pub stage_of_record :
    (List Completion → List Completion)
    → PathCodec
    → StageRequest
    → PathRow
    → LearningPathRecord
    → ℕ
    → List Completion
    → Done
unfolding stage_in_order
stage_of_record between cx q row r now cs =
    if not (str_eq r.user_id q.user_id && str_eq r.document_id q.document_id)
    then (err path_binding_mismatch, cs)
    else if ltb r.path.total_stages q.stage_id
    then (err stage_missing, cs)
    else elim (by_quiz q.quiz_session_id cs) [
      | some c ↦ answer_or (receipt_fault cx q c) (ok r, cs) cs
      | none ↦ stage_in_order between cx q row r now cs
    ]

abbrev on_record :
    Result PathError LearningPathRecord → (LearningPathRecord → Done) → List Completion → Done
on_record (ok r) f cs = f r
on_record (err e) f cs = (err e, cs)

-- `_complete_stage_sync`.
unfoldable pub complete_stage_sync :
    (List Completion → List Completion)
    → PathCodec
    → StageRequest
    → ℕ
    → Table PathRow
    → List Completion
    → Done
unfolding stage_of_record
complete_stage_sync between cx q now paths cs = elim (find q.path_id paths) [
  | none ↦ (err path_missing, cs)
  | some row ↦
      on_record (record_with_progress cx q.path_id row cs)
        (λ r. stage_of_record between cx q row r now cs) cs
]
