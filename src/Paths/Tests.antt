-- ===== src/Paths/Tests.antt =====
-- A path of two stages, and the completion of its stages in order, out of order and again.
use study_loop.Base.{List, String, [], arith, false, none, refl, some, suc, ℕ, ◌∷◌, ◌≡◌, ◌≤◌}
use study_loop.Base.Result.{err, ok}
use study_loop.Json.{end, obj}
use study_loop.Paths.Covers.{completion_covers}
use study_loop.Paths.Creates.{creation_is_kept}
use study_loop.Paths.Creation.{
  Creation, NewPath, binds, create_sync, find_by_creation_sync, get_current_sync, get_sync, new_row,
  payload_mismatch,
}
use study_loop.Paths.Next.{next_stage_is_taken}
use study_loop.Paths.Repeats.{repeat_replays}
use study_loop.Paths.Row.{
  Completion, LearningPath, LearningPathRecord, PathCodec, PathRow, completion_ok,
  record_with_progress, stage_locked, stage_missing,
}
use study_loop.Paths.Stages.{
  StageRequest, by_quiz, complete_stage_sync, new_completion, receipt_fault,
}
use study_loop.Table.{Table, find}

abbrev digest : String
digest = "0123456789abcdef0123456789abcdef0123456789abcdef0123456789abcdef"

abbrev sums_path : LearningPath
sums_path = record { document_id = "sums"; total_stages = 2; content = obj end }

abbrev codec : PathCodec
codec = record {
  loads_text = λ s. some (obj end);
  canonical = λ j. "{}";
  sha256 = λ s. digest;
  parse = λ fs. some sums_path;
  dump = λ p. obj end;
  strip = λ s. s;
  max_payload_bytes = 100;
}

abbrev path_name : String
path_name = "lp_0123456789abcdef0123456789abcdef"

abbrev stored_path : PathRow
stored_path = record {
  schema_version = 1;
  user_id = "ada";
  document_id = "sums";
  payload_json = "{}";
  status = "ready";
  immutable_hash = digest;
  idempotency_key_hash = digest;
  request_fingerprint = digest;
  created_at = 10;
}

abbrev paths : Table PathRow
paths = (path_name, stored_path) ∷ []

abbrev passed : ℕ → String → StageRequest
passed stage quiz = record {
  path_id = path_name;
  stage_id = stage;
  quiz_session_id = quiz;
  user_id = "ada";
  document_id = "sums";
  grading_report_hash = digest;
}

abbrev alone : List Completion → List Completion
alone cs = cs

abbrev progress : ℕ → LearningPathRecord
progress n = record {
  path_id = path_name;
  user_id = "ada";
  document_id = "sums";
  path = sums_path;
  schema_version = 1;
  created_at = 10;
  completed_through = n;
  progress_revision = suc n;
}

abbrev first_done : List Completion
first_done = new_completion codec (passed 1 "quiz-1") 20 ∷ []

first_stage :
    complete_stage_sync alone codec (passed 1 "quiz-1") 20 paths [] ≡ (ok (progress 1), first_done)
unfolding complete_stage_sync find record_with_progress receipt_fault
first_stage = refl

first_stage_again :
    complete_stage_sync alone codec (passed 1 "quiz-1") 30 paths first_done
    ≡ (ok (progress 1), first_done)
unfolding complete_stage_sync find record_with_progress receipt_fault
first_stage_again = refl

second_stage_first :
    complete_stage_sync alone codec (passed 2 "quiz-2") 20 paths [] ≡ (err stage_locked, [])
unfolding complete_stage_sync find record_with_progress receipt_fault
second_stage_first = refl

no_third_stage :
    complete_stage_sync alone codec (passed 3 "quiz-3") 20 paths first_done
    ≡ (err stage_missing, first_done)
unfolding complete_stage_sync find record_with_progress receipt_fault
no_third_stage = refl

completion_covers_example :
    (row : PathRow) × (find path_name paths ≡ some row)
    × (record_with_progress codec path_name row first_done ≡ ok (progress 1))
    × (1 ≤ 1)
completion_covers_example =
    completion_covers alone codec (passed 1 "quiz-1") 20 paths [] first_done (progress 1)
      first_stage

repeat_replays_example :
    complete_stage_sync alone codec (passed 1 "quiz-1") 30 paths first_done
    ≡ (ok (progress 1), first_done)
repeat_replays_example =
    repeat_replays alone alone codec (passed 1 "quiz-1") 20 30 paths [] first_done (progress 1)
      first_stage

abbrev asked_by : String → Creation
asked_by user = record {
  key_hash = digest;
  user_id = user;
  document_id = "sums";
  request_fingerprint = digest;
}

abbrev new_path : NewPath
new_path = record { path_id = path_name; payload_json = "{}"; source_created_at = none }

abbrev alone_paths : Table PathRow → Table PathRow
alone_paths rows = rows

first_creation :
    create_sync alone_paths codec (asked_by "ada") new_path 10 [] [] ≡ (ok (progress 0), paths)
unfolding create_sync find record_with_progress binds new_row
first_creation = refl

current_path :
    get_current_sync (λ i j. false) codec "ada" none paths first_done ≡ ok (some (progress 1))
unfolding get_current_sync find record_with_progress
current_path = refl

creation_is_kept_example :
    (create_sync alone_paths codec (asked_by "ada") new_path 30 paths [] ≡ (ok (progress 0), paths))
    × (find_by_creation_sync codec (asked_by "ada") paths [] ≡ ok (some (progress 0)))
    × (create_sync alone_paths codec (asked_by "bob") new_path 30 paths []
        ≡ (err payload_mismatch, paths))
    × (get_sync codec path_name paths [] ≡ ok (some (progress 0)))
creation_is_kept_example =
    creation_is_kept alone_paths alone_paths codec (asked_by "ada") (asked_by "bob") new_path
      new_path 10 30 [] paths [] (progress 0) first_creation refl refl (unfold find in refl, tt)

next_stage_is_taken_example :
    complete_stage_sync alone codec (passed 2 "quiz-2") 40 paths first_done
    ≡ (ok (progress 2), new_completion codec (passed 2 "quiz-2") 40 ∷ first_done)
next_stage_is_taken_example =
    next_stage_is_taken alone codec (passed 2 "quiz-2") 40 paths first_done stored_path (progress 1)
      (unfold find in refl) (unfold record_with_progress in refl) refl refl (omega arith)
      (unfold completion_ok in refl) (unfold by_quiz in refl) (unfold by_quiz in refl) refl
