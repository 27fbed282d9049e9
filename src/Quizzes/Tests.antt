-- ===== src/Quizzes/Tests.antt =====
-- A quiz of one question, taken, graded and kept: concrete runs of the theorems on quizzes.
use study_loop.Base.{
  Bool, Option, String, [], ap, arith, eq_iff, false, false≢true, if◌then◌else◌, length, none, pos,
  refl, some, str_eq, suc, true, zero, ℕ, ◌++◌, ◌+◌, ◌==◌, ◌∷◌, ◌≡◌, ◌≢◌, ◌⊎◌,
}
use study_loop.Base.Result.{err, ok}
use study_loop.Json.{Json, JsonText, dict_get, end, field, holds, num, obj}
use study_loop.Quizzes.Answers.{
  SessionResult, answer_aggregate, build_result, index_moved, not_accepting,
}
use study_loop.Quizzes.Commits.{answer_is_committed}
use study_loop.Quizzes.Create.{create_sync, new_row}
use study_loop.Quizzes.History.{claim, step}
use study_loop.Quizzes.Keeps.{answer_keeps_valid}
use study_loop.Quizzes.Ownership.{claim_excludes}
use study_loop.Quizzes.Progress.{after_answer}
use study_loop.Quizzes.Quiz.{
  GradingReport, Question, QuestionGrade, QuizSession, QuizSessionAggregate, is_active,
  is_completed, standard,
}
use study_loop.Quizzes.Results.{graded_result_agrees, result_adds_up}
use study_loop.Quizzes.Revisions.{Follows, step-Follows}
use study_loop.Quizzes.Row.{
  Codec, QuizRow, StoreSettings, StoredQuizSession, immutable_hash, model_validate, row_to_record,
  serialize_payload, start_mismatch, stored,
}
use study_loop.Quizzes.Starts.{create_is_idempotent}
use study_loop.Quizzes.Store.{
  checkpoint_sync, claim_sync, claimed_row, complete_sync, completed_row, granted, inspect_sync,
  refusal, refused, release_sync,
}
use study_loop.Quizzes.Valid.{validate_state_machine}
use study_loop.Table.{Table, find, put}

abbrev question_1 : Question
question_1 = record {
  question = "2 + 2 = ?";
  options = some ("A. 3" ∷ "B. 4" ∷ []);
  answer = "B. 4";
  explanation = "Count on.";
  source = "sums_chunk_0";
  type_ = "choice";
}

abbrev quiz_0 : QuizSession
quiz_0 = record {
  session_id = "quiz-1";
  document_id = "sums";
  user_id = "ada";
  questions = question_1 ∷ [];
  user_answers = [];
  status = "active";
  question_grades = [];
  grading_report = none;
  learning_report = none;
  profile_written = false;
  extras_written = false;
  review_schedule_written = false;
}

abbrev open_quiz : QuizSessionAggregate
open_quiz = record {
  origin = standard;
  session = quiz_0;
  last_answer_index = none;
  last_answer_result = none;
  answer_request_hashes = [];
  learning_path_source = none;
  learning_path_completion = none;
}

abbrev rounded : ℕ → ℕ → String
rounded correct total = if correct == total then "1.0" else "0.0"

abbrev exactly : Question → String → Bool
exactly q a = str_eq q.answer a

abbrev taken_quiz : QuizSessionAggregate
taken_quiz = after_answer exactly open_quiz "B. 4" question_1 none

abbrev grade_1 : QuestionGrade
grade_1 = record {
  index = pos 0;
  question = "2 + 2 = ?";
  user_answer = "B. 4";
  correct_answer = "B. 4";
  is_correct = true;
  ai_feedback = none;
  knowledge_gap = none;
}

abbrev report_1 : GradingReport
report_1 = record {
  session_id = "quiz-1";
  total = pos 1;
  correct = pos 1;
  score = "1.0";
  grades = grade_1 ∷ [];
}

abbrev graded_quiz : QuizSessionAggregate
graded_quiz = record taken_quiz {
  session = record taken_quiz.session {
    question_grades = (pos 0, grade_1) ∷ [];
    grading_report = some report_1;
    profile_written = true;
  };
}

open-valid : validate_state_machine rounded open_quiz ≡ true
unfolding validate_state_machine
open-valid = refl

graded-valid : validate_state_machine rounded graded_quiz ≡ true
unfolding validate_state_machine
graded-valid = refl

-- One answer completes the quiz.
answer_completes : answer_aggregate exactly open_quiz "B. 4" 0 none ≡ ok taken_quiz
unfolding answer_aggregate
answer_completes = refl

answer_keeps_valid_example :
    ((is_active quiz_0 ≡ true)
      × (0 ≡ length quiz_0.user_answers)
      × ((b : QuizSessionAggregate) × (answer_aggregate exactly open_quiz "B. 4" 0 none ≡ ok b)
          × (b.session.user_answers ≡ quiz_0.user_answers ++ "B. 4" ∷ [])
          × (validate_state_machine rounded b ≡ true)))
    ⊎ (((is_completed quiz_0 ≡ true)
          × (answer_aggregate exactly open_quiz "B. 4" 0 none ≡ err not_accepting))
        ⊎ ((is_active quiz_0 ≡ true)
            × (0 ≢ length quiz_0.user_answers)
            × (answer_aggregate exactly open_quiz "B. 4" 0 none ≡ err index_moved)))
answer_keeps_valid_example =
    answer_keeps_valid rounded exactly open_quiz "B. 4" 0 none open-valid refl

result_adds_up_example :
    (r : SessionResult) × (build_result rounded exactly graded_quiz.session ≡ ok r)
    × (r.total ≡ 1)
    × (r.correct + r.incorrect + r.pending ≡ r.total)
    × (length r.details ≡ r.total)
result_adds_up_example = result_adds_up rounded exactly graded_quiz graded-valid refl

graded_result_agrees_example :
    (r : SessionResult) × (build_result rounded exactly graded_quiz.session ≡ ok r)
    × (r.pending ≡ 0)
    × (report_1.correct ≡ pos r.correct)
    × (r.score ≡ some "1.0")
graded_result_agrees_example =
    graded_result_agrees rounded exactly graded_quiz graded-valid refl report_1 refl

-- A codec that tells the two aggregates apart by the number of their answers.
abbrev parsed : Json → Option QuizSessionAggregate
parsed (num zero) = some open_quiz
parsed (num (suc n)) = some taken_quiz
parsed _ = none

abbrev codec : Codec
codec = record {
  parse = λ fs. parsed (dict_get "answers" fs);
  dump = λ a. field "answers" (num (length a.session.user_answers)) end;
  sha256 = λ j. "5f0c";
  rounded = rounded;
}

abbrev settings : StoreSettings
settings = record {
  ttl_seconds = 1000;
  operation_lease_seconds = 100;
  max_count = 2;
  id_before = λ i j. false;
}

abbrev payload_0 : JsonText
payload_0 = holds (obj (field "answers" (num 0) end))

abbrev row_0 : QuizRow
row_0 = new_row settings "active" payload_0 "5f0c" (some "key-a") (some "req-a") 10

abbrev claimed_0 : QuizRow
claimed_0 = claimed_row settings "answer" "tok-1" 20 row_0

abbrev record_0 : StoredQuizSession
record_0 = stored claimed_0 open_quiz 20

abbrev one_quiz : Table QuizRow
one_quiz = ("quiz-1", row_0) ∷ []

abbrev one_claimed : Table QuizRow
one_claimed = ("quiz-1", claimed_0) ∷ []

claim_succeeds :
    claim_sync codec settings "quiz-1" "answer" "tok-1" 20 one_quiz
    ≡ (ok (granted "tok-1" record_0), one_claimed)
unfolding claim_sync model_validate immutable_hash dict_get find put
claim_succeeds = refl

claim_excludes_example :
    (claim_sync codec settings "quiz-1" "grade" "tok-2" 60
        (claim_sync codec settings "quiz-1" "answer" "tok-1" 20 one_quiz).1
      ≡ (
        ok (
            refused (
              refusal 60 (
                find "quiz-1"
                  (claim_sync codec settings "quiz-1" "answer" "tok-1" 20 one_quiz).1))),
        (claim_sync codec settings "quiz-1" "answer" "tok-1" 20 one_quiz).1,
      ))
    × (checkpoint_sync codec settings "quiz-1" "tok-2" "active" payload_0 "5f0c" 60
          (claim_sync codec settings "quiz-1" "answer" "tok-1" 20 one_quiz).1
        ≡ (ok none, (claim_sync codec settings "quiz-1" "answer" "tok-1" 20 one_quiz).1))
    × (complete_sync codec settings "quiz-1" "tok-2" "active" payload_0 "5f0c" 60
          (claim_sync codec settings "quiz-1" "answer" "tok-1" 20 one_quiz).1
        ≡ (ok none, (claim_sync codec settings "quiz-1" "answer" "tok-1" 20 one_quiz).1))
    × (release_sync "quiz-1" "tok-2" 60
          (claim_sync codec settings "quiz-1" "answer" "tok-1" 20 one_quiz).1
        ≡ (false, (claim_sync codec settings "quiz-1" "answer" "tok-1" 20 one_quiz).1))
claim_excludes_example =
    claim_excludes codec settings "quiz-1" "answer" "tok-1" 20 one_quiz record_0 "grade" "tok-2"
      "active" "5f0c" payload_0 60 (ap (λ x. x.0) claim_succeeds) (omega arith)
      (λ e. false≢true ((eq_iff "tok-2" "tok-1").1 e))

-- A second quiz beside the first, which is still open.
create_succeeds :
    create_sync codec settings "quiz-1" "active" payload_0 "5f0c"
      (some "key-a")
      (some "req-a")
      10
      []
    ≡ (ok (stored row_0 open_quiz 10, true), one_quiz)
unfolding create_sync model_validate immutable_hash dict_get find put
create_succeeds = refl

abbrev row_1 : QuizRow
row_1 = new_row settings "active" payload_0 "5f0c" none none 5

abbrev other_quiz : Table QuizRow
other_quiz = ("quiz-0", row_1) ∷ []

create_is_idempotent_example :
    create_sync codec settings "quiz-2" "active" payload_0 "77aa"
      (some "key-a")
      (some "req-a")
      30
      (create_sync codec settings "quiz-1" "active" payload_0 "5f0c"
        (some "key-a")
        (some "req-a")
        10
        []).1
    ≡ (if str_eq "req-a" "req-a"
        then (
          ok (stored row_0 open_quiz 30, false),
          (create_sync codec settings "quiz-1" "active" payload_0 "5f0c"
              (some "key-a")
              (some "req-a")
              10
              []).1,
        )
        else (
          err start_mismatch,
          (create_sync codec settings "quiz-1" "active" payload_0 "5f0c"
              (some "key-a")
              (some "req-a")
              10
              []).1,
        ))
create_is_idempotent_example =
    create_is_idempotent codec settings "quiz-1" "active" payload_0 "5f0c" "key-a" "req-a" 10 []
      (stored row_0 open_quiz 10) "quiz-2" "active" payload_0 "77aa" "req-a" 30
      (ap (λ x. x.0) create_succeeds)

record-read : row_to_record codec "quiz-1" claimed_0 20 ≡ ok record_0
unfolding row_to_record model_validate immutable_hash dict_get
record-read = refl

taken-parsed : codec.parse (codec.dump taken_quiz) ≡ some taken_quiz
unfolding dict_get
taken-parsed = refl

abbrev CommittedAs : JsonText → Type 0
CommittedAs payload =
    let row' = completed_row settings "completed" payload 40 claimed_0 in
    let (answer_, t') =
      complete_sync codec settings "quiz-1" "tok-1" "completed" payload
        (immutable_hash codec taken_quiz) 40 one_claimed in
    (answer_ ≡ ok (some (stored row' taken_quiz 40)))
    × (find "quiz-1" t' ≡ some row')
    × (inspect_sync codec "quiz-1" 50 t' ≡ ok (some (stored row' taken_quiz 50)))

answer_is_committed_example :
    (payload : JsonText) × (serialize_payload codec taken_quiz ≡ some payload) × CommittedAs payload
answer_is_committed_example =
    answer_is_committed codec settings exactly "quiz-1" "tok-1" claimed_0 20 40 50 one_claimed
      record_0 "B. 4" 0 none taken_quiz taken-parsed (unfold find in refl) record-read refl refl
      answer_completes

step-Follows_example : Follows row_0 claimed_0
step-Follows_example =
    step-Follows codec settings one_quiz 20 (claim "quiz-1" "answer" "tok-1") "quiz-1" row_0
      claimed_0 (unfold find in (refl, tt)) (unfold find in refl)
      (unfold step find in ap (λ x. find "quiz-1" x.1) claim_succeeds)
