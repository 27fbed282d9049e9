-- ===== src/Quizzes/Quiz.antt =====
-- models/session.py, models/quiz.py, models/grader.py, models/report.py: a quiz session with its
-- questions, answers and grades, and the aggregate that the store keeps.
use study_loop.Base.{Bool, List, Option, String, str_eq, ℕ, ℤ}
use study_loop.Json.{Json}
use study_loop.Table.{Table}

pub record Question : Type 0 where
  pub question : String
  pub options : Option (List String)
  pub answer : String
  pub explanation : String
  pub source : String
  pub type_ : String

pub record QuestionGrade : Type 0 where
  pub index : ℤ
  pub question : String
  pub user_answer : String
  pub correct_answer : String
  pub is_correct : Bool
  pub ai_feedback : Option String
  pub knowledge_gap : Option String

-- `score` is a float, kept as its repr.
pub record GradingReport : Type 0 where
  pub session_id : String
  pub total : ℤ
  pub correct : ℤ
  pub score : String
  pub grades : List QuestionGrade

-- `content` stands for the fields that a model has written.
pub record LearningReport : Type 0 where
  pub session_id : String
  pub document_id : String
  pub overall_score : String
  pub content : Json

-- `question_grades` is a dict by question index.
pub record QuizSession : Type 0 where
  pub session_id : String
  pub document_id : String
  pub user_id : String
  pub questions : List Question
  pub user_answers : List String
  pub status : String
  pub question_grades : List (ℤ × QuestionGrade)
  pub grading_report : Option GradingReport
  pub learning_report : Option LearningReport
  pub profile_written : Bool
  pub extras_written : Bool
  pub review_schedule_written : Bool

pub data EvaluationStatus : Type 0 where
  final pending_ai : EvaluationStatus

pub record AnswerResult : Type 0 where
  pub evaluation_status : EvaluationStatus
  pub correct : Option Bool
  pub correct_answer : Option String
  pub explanation : Option String
  pub is_last : Bool
  pub next_index : Option ℤ
  pub revision : Option ℕ
  pub expires_at : Option ℕ

pub data Origin : Type 0 where
  standard wrong_question : Origin

pub record LearningPathQuizSource : Type 0 where
  pub learning_path_id : String
  pub stage_id : ℕ

pub record LearningPathCompletion : Type 0 where
  pub learning_path_id : String
  pub stage_id : ℕ
  pub completed_through : ℕ
  pub revision : ℕ

-- `answer_request_hashes` is a dict by the hash of an idempotency key.
pub record QuizSessionAggregate : Type 0 where
  pub origin : Origin
  pub session : QuizSession
  pub last_answer_index : Option ℕ
  pub last_answer_result : Option AnswerResult
  pub answer_request_hashes : Table String
  pub learning_path_source : Option LearningPathQuizSource
  pub learning_path_completion : Option LearningPathCompletion

abbrev pub is_active : QuizSession → Bool
is_active s = str_eq s.status "active"

abbrev pub is_completed : QuizSession → Bool
is_completed s = str_eq s.status "completed"
