-- ===== src/Quizzes/Answers.antt =====
-- services/session.py: `apply_answer_to_session`, `answer_result_for_index` and `build_result`, and
-- what routers/session.py puts into the aggregate once an answer is taken. `answers_match` compares
-- texts after Unicode case folding and regular expressions; it is a parameter here.
use study_loop.Base.{
  Bool, List, Option, String, [], false, get_elem?, if◌then◌else◌, int_eq, leb, length, ltb, none,
  not, pos, some, str_eq, suc, true, ℕ, ◌&&◌, ◌++◌, ◌==◌, ◌∷◌,
}
use study_loop.Base.Result.{Result, err, ok}
use study_loop.Quizzes.Quiz.{
  AnswerResult, EvaluationStatus, GradingReport, Question, QuestionGrade, QuizSession,
  QuizSessionAggregate, final, is_active, is_completed, pending_ai,
}
use study_loop.Table.{Table, put}

-- The texts of SessionConflictError, and IndexError.
pub data Conflict : Type 0 where
  not_accepting all_answered index_moved not_present not_completed : Conflict

abbrev pub is_short : Question → Bool
is_short q = str_eq q.type_ "short_answer"

abbrev pub answer_result : (Question → String → Bool) → Question → String → Bool → ℕ → AnswerResult
answer_result answers_match q answer is_last index =
    if is_short q
    then record {
      evaluation_status = pending_ai;
      correct = none;
      correct_answer = none;
      explanation = none;
      is_last = is_last;
      next_index = if is_last then none else some (pos (suc index));
      revision = none;
      expires_at = none;
    }
    else record {
      evaluation_status = final;
      correct = some (answers_match q answer);
      correct_answer = some q.answer;
      explanation = some q.explanation;
      is_last = is_last;
      next_index = if is_last then none else some (pos (suc index));
      revision = none;
      expires_at = none;
    }

abbrev result_at :
    (Question → String → Bool)
    → ℕ
    → ℕ
    → Option Question
    → Option String
    → Result Conflict AnswerResult
result_at answers_match index total (some q) (some answer) =
    ok (answer_result answers_match q answer (suc index == total) index)
result_at answers_match index total _ _ = err not_present

-- `answer_result_for_index`, for an index that is not negative.
unfoldable pub answer_result_for_index :
    (Question → String → Bool) → QuizSession → ℕ → Result Conflict AnswerResult
answer_result_for_index answers_match s index =
    result_at answers_match index (length s.questions) (get_elem? s.questions index)
      (get_elem? s.user_answers index)

-- The session once the answer is appended.
abbrev pub answered : QuizSession → String → QuizSession
answered s answer =
    let answers = s.user_answers ++ answer ∷ [] in
    record s {
      user_answers = answers;
      status = if length answers == length s.questions then "completed" else s.status;
    }

abbrev pub with_result :
    QuizSession → Result Conflict AnswerResult → Result Conflict (QuizSession × AnswerResult)
with_result s (ok r) = ok (s, r)
with_result s (err e) = err e

abbrev index_moved_from : Option ℕ → ℕ → Bool
index_moved_from none n = false
index_moved_from (some i) n = not (i == n)

-- `apply_answer_to_session` without a `before_commit` hook.
unfoldable pub apply_answer_to_session :
    (Question → String → Bool)
    → QuizSession
    → String
    → Option ℕ
    → Result Conflict (QuizSession × AnswerResult)
unfolding answer_result_for_index
apply_answer_to_session answers_match s answer question_index =
    let current_index = length s.user_answers in
    if not (is_active s)
    then err not_accepting
    else if leb (length s.questions) current_index
    then err all_answered
    else if index_moved_from question_index current_index
    then err index_moved
    else with_result (answered s answer)
        (answer_result_for_index answers_match (answered s answer) current_index)

-- What `answer` of routers/session.py writes into its copy of the aggregate.
abbrev pub bound : Option (String × String) → Table String → Table String
bound none t = t
bound (some (key_hash, request_hash)) t = put key_hash request_hash t

unfoldable pub answer_aggregate :
    (Question → String → Bool)
    → QuizSessionAggregate
    → String
    → ℕ
    → Option (String × String)
    → Result Conflict QuizSessionAggregate
unfolding apply_answer_to_session
answer_aggregate answers_match a answer question_index binding =
    elim (apply_answer_to_session answers_match a.session answer (some question_index)) [
      | err e ↦ err e
      | ok (session, response) ↦ ok (record a {
        session = session;
        last_answer_index = some question_index;
        last_answer_result = some response;
        answer_request_hashes = bound binding a.answer_request_hashes;
      })
    ]

pub record SessionResultDetail : Type 0 where
  pub index : ℕ
  pub question : String
  pub user_answer : String
  pub correct_answer : Option String
  pub correct : Option Bool
  pub explanation : Option String
  pub evaluation_status : EvaluationStatus

pub record SessionResult : Type 0 where
  pub session_id : String
  pub document_id : String
  pub total : ℕ
  pub correct : ℕ
  pub incorrect : ℕ
  pub pending : ℕ
  pub score : Option String
  pub details : List SessionResultDetail

-- `{grade.index: grade for grade in grades}.get(i)`: the last grade of the index.
abbrev pub grade_at : List QuestionGrade → ℕ → Option QuestionGrade
grade_at [] i = none
grade_at (g ∷ gs) i = elim (grade_at gs i) [
  | some h ↦ some h
  | none ↦ if int_eq g.index (pos i) then some g else none
]

abbrev pub cached_grades : Option GradingReport → List QuestionGrade
cached_grades none = []
cached_grades (some g) = g.grades

abbrev pub detail_of :
    (Question → String → Bool) → ℕ → Question → String → Option QuestionGrade → Option Bool
detail_of answers_match i q answer (some g) = some g.is_correct
detail_of answers_match i q answer none = if is_short q then none else some (answers_match q answer)

abbrev pub detail : ℕ → Question → String → Option Bool → SessionResultDetail
detail i q answer none = record {
  index = i;
  question = q.question;
  user_answer = answer;
  correct_answer = none;
  correct = none;
  explanation = none;
  evaluation_status = pending_ai;
}
detail i q answer (some b) = record {
  index = i;
  question = q.question;
  user_answer = answer;
  correct_answer = some q.answer;
  correct = some b;
  explanation = some q.explanation;
  evaluation_status = final;
}

-- The loop of `build_result` over `zip(questions, user_answers)`.
unfoldable pub details_from :
    (Question → String → Bool)
    → List QuestionGrade
    → ℕ
    → List Question
    → List String
    → List SessionResultDetail
details_from answers_match grades i (q ∷ qs) (a ∷ answers) =
    detail i q a (detail_of answers_match i q a (grade_at grades i))
    ∷ details_from answers_match grades (suc i) qs answers
details_from answers_match grades i _ _ = []

abbrev pub has_mark : Option Bool → Option Bool → Bool
has_mark none none = true
has_mark (some true) (some true) = true
has_mark (some false) (some false) = true
has_mark _ _ = false

-- How many details carry the mark: true, false or none.
abbrev pub count_marks : Option Bool → List SessionResultDetail → ℕ
count_marks m [] = 0
count_marks m (d ∷ ds) = if has_mark m d.correct then suc (count_marks m ds) else count_marks m ds

abbrev pub result_score : (ℕ → ℕ → String) → Option GradingReport → ℕ → ℕ → ℕ → Option String
result_score rounded (some g) correct total pending = some g.score
result_score rounded none correct total pending =
    if ltb 0 total && pending == 0 then some (rounded correct total) else none

abbrev pub session_result :
    (ℕ → ℕ → String) → QuizSession → List SessionResultDetail → SessionResult
session_result rounded s details =
    let total = length s.questions in
    let correct = count_marks (some true) details in
    let pending = count_marks none details in
    record {
      session_id = s.session_id;
      document_id = s.document_id;
      total = total;
      correct = correct;
      incorrect = count_marks (some false) details;
      pending = pending;
      score = result_score rounded s.grading_report correct total pending;
      details = details;
    }

-- `build_result`.
unfoldable pub build_result :
    (ℕ → ℕ → String) → (Question → String → Bool) → QuizSession → Result Conflict SessionResult
unfolding details_from
build_result rounded answers_match s =
    if not (is_completed s)
    then err not_completed
    else ok (
        session_result rounded s (
          details_from answers_match (cached_grades s.grading_report) 0 s.questions s.user_answers))
