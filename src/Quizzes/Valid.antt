-- ===== src/Quizzes/Valid.antt =====
-- models/session.py: `QuizSessionAggregate.validate_state_machine`, which every payload passes before
-- it is written and after it is read.
use Prim.Native.Char.{code}
use Prim.Native.String.{count}
use study_loop.Base.{
  Bool, List, Option, String, [], false, get_elem?, if◌then◌else◌, int_eq, is_none, is_some, leb,
  length, ltb, negsuc, none, not, pos, some, str_eq, suc, true, zero, ℕ, ℤ, ◌&&◌, ◌-◌, ◌==◌, ◌||◌,
  ◌∷◌,
}
use study_loop.Quizzes.Answers.{answered}
use study_loop.Quizzes.Quiz.{
  AnswerResult, GradingReport, LearningPathCompletion, LearningPathQuizSource, LearningReport,
  Origin, Question, QuestionGrade, QuizSession, QuizSessionAggregate, is_completed, standard,
  wrong_question,
}
use study_loop.Table.{Table}

-- The status and the number of answers.
abbrev pub progress_of : String → ℕ → ℕ → Bool
progress_of status total answered =
    not (total == 0)
    && (leb answered total
        && (str_eq status "active" && ltb answered total
            || str_eq status "completed" && answered == total))

abbrev pub progress_ok : QuizSession → Bool
progress_ok s = progress_of s.status (length s.questions) (length s.user_answers)

abbrev int_is : Option ℤ → ℕ → Bool
int_is none n = false
int_is (some i) n = int_eq i (pos n)

abbrev index_is : Option ℕ → ℕ → Bool
index_is none n = false
index_is (some i) n = i == n

-- The last answer's result says whether the quiz goes on, and where.
abbrev pub result_ok : Bool → ℕ → Option AnswerResult → Bool
result_ok done answered none = false
result_ok done answered (some r) =
    if done
    then r.is_last && is_none r.next_index
    else not r.is_last && int_is r.next_index answered

abbrev pub feedback_of : ℕ → Bool → Option ℕ → Option AnswerResult → Bool
feedback_of answered done index result =
    if answered == 0
    then is_none index && is_none result
    else index_is index (answered - 1) && result_ok done answered result

abbrev pub feedback_ok : QuizSessionAggregate → Bool
feedback_ok a =
    feedback_of (length a.session.user_answers) (is_completed a.session) a.last_answer_index
      a.last_answer_result

-- `all(char in "0123456789abcdef")`.
abbrev hex_code : ℕ → Bool
hex_code c = leb 48 c && leb c 57 || leb 97 c && leb c 102

unfoldable all_hex : String → Bool
all_hex String.[] = true
all_hex (String.◌∷◌ c s) = hex_code (code c) && all_hex s

unfoldable pub is_hash : String → Bool
unfolding all_hex
is_hash s = count s == 64 && all_hex s

abbrev pub bindings_hashed : Table String → Bool
bindings_hashed [] = true
bindings_hashed ((k, r) ∷ t) = is_hash k && (is_hash r && bindings_hashed t)

abbrev pub bindings_ok : QuizSessionAggregate → Bool
bindings_ok a =
    leb (length a.answer_request_hashes) (length a.session.user_answers)
    && bindings_hashed a.answer_request_hashes

abbrev is_standard : Origin → Bool
is_standard standard = true
is_standard wrong_question = false

abbrev completes : LearningPathQuizSource → LearningPathCompletion → Bool
completes source completion =
    str_eq completion.learning_path_id source.learning_path_id
    && completion.stage_id == source.stage_id

-- A quiz of a learning path stage publishes progress only once it is graded and written to memory.
abbrev pub path_ok :
    QuizSessionAggregate → Option LearningPathQuizSource → Option LearningPathCompletion → Bool
path_ok a none completion = is_none completion
path_ok a (some source) none = is_standard a.origin
path_ok a (some source) (some completion) =
    is_standard a.origin
    && (completes source completion
        && (is_some a.session.grading_report && a.session.profile_written))

-- A cached grade is that of the question and the answer at its index.
abbrev pub grade_of : QuestionGrade → ℕ → Option Question → Option String → Bool
grade_of g i (some q) (some answer) =
    int_eq g.index (pos i)
    && (str_eq g.question q.question
        && (str_eq g.user_answer answer && str_eq g.correct_answer q.answer))
grade_of g i _ _ = false

abbrev pub grade_ok : QuizSession → ℤ × QuestionGrade → Bool
grade_ok s (negsuc i, g) = false
grade_ok s (pos i, g) =
    ltb i (length s.questions)
    && (ltb i (length s.user_answers)
        && grade_of g i (get_elem? s.questions i) (get_elem? s.user_answers i))

abbrev pub grades_ok : QuizSession → List (ℤ × QuestionGrade) → Bool
grades_ok s [] = true
grades_ok s (g ∷ gs) = grade_ok s g && grades_ok s gs

abbrev opt_eq : Option String → Option String → Bool
opt_eq none none = true
opt_eq (some a) (some b) = str_eq a b
opt_eq _ _ = false

abbrev bool_eq : Bool → Bool → Bool
bool_eq true b = b
bool_eq false b = not b

-- `grade.model_dump() == other.model_dump()`.
abbrev pub same_grade : QuestionGrade → QuestionGrade → Bool
same_grade g h =
    int_eq g.index h.index
    && (str_eq g.question h.question
        && (str_eq g.user_answer h.user_answer
            && (str_eq g.correct_answer h.correct_answer
                && (bool_eq g.is_correct h.is_correct
                    && (opt_eq g.ai_feedback h.ai_feedback
                        && opt_eq g.knowledge_gap h.knowledge_gap)))))

-- `question_grades[index]`.
abbrev pub cached : List (ℤ × QuestionGrade) → ℕ → Option QuestionGrade
cached [] i = none
cached ((j, g) ∷ gs) i = if int_eq j (pos i) then some g else cached gs i

abbrev pub same_cached : QuestionGrade → Option QuestionGrade → Bool
same_cached g none = false
same_cached g (some h) = same_grade g h

-- The grades from index `i` on have the indices in order and equal the cached ones.
abbrev pub grades_cover : List (ℤ × QuestionGrade) → ℕ → List QuestionGrade → Bool
grades_cover cache i [] = true
grades_cover cache i (g ∷ gs) =
    int_eq g.index (pos i) && (same_cached g (cached cache i) && grades_cover cache (suc i) gs)

abbrev pub count_correct : List QuestionGrade → ℕ
count_correct [] = 0
count_correct (g ∷ gs) = if g.is_correct then suc (count_correct gs) else count_correct gs

abbrev int_leb : ℤ → ℤ → Bool
int_leb (pos m) (pos n) = leb m n
int_leb (pos m) (negsuc n) = false
int_leb (negsuc m) (pos n) = true
int_leb (negsuc m) (negsuc n) = leb n m

abbrev insert_int : ℤ → List ℤ → List ℤ
insert_int k [] = k ∷ []
insert_int k (l ∷ ls) = let rest = insert_int k ls in if int_leb k l then k ∷ l ∷ ls else l ∷ rest

-- `sorted(session.question_grades)`.
abbrev pub sorted_keys : List (ℤ × QuestionGrade) → List ℤ
sorted_keys [] = []
sorted_keys ((i, g) ∷ gs) = insert_int i (sorted_keys gs)

-- `keys == list(range(i, i + n))`.
abbrev pub is_range : ℕ → ℕ → List ℤ → Bool
is_range i zero [] = true
is_range i (suc n) (k ∷ ks) = int_eq k (pos i) && is_range (suc i) n ks
is_range i _ _ = false

-- `rounded` is `round(correct / total, 2)`, as the repr of the float.
abbrev pub grading_ok : (ℕ → ℕ → String) → QuizSession → Option GradingReport → Bool
grading_ok rounded s none = true
grading_ok rounded s (some g) =
    let total = length s.questions in
    let correct = count_correct g.grades in
    is_completed s
    && (str_eq g.session_id s.session_id
        && (int_eq g.total (pos total)
            && (length g.grades == total
                && (is_range 0 total (sorted_keys s.question_grades)
                    && (grades_cover s.question_grades 0 g.grades
                        && (int_eq g.correct (pos correct)
                            && str_eq g.score (rounded correct total)))))))

abbrev pub report_ok : QuizSession → Option GradingReport → Option LearningReport → Bool
report_ok s grading none = true
report_ok s none (some r) = false
report_ok s (some g) (some r) =
    str_eq r.session_id s.session_id
    && (str_eq r.document_id s.document_id && str_eq r.overall_score g.score)

-- `validate_state_machine`, which raises ValueError where this is false.
unfoldable pub validate_state_machine : (ℕ → ℕ → String) → QuizSessionAggregate → Bool
unfolding is_hash
validate_state_machine rounded a =
    progress_ok a.session
    && (feedback_ok a
        && (bindings_ok a
            && (path_ok a a.learning_path_source a.learning_path_completion
                && (grades_ok a.session a.session.question_grades
                    && (grading_ok rounded a.session a.session.grading_report
                        && report_ok a.session a.session.grading_report
                            a.session.learning_report)))))
