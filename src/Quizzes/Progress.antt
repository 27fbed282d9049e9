-- ===== src/Quizzes/Progress.antt =====
-- services/session.py and models/session.py: an accepted answer, check by check of the validator.
use study_loop.Base.{
  Bool, List, Option, String, [], and_left, arith, eq_iff, false, get_elem?, get_elem?-append,
  get_elem?-in, get_elem?-last, if◌then◌else◌, leb, length, length-append, ltb, negsuc, none, pos,
  refl, some, str_eq, subst, suc, sym, true, ℕ, ℤ, ◌&&◌, ◌++◌, ◌<◌, ◌==◌, ◌∷◌, ◌≡◌, ◌≤◌,
}
use study_loop.Base.Result.{ok}
use study_loop.Quizzes.Answers.{
  answer_aggregate, answer_result, answer_result_for_index, answered, apply_answer_to_session,
  bound,
}
use study_loop.Quizzes.Quiz.{
  AnswerResult, Question, QuestionGrade, QuizSession, QuizSessionAggregate, is_active, is_completed,
}
use study_loop.Quizzes.Valid.{
  bindings_hashed, feedback_of, feedback_ok, grade_ok, grades_ok, is_hash, progress_of, progress_ok,
}
use study_loop.Table.{Table, put}

-- A session that takes answers, and the question that it waits for.
abbrev pub awaits : QuizSession → Bool
awaits s = is_active s && ltb (length s.user_answers) (length s.questions)

pub next_question :
    (s : QuizSession)
    → awaits s ≡ true
    → (q : Question) × (get_elem? s.questions (length s.user_answers) ≡ some q)
next_question s h = get_elem?-in (length s.user_answers) s.questions (ground arith)

module _ (answers_match : Question → String → Bool) (s : QuizSession) (answer : String)
    (q : Question) (waiting : awaits s ≡ true)
    (asked : get_elem? s.questions (length s.user_answers) ≡ some q) where
  answer_result-next :
      answer_result_for_index answers_match (answered s answer) (length s.user_answers)
      ≡ ok (
          answer_result answers_match q answer
            (suc (length s.user_answers) == length s.questions)
            (length s.user_answers))
  unfolding answer_result_for_index
  answer_result-next = rw (asked, get_elem?-last s.user_answers answer) refl

  apply_answer-next :
      apply_answer_to_session answers_match s answer (some (length s.user_answers))
      ≡ ok (
        answered s answer,
        answer_result answers_match q answer
            (suc (length s.user_answers) == length s.questions)
            (length s.user_answers),
      )
  unfolding apply_answer_to_session
  apply_answer-next = ground (arith, answer_result-next)

-- The aggregate after the answer.
abbrev pub after_answer :
    (Question → String → Bool)
    → QuizSessionAggregate
    → String
    → Question
    → Option (String × String)
    → QuizSessionAggregate
after_answer answers_match a answer q binding =
    let n = length a.session.user_answers in
    record a {
      session = answered a.session answer;
      last_answer_index = some n;
      last_answer_result =
          some (answer_result answers_match q answer (suc n == length a.session.questions) n);
      answer_request_hashes = bound binding a.answer_request_hashes;
    }

pub answer_aggregate-next :
    (answers_match : Question → String → Bool) (a : QuizSessionAggregate) (answer : String)
    (binding : Option (String × String)) (q : Question)
    → awaits a.session ≡ true
    → get_elem? a.session.questions (length a.session.user_answers) ≡ some q
    → answer_aggregate answers_match a answer (length a.session.user_answers) binding
      ≡ ok (after_answer answers_match a answer q binding)
unfolding answer_aggregate
answer_aggregate-next answers_match a answer binding q waiting asked =
    ground (arith, apply_answer-next answers_match a.session answer q waiting asked)

-- The parts of the validator, one by one.
next_progress :
    (b : Bool) (status : String) (total n m : ℕ)
    → (m == total) ≡ b
    → m ≡ suc n
    → progress_of status total n ≡ true
    → (str_eq status "active" && ltb n total) ≡ true
    → progress_of (if b then "completed" else status) total m ≡ true
next_progress true status total n m last e h active = ground arith
next_progress false status total n m more e h active = ground arith

module _ (s : QuizSession) (answer : String) (waiting : awaits s ≡ true) where
  pub length-answered : length (s.user_answers ++ answer ∷ []) ≡ suc (length s.user_answers)
  length-answered = omega (arith, length-append s.user_answers (answer ∷ []))

  pub progress-answered : progress_ok s ≡ true → progress_ok (answered s answer) ≡ true
  progress-answered h =
      next_progress _ s.status (length s.questions) (length s.user_answers)
        (length (s.user_answers ++ answer ∷ [])) refl length-answered h waiting

  pub grade-answered :
      (g : ℤ × QuestionGrade) → grade_ok s g ≡ true → grade_ok (answered s answer) g ≡ true
  grade-answered (negsuc i, g) h = h
  grade-answered (pos i, g) h =
      let before : i < length s.user_answers = ground arith in
      ground (arith, length-answered, get_elem?-append i s.user_answers (answer ∷ []) before)

  pub grades-answered :
      (gs : List (ℤ × QuestionGrade))
      → grades_ok s gs ≡ true
      → grades_ok (answered s answer) gs ≡ true
  grades-answered [] h = refl
  grades-answered (g ∷ gs) h = ground (arith, grade-answered g, grades-answered gs)

next_feedback :
    (b : Bool) (n m : ℕ) (r : AnswerResult)
    → m ≡ suc n
    → r.is_last ≡ b
    → r.next_index ≡ (if b then none else some (pos (suc n)))
    → feedback_of m b (some n) (some r) ≡ true
next_feedback true n m r e last next = ground arith
next_feedback false n m r e more next = ground arith

next_completed :
    (b : Bool) (status : String)
    → str_eq status "active" ≡ true
    → str_eq (if b then "completed" else status) "completed" ≡ b
next_completed true status active = refl
next_completed false status active =
    subst (λ x. str_eq x "completed" ≡ false) (sym ((eq_iff status "active").0 active)) refl

module _ (answers_match : Question → String → Bool) (q : Question) (answer : String) (b : Bool)
    (n : ℕ) where
  is_last-answer_result : (answer_result answers_match q answer b n).is_last ≡ b
  is_last-answer_result = ground arith

  next_index-answer_result :
      (answer_result answers_match q answer b n).next_index
      ≡ (if b then none else some (pos (suc n)))
  next_index-answer_result = ground arith

pub feedback-answered :
    (answers_match : Question → String → Bool) (a : QuizSessionAggregate) (answer : String)
    (binding : Option (String × String)) (q : Question)
    → awaits a.session ≡ true
    → feedback_ok (after_answer answers_match a answer q binding) ≡ true
feedback-answered answers_match a answer binding q waiting =
    let s = a.session in
    let n = length s.user_answers in
    let b = suc n == length s.questions in
    let grown = length-answered s answer waiting in
    let done : is_completed (answered s answer) ≡ b =
      rw grown (next_completed b s.status (and_left _ _ waiting)) in
    rw done (
      next_feedback b n (length (s.user_answers ++ answer ∷ []))
        (answer_result answers_match q answer b n) grown
        (is_last-answer_result answers_match q answer b n)
        (next_index-answer_result answers_match q answer b n))

abbrev pub binding_hashed : Option (String × String) → Bool
binding_hashed none = true
binding_hashed (some (key_hash, request_hash)) = is_hash key_hash && is_hash request_hash

hashed-put :
    (k r : String) (t : Table String)
    → bindings_hashed t ≡ true
    → (is_hash k && is_hash r) ≡ true
    → bindings_hashed (put k r t) ≡ true
unfolding put
hashed-put k r [] h e = ground arith
hashed-put k r ((j, s) ∷ t) h e = ground (arith, hashed-put k r t)

length-put : (k r : String) (t : Table String) → length (put k r t) ≤ suc (length t)
unfolding put
length-put k r [] = omega arith
length-put k r ((j, s) ∷ t) = ground (arith, length-put k r t)

pub bindings-answered :
    (s : QuizSession) (answer : String) (binding : Option (String × String)) (t : Table String)
    → awaits s ≡ true
    → (leb (length t) (length s.user_answers) && bindings_hashed t) ≡ true
    → binding_hashed binding ≡ true
    → (leb (length (bound binding t)) (length (s.user_answers ++ answer ∷ []))
        && bindings_hashed (bound binding t))
      ≡ true
bindings-answered s answer none t waiting h e = ground (arith, length-answered s answer waiting)
bindings-answered s answer (some (k, r)) t waiting h e =
    ground (arith, length-answered s answer waiting, hashed-put k r t, length-put k r t)
