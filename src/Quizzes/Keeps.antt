-- ===== src/Quizzes/Keeps.antt =====
-- services/session.py with models/session.py: the branches of an answer to a valid aggregate.
use study_loop.Base.{
  ==_iff, Bool, Bool-cases, Option, String, [], and_left, and_right, arith, eq_iff, false,
  false≢true, inl, inr, length, ltb, none, refl, some, str_eq, subst, sym, true, ℕ, ◌&&◌, ◌++◌,
  ◌==◌, ◌∷◌, ◌≡◌, ◌≢◌, ◌⊎◌,
}
use study_loop.Base.Result.{err, ok}
use study_loop.Quizzes.Answers.{
  answer_aggregate, answered, apply_answer_to_session, index_moved, not_accepting,
}
use study_loop.Quizzes.Progress.{
  after_answer, answer_aggregate-next, awaits, binding_hashed, bindings-answered, feedback-answered,
  grades-answered, next_question, progress-answered,
}
use study_loop.Quizzes.Quiz.{
  GradingReport, LearningPathCompletion, LearningPathQuizSource, LearningReport, Question,
  QuizSession, QuizSessionAggregate, is_active, is_completed,
}
use study_loop.Quizzes.Valid.{
  bindings_ok, feedback_ok, grades_ok, grading_ok, path_ok, progress_of, progress_ok, report_ok,
  validate_state_machine,
}

-- The parts of the validator that an answer leaves as they are.
path-answered :
    (answers_match : Question → String → Bool) (a : QuizSessionAggregate) (answer : String)
    (q : Question) (binding : Option (String × String)) (source : Option LearningPathQuizSource)
    (completion : Option LearningPathCompletion)
    → path_ok a source completion ≡ true
    → path_ok (after_answer answers_match a answer q binding) source completion ≡ true
path-answered answers_match a answer q binding none completion h = h
path-answered answers_match a answer q binding (some source) none h = h
path-answered answers_match a answer q binding (some source) (some completion) h = h

-- A session that takes answers has no grading report yet.
grading-answered :
    (rounded : ℕ → ℕ → String) (s : QuizSession) (answer : String) (g : Option GradingReport)
    → is_active s ≡ true
    → grading_ok rounded s g ≡ true
    → grading_ok rounded (answered s answer) g ≡ true
grading-answered rounded s answer none active h = refl
grading-answered rounded s answer (some g) active h = absurd (
    false≢true (
      subst (λ x. str_eq x "completed" ≡ true) ((eq_iff s.status "active").0 active)
        (and_left (is_completed s) _ h)))

report-answered :
    (s : QuizSession) (answer : String) (g : Option GradingReport) (r : Option LearningReport)
    → report_ok s g r ≡ true
    → report_ok (answered s answer) g r ≡ true
report-answered s answer g none h = refl
report-answered s answer none (some r) h = h
report-answered s answer (some g) (some r) h = h

pub and_intro : (a b : Bool) → a ≡ true → b ≡ true → (a && b) ≡ true
and_intro true b h e = e
and_intro false b h e = h

pub valid-answered :
    (rounded : ℕ → ℕ → String) (answers_match : Question → String → Bool) (a : QuizSessionAggregate)
    (answer : String) (binding : Option (String × String)) (q : Question)
    → validate_state_machine rounded a ≡ true
    → binding_hashed binding ≡ true
    → awaits a.session ≡ true
    → validate_state_machine rounded (after_answer answers_match a answer q binding) ≡ true
unfolding validate_state_machine
valid-answered rounded answers_match a answer binding q h hashed waiting =
    let s = a.session in
    let h1 = and_right (progress_ok s) _ h in
    let h2 = and_right (feedback_ok a) _ h1 in
    let h3 = and_right (bindings_ok a) _ h2 in
    let h4 = and_right (path_ok a a.learning_path_source a.learning_path_completion) _ h3 in
    let h5 = and_right (grades_ok s s.question_grades) _ h4 in
    and_intro _ _ (progress-answered s answer waiting (and_left _ _ h)) (
      and_intro _ _ (feedback-answered answers_match a answer binding q waiting) (
        and_intro _ _
          (bindings-answered s answer binding a.answer_request_hashes waiting (and_left _ _ h2)
            hashed)
          (and_intro _ _
            (path-answered answers_match a answer q binding a.learning_path_source
              a.learning_path_completion (and_left _ _ h3))
            (and_intro _ _ (grades-answered s answer waiting s.question_grades (and_left _ _ h4)) (
              and_intro _ _
                (grading-answered rounded s answer s.grading_report (and_left _ _ waiting)
                  (and_left _ _ h5))
                (report-answered s answer s.grading_report s.learning_report
                  (and_right (grading_ok rounded s s.grading_report) _ h5)))))))

-- A valid session is active with a question left, or completed.
pub valid-progress :
    (status : String) (total n : ℕ)
    → progress_of status total n ≡ true
    → ((str_eq status "active" && ltb n total) ≡ true) ⊎ (str_eq status "completed" ≡ true)
valid-progress status total n h = grind arith

not_active : (status : String) → str_eq status "completed" ≡ true → str_eq status "active" ≡ false
not_active status h =
    subst (λ x. str_eq x "active" ≡ false) (sym ((eq_iff status "completed").0 h)) refl

pub answer-completed :
    (answers_match : Question → String → Bool) (a : QuizSessionAggregate) (answer : String)
    (index : ℕ) (binding : Option (String × String))
    → is_completed a.session ≡ true
    → answer_aggregate answers_match a answer index binding ≡ err not_accepting
unfolding answer_aggregate apply_answer_to_session
answer-completed answers_match a answer index binding done =
    ground (arith, not_active a.session.status done)

pub answer-moved :
    (answers_match : Question → String → Bool) (a : QuizSessionAggregate) (answer : String)
    (index : ℕ) (binding : Option (String × String))
    → awaits a.session ≡ true
    → index ≢ length a.session.user_answers
    → answer_aggregate answers_match a answer index binding ≡ err index_moved
unfolding answer_aggregate apply_answer_to_session
answer-moved answers_match a answer index binding waiting moved = grind arith

-- An answer to a valid aggregate, on every branch: the answer to the open question of an active
-- quiz is appended, and the aggregate that is written is valid again; a completed quiz takes none;
-- and an answer to another question is refused.
pub answer_keeps_valid :
    (rounded : ℕ → ℕ → String) (answers_match : Question → String → Bool) (a : QuizSessionAggregate)
    (answer : String) (index : ℕ) (binding : Option (String × String))
    → validate_state_machine rounded a ≡ true
    → binding_hashed binding ≡ true
    → ((is_active a.session ≡ true)
        × (index ≡ length a.session.user_answers)
        × ((b : QuizSessionAggregate) × (answer_aggregate answers_match a answer index binding
              ≡ ok b)
            × (b.session.user_answers ≡ a.session.user_answers ++ answer ∷ [])
            × (validate_state_machine rounded b ≡ true)))
      ⊎ (((is_completed a.session ≡ true)
            × (answer_aggregate answers_match a answer index binding ≡ err not_accepting))
          ⊎ ((is_active a.session ≡ true)
              × (index ≢ length a.session.user_answers)
              × (answer_aggregate answers_match a answer index binding ≡ err index_moved)))
unfolding validate_state_machine
answer_keeps_valid rounded answers_match a answer index binding h hashed =
    elim (valid-progress a.session.status _ _ (and_left _ _ h)) [
      | inr done ↦ inr (inl (done, answer-completed answers_match a answer index binding done))
      | inl waiting ↦ elim (Bool-cases (index == length a.session.user_answers)) [
        | inr no_ ↦
            let moved : index ≢ length a.session.user_answers = λ e. ground (arith, e, no_) in
            inr (
              inr (
                and_left _ _ waiting,
                moved,
                answer-moved answers_match a answer index binding waiting moved,
              ))
        | inl yes_ ↦
            let same = (==_iff index (length a.session.user_answers)).0 yes_ in
            let (q, asked) = next_question a.session waiting in
            inl (
              and_left _ _ waiting,
              same,
              (
                after_answer answers_match a answer q binding,
                subst
                    (λ i.
                      answer_aggregate answers_match a answer i binding
                      ≡ ok (after_answer answers_match a answer q binding))
                    (sym same)
                    (answer_aggregate-next answers_match a answer binding q waiting asked),
                refl,
                valid-answered rounded answers_match a answer binding q h hashed waiting,
              ),
            )
      ]
    ]
