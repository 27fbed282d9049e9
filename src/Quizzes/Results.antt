-- ===== src/Quizzes/Results.antt =====
-- services/session.py: `build_result` on the quizzes that the validator accepts.
use study_loop.Base.{
  ==_iff, Bool, List, Option, Option-cases, String, [], and_left, and_right, ap, arith, eq_iff,
  false, if◌then◌else◌, inl, inr, int_eq, int_eq-eq, length, none, pos, refl, some, str_eq, subst,
  suc, sym, true, ℕ, ℤ, ◌+◌, ◌<◌, ◌==◌, ◌∙◌, ◌∷◌, ◌≡◌, ◌≤◌,
}
use study_loop.Base.Result.{ok}
use study_loop.Quizzes.Answers.{
  SessionResult, SessionResultDetail, build_result, cached_grades, count_marks, details_from,
  grade_at, has_mark, session_result,
}
use study_loop.Quizzes.Quiz.{
  GradingReport, Question, QuestionGrade, QuizSession, QuizSessionAggregate, is_completed,
}
use study_loop.Quizzes.Valid.{
  bindings_ok, cached, count_correct, feedback_ok, grades_cover, grades_ok, grading_ok, is_range,
  path_ok, progress_of, progress_ok, same_cached, sorted_keys, validate_state_machine,
}

marks_of :
    (m : Option Bool) (ds : List SessionResultDetail)
    → count_marks (some true) ds + count_marks (some false) ds + count_marks none ds ≡ length ds
    → (if has_mark (some true) m
          then suc (count_marks (some true) ds)
          else count_marks (some true) ds)
        + (if has_mark (some false) m
            then suc (count_marks (some false) ds)
            else count_marks (some false) ds)
        + (if has_mark none m then suc (count_marks none ds) else count_marks none ds)
      ≡ suc (length ds)
marks_of none ds e = omega (arith, e)
marks_of (some true) ds e = omega (arith, e)
marks_of (some false) ds e = omega (arith, e)

count-marks :
    (ds : List SessionResultDetail)
    → count_marks (some true) ds + count_marks (some false) ds + count_marks none ds ≡ length ds
count-marks [] = omega arith
count-marks (d ∷ ds) = marks_of d.correct ds (count-marks ds)

length-details :
    (answers_match : Question → String → Bool) (gs : List QuestionGrade) (i : ℕ)
    (qs : List Question) (answers : List String)
    → length qs ≡ length answers
    → length (details_from answers_match gs i qs answers) ≡ length qs
unfolding details_from
length-details answers_match gs i [] answers e = refl
length-details answers_match gs i (q ∷ qs) [] e = omega (arith, e)
length-details answers_match gs i (q ∷ qs) (a ∷ answers) e =
    omega (arith, e, length-details answers_match gs (suc i) qs answers (omega (arith, e)))

-- The grades of a valid report stand in the order of their indices.
grade_at-before :
    (cache : List (ℤ × QuestionGrade)) (i j : ℕ) (gs : List QuestionGrade)
    → i < j
    → grades_cover cache j gs ≡ true
    → grade_at gs i ≡ none
grade_at-before cache i j [] before h = refl
grade_at-before cache i j (g ∷ gs) before h =
    let at = int_eq-eq g.index (pos j) (and_left _ _ h) in
    let rest =
      grade_at-before cache i (suc j) gs (omega (arith, before))
        (and_right (same_cached g (cached cache j)) _ (and_right (int_eq g.index (pos j)) _ h)) in
    rw (rest, at) (ground arith)

grade_at-tail :
    (g : QuestionGrade) (gs : List QuestionGrade) (i j : ℕ)
    → g.index ≡ pos i
    → i < j
    → grade_at (g ∷ gs) j ≡ grade_at gs j
grade_at-tail g gs i j at after = elim (Option-cases (grade_at gs j)) [
  | inl absent ↦ rw (absent, at) (ground arith)
  | inr (h, there) ↦ rw there refl
]

mark_true :
    (b : Bool) (m n : ℕ)
    → m ≡ n
    → (if has_mark (some true) (some b) then suc m else m) ≡ (if b then suc n else n)
mark_true true m n e = ap suc e
mark_true false m n e = e

mark_none : (b : Bool) (m : ℕ) → m ≡ 0 → (if has_mark none (some b) then suc m else m) ≡ 0
mark_none true m e = e
mark_none false m e = e

-- The marks of a graded quiz are the grades, one by one.
marks-graded :
    (answers_match : Question → String → Bool) (cache : List (ℤ × QuestionGrade))
    (all_ : List QuestionGrade) (i : ℕ) (qs : List Question) (answers : List String)
    (gs : List QuestionGrade)
    → length qs ≡ length answers
    → length gs ≡ length qs
    → ((j : ℕ) → i ≤ j → grade_at all_ j ≡ grade_at gs j)
    → grades_cover cache i gs ≡ true
    → (count_marks (some true) (details_from answers_match all_ i qs answers) ≡ count_correct gs)
      × (count_marks none (details_from answers_match all_ i qs answers) ≡ 0)
unfolding details_from
marks-graded answers_match cache all_ i [] answers [] e f same h = (refl, refl)
marks-graded answers_match cache all_ i [] answers (g ∷ gs) e f same h = absurd (omega (arith, f))
marks-graded answers_match cache all_ i (q ∷ qs) [] gs e f same h = absurd (omega (arith, e))
marks-graded answers_match cache all_ i (q ∷ qs) (a ∷ answers) [] e f same h =
    absurd (omega (arith, f))
marks-graded answers_match cache all_ i (q ∷ qs) (a ∷ answers) (g ∷ gs) e f same h =
    let at = int_eq-eq g.index (pos i) (and_left _ _ h) in
    let tail_ =
      and_right (same_cached g (cached cache i)) _ (and_right (int_eq g.index (pos i)) _ h) in
    let here : grade_at all_ i ≡ some g =
      same i (omega arith)
      ∙ rw (grade_at-before cache i (suc i) gs (omega arith) tail_, at) (ground arith) in
    let rest =
      marks-graded answers_match cache all_ (suc i) qs answers gs (omega (arith, e))
        (omega (arith, f))
        (λ j after.
          same j (omega (arith, after)) ∙ grade_at-tail g gs i j at (omega (arith, after)))
        tail_ in
    (rw here (mark_true g.is_correct _ _ rest.0), rw here (mark_none g.is_correct _ rest.1))

-- A completed session has as many answers as questions.
completed-length :
    (status : String) (total n : ℕ)
    → progress_of status total n ≡ true
    → str_eq status "completed" ≡ true
    → total ≡ n
completed-length status total n h done =
    let inactive =
      subst (λ x. str_eq x "active" ≡ false) (sym ((eq_iff status "completed").0 done)) refl in
    ground (arith, inactive)

-- What the validator asks of a grading report.
graded_parts :
    (rounded : ℕ → ℕ → String) (s : QuizSession) (g : GradingReport)
    → grading_ok rounded s (some g) ≡ true
    → (length g.grades ≡ length s.questions)
      × (grades_cover s.question_grades 0 g.grades ≡ true)
      × (g.correct ≡ pos (count_correct g.grades))
graded_parts rounded s g h =
    let total = length s.questions in
    let h1 = and_right (is_completed s) _ h in
    let h2 = and_right (str_eq g.session_id s.session_id) _ h1 in
    let h3 = and_right (int_eq g.total (pos total)) _ h2 in
    let h4 = and_right (length g.grades == total) _ h3 in
    let h5 = and_right (is_range 0 total (sorted_keys s.question_grades)) _ h4 in
    let h6 = and_right (grades_cover s.question_grades 0 g.grades) _ h5 in
    ((==_iff _ _).0 (and_left _ _ h3), and_left _ _ h5, int_eq-eq _ _ (and_left _ _ h6))

module _ (rounded : ℕ → ℕ → String) (answers_match : Question → String → Bool)
    (a : QuizSessionAggregate) (h : validate_state_machine rounded a ≡ true)
    (done : is_completed a.session ≡ true) where
  same-length : length a.session.questions ≡ length a.session.user_answers
  unfolding validate_state_machine
  same-length = completed-length a.session.status _ _ (and_left _ _ h) done

  valid-grading : grading_ok rounded a.session a.session.grading_report ≡ true
  unfolding validate_state_machine
  valid-grading = and_left _ _ (
      and_right (grades_ok a.session a.session.question_grades) _ (
        and_right (path_ok a a.learning_path_source a.learning_path_completion) _ (
          and_right (bindings_ok a) _
            (and_right (feedback_ok a) _ (and_right (progress_ok a.session) _ h)))))

  built :
      build_result rounded answers_match a.session
      ≡ ok (
          session_result rounded a.session (
            details_from answers_match
              (cached_grades a.session.grading_report)
              0
              a.session.questions
              a.session.user_answers))
  unfolding build_result
  built = rw done refl

  -- The result of a completed quiz that the validator accepts adds up: every question is counted
  -- once, as correct, incorrect or pending, with one detail each.
  pub result_adds_up :
      (r : SessionResult) × (build_result rounded answers_match a.session ≡ ok r)
      × (r.total ≡ length a.session.questions)
      × (r.correct + r.incorrect + r.pending ≡ r.total)
      × (length r.details ≡ r.total)
  result_adds_up =
      let details =
        details_from answers_match (cached_grades a.session.grading_report) 0 a.session.questions
          a.session.user_answers in
      let size =
        length-details answers_match (cached_grades a.session.grading_report) 0 a.session.questions
          a.session.user_answers same-length in
      (session_result rounded a.session details, built, refl, count-marks details ∙ size, size)

  -- Once a completed quiz is graded, its result has no pending question, and its number of correct
  -- answers and its score are those of the grading report that the validator has accepted.
  pub graded_result_agrees :
      (g : GradingReport)
      → a.session.grading_report ≡ some g
      → (r : SessionResult) × (build_result rounded answers_match a.session ≡ ok r)
        × (r.pending ≡ 0)
        × (g.correct ≡ pos r.correct)
        × (r.score ≡ some g.score)
  graded_result_agrees g graded =
      let checked : grading_ok rounded a.session (some g) ≡ true =
        subst (λ o. grading_ok rounded a.session o ≡ true) graded valid-grading in
      let (size, covered, counted) = graded_parts rounded a.session g checked in
      let marks =
        marks-graded answers_match a.session.question_grades g.grades 0 a.session.questions
          a.session.user_answers g.grades same-length size (λ j _. refl) covered in
      (
        session_result rounded a.session (
            details_from answers_match (cached_grades a.session.grading_report) 0
              a.session.questions a.session.user_answers),
        built,
        rw graded marks.1,
        rw graded (counted ∙ ap pos (sym marks.0)),
        rw graded refl,
      )
