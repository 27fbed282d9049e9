-- ===== src/Paths/Covers.antt =====
-- services/learning_path_store.py: what the record that a completion answers says of the stage.
use study_loop.Base.{
  is_some, Bool-cases, Option-cases, subst, inl, inr, List, arith, leb, ltb, some, none, str_eq,
  suc, true, ℕ, ◌&&◌, ◌≤◌, ◌==◌, ◌||◌, ◌∷◌, ◌≡◌,
}
use study_loop.Base.Result.{Result-cases, ok}
use study_loop.Paths.Row.{
  Completion, LearningPathRecord, PathCodec, PathRow, completion_ok, record_with_progress,
}
use study_loop.Table.{Table, find}
use study_loop.Paths.Stages.{
  StageRequest, by_quiz, append_stage, answer_or, reread, raced, lost_insert, stage_of_record,
  stage_in_order, receipt_fault, complete_stage_sync, by_stage, new_completion,
}
use study_loop.Paths.Reading.{new-listed, quiz-listed, read-covers, stage-listed}

-- What a read of the store says after the stage is completed.
module _ (cx : PathCodec) (q : StageRequest) (row : PathRow) (now : ℕ) where
  abbrev Covers : LearningPathRecord → List Completion → Type 0
  Covers r cs =
      (record_with_progress cx q.path_id row cs ≡ ok r) × (q.stage_id ≤ r.completed_through)

  receipt-place :
      (c : Completion)
      → receipt_fault cx q c ≡ none
      → (str_eq c.path_id q.path_id ≡ true) × ((c.stage_id == q.stage_id) ≡ true)
  unfolding receipt_fault
  receipt-place c e = ground (arith, e)

  raced-Covers :
      (cs cs' : List Completion) (r : LearningPathRecord)
      → raced cx q row cs (by_stage q.path_id q.stage_id cs) ≡ (ok r, cs')
      → Covers r cs'
  unfolding raced
  raced-Covers cs cs' r e = elim (Option-cases (by_stage q.path_id q.stage_id cs)) [
    | inl out ↦ absurd (ground (arith, e, out))
    | inr (c, found) ↦ elim (Bool-cases (completion_ok cx c)) [
      | inr bad ↦ absurd (ground (arith, e, found, bad))
      | inl good ↦
          let read : record_with_progress cx q.path_id row cs ≡ ok r =
            ground (arith, e, found, good) in
          let there = stage-listed q.path_id q.stage_id cs c found in
          let same : cs ≡ cs' = ground (arith, e, found, good) in
          subst (λ x. Covers r x) same
            (read, read-covers cx q.path_id row q.stage_id cs r read there)
    ]
  ]

  lost-raced :
      (cs cs' : List Completion) (r : LearningPathRecord)
      → lost_insert cx q row cs ≡ (ok r, cs')
      → raced cx q row cs (by_stage q.path_id q.stage_id cs) ≡ (ok r, cs')
  unfolding lost_insert
  lost-raced cs cs' r e = elim (Option-cases (by_quiz q.quiz_session_id cs)) [
    | inl out ↦ ground (arith, e, out)
    | inr (c, found) ↦ elim (Option-cases (receipt_fault cx q c)) [
      | inl fine ↦ ground (arith, e, found, fine)
      | inr (x, bad) ↦ absurd (ground (arith, e, found, bad))
    ]
  ]

  lost-Covers :
      (cs cs' : List Completion) (r : LearningPathRecord)
      → lost_insert cx q row cs ≡ (ok r, cs')
      → Covers r cs'
  lost-Covers cs cs' r e = raced-Covers cs cs' r (lost-raced cs cs' r e)

  reread-Covers :
      (cs cs' : List Completion) (r : LearningPathRecord)
      → reread cs
          (new_completion cx q now ∷ cs)
          (record_with_progress cx q.path_id row (new_completion cx q now ∷ cs))
        ≡ (ok r, cs')
      → Covers r cs'
  reread-Covers cs cs' r e =
      let grown = new_completion cx q now ∷ cs in
      elim (Result-cases (record_with_progress cx q.path_id row grown)) [
        | inr (x, bad) ↦ absurd (ground (arith, e, bad))
        | inl (r1, read1) ↦
            let read : record_with_progress cx q.path_id row grown ≡ ok r =
              ground (arith, e, read1) in
            let same : grown ≡ cs' = ground (arith, e, read1) in
            subst (λ x. Covers r x) same
              (read, read-covers cx q.path_id row q.stage_id grown r read (new-listed cx q now cs))
      ]

  append-Covers :
      (cs cs' : List Completion) (r : LearningPathRecord)
      → append_stage cx q row now cs ≡ (ok r, cs')
      → Covers r cs'
  unfolding append_stage
  append-Covers cs cs' r e =
      elim (Bool-cases
        (is_some (by_stage q.path_id q.stage_id cs) || is_some (by_quiz q.quiz_session_id cs))) [
          | inl taken ↦ lost-Covers cs cs' r (ground (arith, e, taken))
          | inr free ↦ reread-Covers cs cs' r (ground (arith, e, free))
        ]

  order-Covers :
      (between : List Completion → List Completion) (cs cs' : List Completion)
      (base r : LearningPathRecord)
      → record_with_progress cx q.path_id row cs ≡ ok base
      → stage_in_order between cx q row base now cs ≡ (ok r, cs')
      → Covers r cs'
  unfolding stage_in_order
  order-Covers between cs cs' base r read e =
      elim (Bool-cases (leb q.stage_id base.completed_through)) [
        | inl done ↦
            let same : cs ≡ cs' = ground (arith, e, done) in
            let whole : base ≡ r = ground (arith, e, done) in
            subst (λ x. Covers r x) same
              (subst (λ x. Covers x cs) whole (read, ground (arith, done)))
        | inr early ↦ elim (Bool-cases (q.stage_id == suc base.completed_through)) [
          | inl next ↦ append-Covers (between cs) cs' r (ground (arith, e, early, next))
          | inr locked ↦ absurd (ground (arith, e, early, locked))
        ]
      ]

  receipt-Covers :
      (cs cs' : List Completion) (base r : LearningPathRecord) (c : Completion)
      → record_with_progress cx q.path_id row cs ≡ ok base
      → by_quiz q.quiz_session_id cs ≡ some c
      → answer_or (receipt_fault cx q c) (ok base, cs) cs ≡ (ok r, cs')
      → Covers r cs'
  receipt-Covers cs cs' base r c read found e = elim (Option-cases (receipt_fault cx q c)) [
    | inr (x, bad) ↦ absurd (ground (arith, e, bad))
    | inl fine ↦
        let (at_path, at_stage) = receipt-place c fine in
        let there =
          quiz-listed q.quiz_session_id q.path_id q.stage_id cs c found at_path at_stage in
        let same : cs ≡ cs' = ground (arith, e, fine) in
        let whole : base ≡ r = ground (arith, e, fine) in
        subst (λ x. Covers r x) same
          (subst (λ x. Covers x cs) whole
            (read, read-covers cx q.path_id row q.stage_id cs base read there))
  ]

  pub record-Covers :
      (between : List Completion → List Completion) (cs cs' : List Completion)
      (base r : LearningPathRecord)
      → record_with_progress cx q.path_id row cs ≡ ok base
      → stage_of_record between cx q row base now cs ≡ (ok r, cs')
      → Covers r cs'
  unfolding stage_of_record
  record-Covers between cs cs' base r read e =
      elim (Bool-cases (str_eq base.user_id q.user_id && str_eq base.document_id q.document_id)) [
        | inr foreign ↦ absurd (ground (arith, e, foreign))
        | inl mine ↦ elim (Bool-cases (ltb base.path.total_stages q.stage_id)) [
          | inl beyond ↦ absurd (ground (arith, e, mine, beyond))
          | inr within ↦ elim (Option-cases (by_quiz q.quiz_session_id cs)) [
            | inl new_quiz ↦
                order-Covers between cs cs' base r read (ground (arith, e, mine, within, new_quiz))
            | inr (c, found) ↦
                receipt-Covers cs cs' base r c read found (ground (arith, e, mine, within, found))
          ]
        ]
      ]

-- Where a completion is answered with a record, the path is stored, the record is the one that reads
-- from its row and the completions that are left behind, and the stage is among those that the record
-- counts as completed.
pub completion_covers :
    (between : List Completion → List Completion) (cx : PathCodec) (q : StageRequest) (now : ℕ)
    (paths : Table PathRow) (cs cs' : List Completion) (r : LearningPathRecord)
    → complete_stage_sync between cx q now paths cs ≡ (ok r, cs')
    → (row : PathRow) × (find q.path_id paths ≡ some row)
      × (record_with_progress cx q.path_id row cs' ≡ ok r)
      × (q.stage_id ≤ r.completed_through)
unfolding complete_stage_sync
completion_covers between cx q now paths cs cs' r e = elim (Option-cases (find q.path_id paths)) [
  | inl out ↦ absurd (ground (arith, e, out))
  | inr (row, found) ↦ elim (Result-cases (record_with_progress cx q.path_id row cs)) [
    | inr (x, bad) ↦ absurd (ground (arith, e, found, bad))
    | inl (base, read) ↦
        let (reads, covers) =
          record-Covers cx q row now between cs cs' base r read (ground (arith, e, found, read)) in
        (row, found, reads, covers)
  ]
]
