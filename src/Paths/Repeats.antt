-- ===== src/Paths/Repeats.antt =====
-- services/learning_path_store.py: a completion that is asked for again.
use study_loop.Base.{
  Bool, Bool-cases, List, Option-cases, String, [], ap, arith, eq_refl, false, inl, inr, is_some,
  leb, length, ltb, none, refl, some, str_eq, subst, suc, sym, true, ℕ, ◌&&◌, ◌==◌, ◌||◌, ◌∷◌, ◌≡◌,
  ◌⊎◌,
}
use study_loop.Base.Result.{Result-cases, ok, ok_injective}
use study_loop.Paths.Covers.{record-Covers}
use study_loop.Paths.Reading.{history-step, progress-read, record_through, row-reads}
use study_loop.Paths.Row.{
  Completion, LearningPathRecord, PathCodec, PathRow, completion_ok, history_ok, insert_stage,
  record_with_progress, row_to_record, stages_of,
}
use study_loop.Paths.Stages.{
  StageRequest, answer_or, append_stage, by_quiz, by_stage, complete_stage_sync, lost_insert,
  new_completion, raced, receipt_fault, reread, stage_in_order, stage_of_record,
}
use study_loop.Table.{Table, find}

unfoldable all_ok : PathCodec → List Completion → Bool
all_ok cx [] = true
all_ok cx (c ∷ cs) = completion_ok cx c && all_ok cx cs

all_ok-insert_stage :
    (cx : PathCodec) (c : Completion) (cs : List Completion)
    → all_ok cx (insert_stage c cs) ≡ all_ok cx (c ∷ cs)
unfolding all_ok insert_stage
all_ok-insert_stage cx c [] = refl
all_ok-insert_stage cx c (d ∷ ds) = ground (arith, all_ok-insert_stage cx c ds)

history-all_ok :
    (cx : PathCodec) (base : LearningPathRecord) (e : ℕ) (cs : List Completion)
    → history_ok cx base e cs ≡ true
    → all_ok cx cs ≡ true
unfolding all_ok
history-all_ok cx base e [] h = refl
history-all_ok cx base e (c ∷ cs) h =
    let (good, at, rest) = history-step cx base e c cs h in
    ground (arith, good, history-all_ok cx base (suc e) cs rest)

-- Two reads of the same row are of the same path.
row-fields :
    (cx : PathCodec) (path_id : String) (row : PathRow) (n m : ℕ) (r s : LearningPathRecord)
    → row_to_record cx path_id row n ≡ ok r
    → row_to_record cx path_id row m ≡ ok s
    → (r.user_id ≡ s.user_id) × (r.document_id ≡ s.document_id) × (r.path ≡ s.path)
row-fields cx path_id row n m r s e f =
    let (named, count, again) = row-reads cx path_id row n m r e in
    let same : record_through r m ≡ s =
      ok_injective (record_through r m) s (row_to_record cx path_id row m) again f in
    (ap (λ x. x.user_id) same, ap (λ x. x.document_id) same, ap (λ x. x.path) same)

pub read-row :
    (cx : PathCodec) (path_id : String) (row : PathRow) (cs : List Completion)
    (r : LearningPathRecord)
    → record_with_progress cx path_id row cs ≡ ok r
    → row_to_record cx path_id row (length (stages_of path_id cs)) ≡ ok r
unfolding record_with_progress
read-row cx path_id row cs r e =
    elim (Result-cases (row_to_record cx path_id row (length (stages_of path_id cs)))) [
      | inr (x, bad) ↦ absurd (ground (arith, e, bad))
      | inl (base, good) ↦ ground (arith, e, good)
    ]

module _ (cx : PathCodec) (q : StageRequest) (row : PathRow) (now : ℕ) where
  -- The quiz has no receipt, or one that the request matches.
  abbrev Known : List Completion → Type 0
  Known cs =
      (by_quiz q.quiz_session_id cs ≡ none)
      ⊎ ((c : Completion) × (by_quiz q.quiz_session_id cs ≡ some c) × (receipt_fault cx q c ≡ none))

  new-valid :
      (cs : List Completion)
      → all_ok cx (stages_of q.path_id (new_completion cx q now ∷ cs)) ≡ true
      → completion_ok cx (new_completion cx q now) ≡ true
  unfolding stages_of all_ok
  new-valid cs e =
      let rest = stages_of q.path_id cs in
      ground (arith, e, eq_refl q.path_id, all_ok-insert_stage cx (new_completion cx q now) rest)

  by_quiz-new :
      (cs : List Completion)
      → by_quiz q.quiz_session_id (new_completion cx q now ∷ cs) ≡ some (new_completion cx q now)
  unfolding by_quiz
  by_quiz-new cs = ground (arith, eq_refl q.quiz_session_id)

  new-fault :
      completion_ok cx (new_completion cx q now) ≡ true
      → receipt_fault cx q (new_completion cx q now) ≡ none
  unfolding receipt_fault
  new-fault e = ground (
    arith,
    e,
    eq_refl q.path_id,
    eq_refl q.user_id,
    eq_refl q.document_id,
    eq_refl q.grading_report_hash,
  )

  new-Known :
      (cs : List Completion) (r : LearningPathRecord)
      → record_with_progress cx q.path_id row (new_completion cx q now ∷ cs) ≡ ok r
      → Known (new_completion cx q now ∷ cs)
  new-Known cs r e =
      let grown = new_completion cx q now ∷ cs in
      let (fine, through) = progress-read cx q.path_id row grown r e in
      let valid_ = new-valid cs (history-all_ok cx r 1 (stages_of q.path_id grown) fine) in
      inr (new_completion cx q now, by_quiz-new cs, new-fault valid_)

  raced-same :
      (cs cs' : List Completion) (r : LearningPathRecord)
      → raced cx q row cs (by_stage q.path_id q.stage_id cs) ≡ (ok r, cs')
      → cs ≡ cs'
  unfolding raced
  raced-same cs cs' r e = elim (Option-cases (by_stage q.path_id q.stage_id cs)) [
    | inl out ↦ absurd (ground (arith, e, out))
    | inr (c, found) ↦ elim (Bool-cases (completion_ok cx c)) [
      | inl good ↦ ground (arith, e, found, good)
      | inr bad ↦ absurd (ground (arith, e, found, bad))
    ]
  ]

  lost-Known :
      (cs cs' : List Completion) (r : LearningPathRecord)
      → lost_insert cx q row cs ≡ (ok r, cs')
      → Known cs'
  unfolding lost_insert
  lost-Known cs cs' r e = elim (Option-cases (by_quiz q.quiz_session_id cs)) [
    | inl out ↦ subst (λ x. Known x) (raced-same cs cs' r (ground (arith, out, e))) (inl out)
    | inr (c, found) ↦ elim (Option-cases (receipt_fault cx q c)) [
      | inl fine ↦
          subst (λ x. Known x) (raced-same cs cs' r (ground (arith, e, found, fine)))
            (inr (c, found, fine))
      | inr (x, bad) ↦ absurd (ground (arith, e, found, bad))
    ]
  ]

  reread-Known :
      (cs cs' : List Completion) (r : LearningPathRecord)
      → reread cs
          (new_completion cx q now ∷ cs)
          (record_with_progress cx q.path_id row (new_completion cx q now ∷ cs))
        ≡ (ok r, cs')
      → Known cs'
  reread-Known cs cs' r e =
      let grown = new_completion cx q now ∷ cs in
      elim (Result-cases (record_with_progress cx q.path_id row grown)) [
        | inr (x, bad) ↦ absurd (ground (arith, e, bad))
        | inl (r1, read) ↦
            let same : grown ≡ cs' = ground (arith, e, read) in
            subst (λ x. Known x) same (new-Known cs r1 read)
      ]

  append-Known :
      (cs cs' : List Completion) (r : LearningPathRecord)
      → append_stage cx q row now cs ≡ (ok r, cs')
      → Known cs'
  unfolding append_stage
  append-Known cs cs' r e =
      elim (Bool-cases
        (is_some (by_stage q.path_id q.stage_id cs) || is_some (by_quiz q.quiz_session_id cs))) [
          | inl taken ↦ lost-Known cs cs' r (ground (arith, e, taken))
          | inr free ↦ reread-Known cs cs' r (ground (arith, e, free))
        ]

  order-Known :
      (between : List Completion → List Completion) (cs cs' : List Completion)
      (base r : LearningPathRecord)
      → by_quiz q.quiz_session_id cs ≡ none
      → stage_in_order between cx q row base now cs ≡ (ok r, cs')
      → Known cs'
  unfolding stage_in_order
  order-Known between cs cs' base r out e =
      elim (Bool-cases (leb q.stage_id base.completed_through)) [
        | inl done ↦
            let same : cs ≡ cs' = ground (arith, e, done) in subst (λ x. Known x) same (inl out)
        | inr early ↦ elim (Bool-cases (q.stage_id == suc base.completed_through)) [
          | inl next ↦ append-Known (between cs) cs' r (ground (arith, e, early, next))
          | inr locked ↦ absurd (ground (arith, e, early, locked))
        ]
      ]

  receipt-Known :
      (cs cs' : List Completion) (base r : LearningPathRecord) (c : Completion)
      → by_quiz q.quiz_session_id cs ≡ some c
      → answer_or (receipt_fault cx q c) (ok base, cs) cs ≡ (ok r, cs')
      → Known cs'
  receipt-Known cs cs' base r c found e = elim (Option-cases (receipt_fault cx q c)) [
    | inr (x, bad) ↦ absurd (ground (arith, e, bad))
    | inl fine ↦
        let same : cs ≡ cs' = ground (arith, e, fine) in
        subst (λ x. Known x) same (inr (c, found, fine))
  ]

  -- The request fits the record that was read, and the quiz is known afterwards.
  abbrev Fits : LearningPathRecord → Type 0
  Fits r =
      ((str_eq r.user_id q.user_id && str_eq r.document_id q.document_id) ≡ true)
      × (ltb r.path.total_stages q.stage_id ≡ false)

  record-Known :
      (between : List Completion → List Completion) (cs cs' : List Completion)
      (base r : LearningPathRecord)
      → stage_of_record between cx q row base now cs ≡ (ok r, cs')
      → Fits base × Known cs'
  unfolding stage_of_record
  record-Known between cs cs' base r e =
      elim (Bool-cases (str_eq base.user_id q.user_id && str_eq base.document_id q.document_id)) [
        | inr foreign ↦ absurd (ground (arith, e, foreign))
        | inl mine ↦ elim (Bool-cases (ltb base.path.total_stages q.stage_id)) [
          | inl beyond ↦ absurd (ground (arith, e, mine, beyond))
          | inr within ↦ elim (Option-cases (by_quiz q.quiz_session_id cs)) [
            | inl out ↦ (
              (mine, within),
              order-Known between cs cs' base r out (ground (arith, e, mine, within, out)),
            )
            | inr (c, found) ↦ (
              (mine, within),
              receipt-Known cs cs' base r c found (ground (arith, e, mine, within, found)),
            )
          ]
        ]
      ]

  Fits-row :
      (cs cs' : List Completion) (base r : LearningPathRecord)
      → record_with_progress cx q.path_id row cs ≡ ok base
      → record_with_progress cx q.path_id row cs' ≡ ok r
      → Fits base
      → Fits r
  Fits-row cs cs' base r e f fits =
      let (same_user, same_document, same_path) =
        row-fields cx q.path_id row (length (stages_of q.path_id cs))
          (length (stages_of q.path_id cs')) base r (read-row cx q.path_id row cs base e)
          (read-row cx q.path_id row cs' r f) in
      let (mine, within) = fits in
      (rw (sym same_user, sym same_document) mine, rw (sym same_path) within)

  Known-replays :
      (between : List Completion → List Completion) (cs : List Completion) (r : LearningPathRecord)
      → Fits r
      → Known cs
      → (leb q.stage_id r.completed_through ≡ true)
      → stage_of_record between cx q row r now cs ≡ (ok r, cs)
  unfolding stage_of_record stage_in_order
  Known-replays between cs r (mine, within) (inl out) done = ground (arith, mine, within, out, done)
  Known-replays between cs r (mine, within) (inr (c, found, fine)) done =
      ground (arith, mine, within, found, fine)

-- A completion that was answered with a record is answered with the same record when it is asked for
-- again, at any time, and the completions stay as they are.
pub repeat_replays :
    (between again : List Completion → List Completion) (cx : PathCodec) (q : StageRequest)
    (now later : ℕ) (paths : Table PathRow) (cs cs' : List Completion) (r : LearningPathRecord)
    → complete_stage_sync between cx q now paths cs ≡ (ok r, cs')
    → complete_stage_sync again cx q later paths cs' ≡ (ok r, cs')
unfolding complete_stage_sync
repeat_replays between again cx q now later paths cs cs' r e =
    elim (Option-cases (find q.path_id paths)) [
      | inl out ↦ absurd (ground (arith, e, out))
      | inr (row, found) ↦ elim (Result-cases (record_with_progress cx q.path_id row cs)) [
        | inr (x, bad) ↦ absurd (ground (arith, e, found, bad))
        | inl (base, read) ↦
            let reply : stage_of_record between cx q row base now cs ≡ (ok r, cs') =
              ground (arith, e, found, read) in
            let (reads, covers) = record-Covers cx q row now between cs cs' base r read reply in
            let (fits, known) = record-Known cx q row now between cs cs' base r reply in
            let fits' = Fits-row cx q row now cs cs' base r read reads fits in
            let replay =
              Known-replays cx q row later again cs' r fits' known (ground (arith, covers)) in
            ground (arith, found, reads, replay)
      ]
    ]
