-- ===== src/Paths/Next.antt =====
-- services/learning_path_store.py: the completion of the next stage of a path.
use study_loop.Base.{
  List, Option-cases, [], ap, arith, eq_iff, eq_refl, inl, inr, length, length-append, none, refl,
  some, str_eq, subst, suc, sym, true, ℕ, ◌&&◌, ◌++◌, ◌+◌, ◌∙◌, ◌∷◌, ◌≡◌, ◌≤◌,
}
use study_loop.Base.Result.{ok}
use study_loop.Paths.Kept.{read-path_id}
use study_loop.Paths.Reading.{
  has_stage, history-below, history-step, progress-read, record_through, row-reads, stage-listed,
}
use study_loop.Paths.Repeats.{read-row}
use study_loop.Paths.Row.{
  Completion, LearningPathRecord, PathCodec, PathRow, completion_ok, history_ok, insert_stage,
  record_with_progress, stages_of,
}
use study_loop.Paths.Stages.{
  StageRequest, append_stage, by_quiz, by_stage, complete_stage_sync, new_completion,
  stage_in_order, stage_of_record,
}
use study_loop.Table.{Table, find}

insert_stage-last :
    (cx : PathCodec) (base : LearningPathRecord) (e : ℕ) (c : Completion) (cs : List Completion)
    → history_ok cx base e cs ≡ true
    → e + length cs ≤ c.stage_id
    → insert_stage c cs ≡ cs ++ c ∷ []
unfolding insert_stage
insert_stage-last cx base e c [] h last = refl
insert_stage-last cx base e c (d ∷ ds) h last =
    let (good, at, rest) = history-step cx base e d ds h in
    ground (arith, at, last, insert_stage-last cx base (suc e) c ds rest (omega (arith, last)))

-- A completion that the loop of the reading takes at the position `e`.
abbrev IsNext : PathCodec → LearningPathRecord → ℕ → Completion → Type 0
IsNext cx base e c =
    (completion_ok cx c ≡ true)
    × (c.path_id ≡ base.path_id)
    × (c.stage_id ≡ e)
    × (c.user_id ≡ base.user_id)
    × (c.document_id ≡ base.document_id)
    × (c.stage_id ≤ base.path.total_stages)

history-grows :
    (cx : PathCodec) (base : LearningPathRecord) (m e : ℕ) (c : Completion) (cs : List Completion)
    → history_ok cx base e cs ≡ true
    → IsNext cx base (e + length cs) c
    → history_ok cx (record_through base m) e (cs ++ c ∷ []) ≡ true
unfolding history_ok
history-grows cx base m e c [] h (good, at_path, at_stage, user, document, within) = ground (
  arith,
  good,
  at_path,
  at_stage,
  user,
  document,
  within,
  eq_refl base.path_id,
  eq_refl base.user_id,
  eq_refl base.document_id,
)
history-grows cx base m e c (d ∷ ds) h (good, at_path, at_stage, user, document, within) =
    let (fine, at, rest) = history-step cx base e d ds h in
    ground (
      arith,
      h,
      history-grows cx base m (suc e) c ds rest
          (good, at_path, omega (arith, at_stage), user, document, within),
    )

module _ (cx : PathCodec) (q : StageRequest) (row : PathRow) (now : ℕ) (r : LearningPathRecord)
    (cs later : List Completion) (read : record_with_progress cx q.path_id row cs ≡ ok r)
    (mine : (str_eq r.user_id q.user_id && str_eq r.document_id q.document_id) ≡ true)
    (next : q.stage_id ≡ suc r.completed_through) (within : q.stage_id ≤ r.path.total_stages)
    (well_formed : completion_ok cx (new_completion cx q now) ≡ true)
    (locked : stages_of q.path_id later ≡ stages_of q.path_id cs) where
  new_completion-IsNext :
      IsNext cx r (1 + length (stages_of q.path_id cs)) (new_completion cx q now)
  new_completion-IsNext =
      let (fine, count) = progress-read cx q.path_id row cs r read in
      (
        well_formed,
        sym (read-path_id cx q.path_id row cs r read),
        omega (arith, next, count),
        ground (arith, mine, eq_iff r.user_id q.user_id),
        ground (arith, mine, eq_iff r.document_id q.document_id),
        within,
      )

  stages-next :
      stages_of q.path_id (new_completion cx q now ∷ later)
      ≡ stages_of q.path_id cs ++ new_completion cx q now ∷ []
  stages-next =
      let (fine, count) = progress-read cx q.path_id row cs r read in
      let c = new_completion cx q now in
      let grown : stages_of q.path_id (c ∷ later) ≡ insert_stage c (stages_of q.path_id later) =
        unfold stages_of in ground (arith, eq_refl q.path_id) in
      grown
      ∙ ap (λ x. insert_stage c x) locked
      ∙ insert_stage-last cx r 1 c (stages_of q.path_id cs) fine (omega (arith, next, count))

  read-next :
      record_with_progress cx q.path_id row (new_completion cx q now ∷ later)
      ≡ ok (record_through r q.stage_id)
  unfolding record_with_progress
  read-next =
      let (fine, count) = progress-read cx q.path_id row cs r read in
      let old = stages_of q.path_id cs in
      let base = read-row cx q.path_id row cs r read in
      let (named, counts, counted) = row-reads cx q.path_id row (length old) q.stage_id r base in
      let grows =
        history-grows cx r q.stage_id 1 (new_completion cx q now) old fine new_completion-IsNext in
      let size : length (old ++ new_completion cx q now ∷ []) ≡ q.stage_id =
        omega (arith, length-append old (new_completion cx q now ∷ []), next, count) in
      ground (arith, stages-next, size, grows, counted)

  stage-free : by_stage q.path_id q.stage_id later ≡ none
  stage-free = elim (Option-cases (by_stage q.path_id q.stage_id later)) [
    | inl free ↦ free
    | inr (c, taken) ↦
        let (fine, count) = progress-read cx q.path_id row cs r read in
        let there =
          subst (λ x. has_stage q.stage_id x ≡ true) locked
            (stage-listed q.path_id q.stage_id later c taken) in
        let below = history-below cx r 1 q.stage_id (stages_of q.path_id cs) fine there in
        absurd (omega (arith, below, next, count))
  ]

-- The next stage of a path is never blocked: where the path is stored and reads as a record of the
-- requesting user and document, the stage is the one after those that the record counts, and the path
-- has it, a completion with a quiz session that is not bound yet, whose row is well-formed, is
-- appended and answered with the record that counts it too, whatever other transactions complete on
-- other paths with other quiz sessions before the INSERT.
pub next_stage_is_taken :
    (between : List Completion → List Completion) (cx : PathCodec) (q : StageRequest) (now : ℕ)
    (paths : Table PathRow) (cs : List Completion) (row : PathRow) (r : LearningPathRecord)
    → find q.path_id paths ≡ some row
    → record_with_progress cx q.path_id row cs ≡ ok r
    → (str_eq r.user_id q.user_id && str_eq r.document_id q.document_id) ≡ true
    → q.stage_id ≡ suc r.completed_through
    → q.stage_id ≤ r.path.total_stages
    → completion_ok cx (new_completion cx q now) ≡ true
    → by_quiz q.quiz_session_id cs ≡ none
    → by_quiz q.quiz_session_id (between cs) ≡ none
    → stages_of q.path_id (between cs) ≡ stages_of q.path_id cs
    → complete_stage_sync between cx q now paths cs
      ≡ (ok (record_through r q.stage_id), new_completion cx q now ∷ between cs)
unfolding complete_stage_sync stage_of_record stage_in_order append_stage
next_stage_is_taken between cx q now paths cs row r found read mine next within good free still
      locked =
    let later = between cs in
    let reads = read-next cx q row now r cs later read mine next within good locked in
    let open_ = stage-free cx q row now r cs later read mine next within good locked in
    ground (arith, found, read, mine, next, within, free, still, reads, open_)
