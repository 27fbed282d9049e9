-- ===== src/Paths/Reading.antt =====
-- services/learning_path_store.py: the stages among the completions of a path, and their reading.
use study_loop.Base.{
  Bool, Bool-cases, List, Option-cases, String, [], and_right, arith, eq_refl, false, inl, inr, leb,
  length, refl, some, str_eq, subst, suc, true, ℕ, ◌&&◌, ◌+◌, ◌<◌, ◌==◌, ◌||◌, ◌∷◌, ◌≡◌, ◌≤◌,
}
use study_loop.Base.Result.{Result-cases, ok}
use study_loop.Paths.Row.{
  Completion, LearningPathRecord, PathCodec, PathRow, completion_ok, decode_payload, history_ok,
  insert_stage, record_with_progress, row_ok, row_to_record, stages_of,
}
use study_loop.Paths.Stages.{StageRequest, by_quiz, by_stage, new_completion}

unfoldable pub has_stage : ℕ → List Completion → Bool
has_stage s [] = false
has_stage s (c ∷ cs) = c.stage_id == s || has_stage s cs

has_stage-insert_stage :
    (s : ℕ) (c : Completion) (cs : List Completion)
    → has_stage s (insert_stage c cs) ≡ has_stage s (c ∷ cs)
unfolding has_stage insert_stage
has_stage-insert_stage s c [] = refl
has_stage-insert_stage s c (d ∷ ds) = ground (arith, has_stage-insert_stage s c ds)

pub quiz-listed :
    (quiz path_id : String) (s : ℕ) (cs : List Completion) (c : Completion)
    → by_quiz quiz cs ≡ some c
    → str_eq c.path_id path_id ≡ true
    → (c.stage_id == s) ≡ true
    → has_stage s (stages_of path_id cs) ≡ true
unfolding by_quiz stages_of has_stage
quiz-listed quiz path_id s [] c e p at = absurd (ground (arith, e))
quiz-listed quiz path_id s (d ∷ ds) c e p at = ground (
  arith,
  e,
  p,
  at,
  quiz-listed quiz path_id s ds c,
  has_stage-insert_stage s d (stages_of path_id ds),
)

module _ (cx : PathCodec) (base : LearningPathRecord) where
  abbrev placed : ℕ → Completion → List Completion → Bool
  placed e c cs =
      c.stage_id == e
      && (str_eq c.user_id base.user_id
          && (str_eq c.document_id base.document_id
              && (leb c.stage_id base.path.total_stages && history_ok cx base (suc e) cs)))

  pub history-step :
      (e : ℕ) (c : Completion) (cs : List Completion)
      → history_ok cx base e (c ∷ cs) ≡ true
      → (completion_ok cx c ≡ true)
        × ((c.stage_id == e) ≡ true)
        × (history_ok cx base (suc e) cs ≡ true)
  unfolding history_ok
  history-step e c cs h =
      let a = and_right (completion_ok cx c) (str_eq c.path_id base.path_id && placed e c cs) h in
      let b = and_right (str_eq c.path_id base.path_id) (placed e c cs) a in ground (arith, b)

  pub history-below :
      (e s : ℕ) (cs : List Completion)
      → history_ok cx base e cs ≡ true
      → has_stage s cs ≡ true
      → s < e + length cs
  unfolding history_ok has_stage
  history-below e s [] h t = absurd (ground (arith, t))
  history-below e s (c ∷ cs) h t =
      let (valid_, at, rest) = history-step e c cs h in
      elim (Bool-cases (c.stage_id == s)) [
        | inl same ↦ ground (arith, at, same)
        | inr other ↦ ground (arith, history-below (suc e) s cs rest (ground (arith, t, other)))
      ]

pub stage-listed :
    (path_id : String) (s : ℕ) (cs : List Completion) (c : Completion)
    → by_stage path_id s cs ≡ some c
    → has_stage s (stages_of path_id cs) ≡ true
unfolding by_stage stages_of has_stage
stage-listed path_id s [] c e = absurd (ground (arith, e))
stage-listed path_id s (d ∷ ds) c e =
    ground
      (arith, e, stage-listed path_id s ds c, has_stage-insert_stage s d (stages_of path_id ds))

pub new-listed :
    (cx : PathCodec) (q : StageRequest) (now : ℕ) (cs : List Completion)
    → has_stage q.stage_id (stages_of q.path_id (new_completion cx q now ∷ cs)) ≡ true
unfolding stages_of has_stage
new-listed cx q now cs =
    let rest = stages_of q.path_id cs in
    ground
      (arith, eq_refl q.path_id, has_stage-insert_stage q.stage_id (new_completion cx q now) rest)

-- The record after `n` completed stages.
abbrev pub record_through : LearningPathRecord → ℕ → LearningPathRecord
record_through r n = record r { completed_through = n; progress_revision = suc n }

-- A row that reads is of its own path, counts the stages that it is given, and reads with any other
-- count too.
pub row-reads :
    (cx : PathCodec) (path_id : String) (row : PathRow) (n m : ℕ) (r : LearningPathRecord)
    → row_to_record cx path_id row n ≡ ok r
    → (r.path_id ≡ path_id)
      × (r.completed_through ≡ n)
      × (row_to_record cx path_id row m ≡ ok (record_through r m))
unfolding row_to_record
row-reads cx path_id row n m r e = elim (Bool-cases (row_ok cx path_id row)) [
  | inr bad ↦ absurd (ground (arith, e, bad))
  | inl good ↦ elim (Option-cases (decode_payload cx row.payload_json)) [
    | inl out ↦ absurd (ground (arith, e, good, out))
    | inr (p, read) ↦ (
      ground (arith, e, good, read),
      ground (arith, e, good, read),
      ground (arith, e, good, read),
    )
  ]
]

pub progress-read :
    (cx : PathCodec) (path_id : String) (row : PathRow) (cs : List Completion)
    (r : LearningPathRecord)
    → record_with_progress cx path_id row cs ≡ ok r
    → (history_ok cx r 1 (stages_of path_id cs) ≡ true)
      × (r.completed_through ≡ length (stages_of path_id cs))
unfolding record_with_progress
progress-read cx path_id row cs r e =
    elim (Result-cases (row_to_record cx path_id row (length (stages_of path_id cs)))) [
      | inr (x, bad) ↦ absurd (ground (arith, e, bad))
      | inl (base, good) ↦
          let n = length (stages_of path_id cs) in
          let (named, through, again) = row-reads cx path_id row n n base good in
          elim (Bool-cases (history_ok cx base 1 (stages_of path_id cs))) [
            | inr bad ↦ absurd (ground (arith, e, good, bad))
            | inl fine ↦
                let same : base ≡ r = ground (arith, e, good, fine) in
                subst
                  (λ x.
                    (history_ok cx x 1 (stages_of path_id cs) ≡ true)
                    × (x.completed_through ≡ length (stages_of path_id cs)))
                  same (fine, through)
          ]
    ]

pub read-covers :
    (cx : PathCodec) (path_id : String) (row : PathRow) (s : ℕ) (cs : List Completion)
    (r : LearningPathRecord)
    → record_with_progress cx path_id row cs ≡ ok r
    → has_stage s (stages_of path_id cs) ≡ true
    → s ≤ r.completed_through
read-covers cx path_id row s cs r e there =
    let (fine, through) = progress-read cx path_id row cs r e in
    let below = history-below cx r 1 s (stages_of path_id cs) fine there in
    omega (arith, through, below)
