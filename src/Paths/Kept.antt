-- ===== src/Paths/Kept.antt =====
-- services/learning_path_store.py: what a creation leaves in the store.
use study_loop.Base.{
  Bool-cases, List, Option-cases, String, [], ap, arith, eq_iff, eq_refl, inl, inr, length, some,
  str_eq, subst, sym, true, ℕ, ◌∙◌, ◌∷◌, ◌≡◌,
}
use study_loop.Base.Result.{Result-cases, ok}
use study_loop.Paths.Creation.{
  Creation, NewPath, answered, binds, by_creation, commit, create_sync, insert_path, new_row,
}
use study_loop.Paths.Reading.{row-reads}
use study_loop.Paths.Row.{
  Completion, LearningPathRecord, PathCodec, PathRow, record_with_progress, row_to_record,
  stages_of,
}
use study_loop.Table.{Table, find}
use study_loop.Table.Keys.{Unique}

pub by_creation-find :
    (key path_id : String) (row : PathRow) (rows : Table PathRow)
    → Unique rows
    → by_creation key rows ≡ some (path_id, row)
    → find path_id rows ≡ some row
unfolding by_creation find
by_creation-find key path_id row [] u e = absurd (ground (arith, e))
by_creation-find key path_id row ((i, s) ∷ rows) (fresh, u) e =
    elim (Bool-cases (str_eq s.idempotency_key_hash key)) [
      | inl here ↦ ground (arith, e, here, eq_refl i)
      | inr there ↦
          let rest : by_creation key rows ≡ some (path_id, row) = ground (arith, e, there) in
          let found = by_creation-find key path_id row rows u rest in
          ground (arith, found, fresh, eq_iff i path_id)
    ]

pub read-path_id :
    (cx : PathCodec) (path_id : String) (row : PathRow) (cs : List Completion)
    (r : LearningPathRecord)
    → record_with_progress cx path_id row cs ≡ ok r
    → r.path_id ≡ path_id
unfolding record_with_progress
read-path_id cx path_id row cs r e =
    let n = length (stages_of path_id cs) in
    elim (Result-cases (row_to_record cx path_id row n)) [
      | inr (x, bad) ↦ absurd (ground (arith, e, bad))
      | inl (base, good) ↦
          let same : base ≡ r = ground (arith, e, good) in
          let (named, count, again) = row-reads cx path_id row n n base good in
          ap (λ x. x.path_id) (sym same) ∙ named
    ]

module _ (cx : PathCodec) (q : Creation) (cs : List Completion) where
  -- The store holds one row under the key, it is bound to the creation, and reads as the record.
  abbrev IsStored : LearningPathRecord → Table PathRow → Type 0
  IsStored r rows =
      (path_id : String) × (row : PathRow) × (by_creation q.key_hash rows ≡ some (path_id, row))
      × (binds q row ≡ true)
      × (record_with_progress cx path_id row cs ≡ ok r)

  answered-read :
      (path_id : String) (row : PathRow) (r : LearningPathRecord)
      → answered cx q path_id row cs ≡ ok r
      → (binds q row ≡ true) × (record_with_progress cx path_id row cs ≡ ok r)
  unfolding answered
  answered-read path_id row r e = elim (Bool-cases (binds q row)) [
    | inr bad ↦ absurd (ground (arith, e, bad))
    | inl good ↦ elim (Result-cases (record_with_progress cx path_id row cs)) [
      | inr (x, bad) ↦ absurd (ground (arith, e, good, bad))
      | inl (base, read) ↦ ground (arith, e, good, read)
    ]
  ]

  found-IsStored :
      (path_id : String) (row : PathRow) (r : LearningPathRecord) (rows rows' : Table PathRow)
      → by_creation q.key_hash rows ≡ some (path_id, row)
      → answered cx q path_id row cs ≡ ok r
      → rows ≡ rows'
      → IsStored r rows'
  found-IsStored path_id row r rows rows' there e same =
      let (bound, read) = answered-read path_id row r e in
      subst (λ x. IsStored r x) same (path_id, row, there, bound, read)

  grown-IsStored :
      (n : NewPath) (now : ℕ) (r : LearningPathRecord) (rows rows' : Table PathRow)
      → commit rows
          ((n.path_id, new_row cx q n now) ∷ rows)
          (answered cx q n.path_id (new_row cx q n now) cs)
        ≡ (ok r, rows')
      → IsStored r rows'
  unfolding by_creation new_row
  grown-IsStored n now r rows rows' e =
      elim (Result-cases (answered cx q n.path_id (new_row cx q n now) cs)) [
        | inr (x, bad) ↦ absurd (ground (arith, e, bad))
        | inl (base, good) ↦
            let (bound, read) = answered-read n.path_id (new_row cx q n now) base good in
            let same : base ≡ r = ground (arith, e, good) in
            let grown : (n.path_id, new_row cx q n now) ∷ rows ≡ rows' = ground (arith, e, good) in
            subst (λ x. IsStored r x) grown
              (subst (λ x. IsStored x ((n.path_id, new_row cx q n now) ∷ rows)) same
                (n.path_id, new_row cx q n now, ground (arith, eq_refl q.key_hash), bound, read))
      ]

  insert-IsStored :
      (n : NewPath) (now : ℕ) (r : LearningPathRecord) (rows rows' : Table PathRow)
      → insert_path cx q n now rows cs ≡ (ok r, rows')
      → IsStored r rows'
  unfolding insert_path find
  insert-IsStored n now r rows rows' e = elim (Option-cases (by_creation q.key_hash rows)) [
    | inr ((path_id, row), there) ↦
        found-IsStored path_id row r rows rows' there (ground (arith, e, there))
          (ground (arith, e, there))
    | inl absent ↦ elim (Option-cases (find n.path_id rows)) [
      | inr (s, used) ↦ absurd (ground (arith, e, absent, used))
      | inl free ↦
          grown-IsStored n now r rows rows' (ground (arith, e, absent, free, eq_refl n.path_id))
    ]
  ]

  pub create-IsStored :
      (between : Table PathRow → Table PathRow) (n : NewPath) (now : ℕ) (r : LearningPathRecord)
      (rows rows' : Table PathRow)
      → create_sync between cx q n now rows cs ≡ (ok r, rows')
      → IsStored r rows'
  unfolding create_sync
  create-IsStored between n now r rows rows' e = elim (Option-cases (by_creation q.key_hash rows)) [
    | inr ((path_id, row), there) ↦
        found-IsStored path_id row r rows rows' there (ground (arith, e, there))
          (ground (arith, e, there))
    | inl absent ↦ insert-IsStored n now r (between rows) rows' (ground (arith, e, absent))
  ]
