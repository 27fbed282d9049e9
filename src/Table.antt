-- ===== src/Table.antt =====
-- A database table with a text primary key: what `INSERT ... ON CONFLICT DO NOTHING`, `UPDATE ...
-- WHERE key = ?` and `DELETE ... WHERE key = ?` do to it. The stores under services/ run such
-- statements, each inside one transaction; the rows stand in insertion order.
pub mod Keys
pub mod Order
use study_loop.Base.{
  Bool, List, Option, String, [], arith, eq_iff, false, if◌then◌else◌, none, refl, some, str_eq,
  suc, true, ℕ, ◌∷◌, ◌≡◌,
}

abbrev pub Table {ℓ} : Type ℓ → Type ℓ
Table R = List (String × R)

module _ {ℓ} {R : Type ℓ} where
  -- `SELECT ... WHERE key = ?`.
  unfoldable pub find : String → Table R → Option R
  find k [] = none
  find k ((j, r) ∷ t) = if str_eq j k then some r else find k t

  -- The row at a key, written in place, or at the end where the key is new.
  unfoldable pub put : String → R → Table R → Table R
  put k r [] = (k, r) ∷ []
  put k r ((j, s) ∷ t) = if str_eq j k then (k, r) ∷ t else (j, s) ∷ put k r t

  unfoldable pub remove : String → Table R → Table R
  remove k [] = []
  remove k ((j, s) ∷ t) = let rest = remove k t in if str_eq j k then rest else (j, s) ∷ rest

  pub find-put :
      (k j : String) (r : R) (t : Table R)
      → find j (put k r t) ≡ (if str_eq k j then some r else find j t)
  unfolding find put
  find-put k j r [] = refl
  find-put k j r ((i, s) ∷ t) = ground (arith, eq_iff k j, eq_iff i k, eq_iff i j, find-put k j r t)

  pub find-remove :
      (k j : String) (t : Table R) → find j (remove k t) ≡ (if str_eq k j then none else find j t)
  unfolding find remove
  find-remove k j [] = ground arith
  find-remove k j ((i, s) ∷ t) =
      ground (arith, eq_iff k j, eq_iff i k, eq_iff i j, find-remove k j t)

  -- `UPDATE ... SET f WHERE key = ? AND p`: the table, and whether `rowcount` is 1.
  unfoldable pub update_where : String → (R → Bool) → (R → R) → Table R → Table R × Bool
  update_where k p f t = elim (find k t) [
    | none ↦ (t, false)
    | some r ↦ if p r then (put k (f r) t, true) else (t, false)
  ]

  -- `DELETE ... WHERE key = ? AND p`.
  unfoldable pub delete_where : String → (R → Bool) → Table R → Table R × Bool
  delete_where k p t = elim (find k t) [
    | none ↦ (t, false)
    | some r ↦ if p r then (remove k t, true) else (t, false)
  ]

  -- `INSERT ... ON CONFLICT (key) DO NOTHING`.
  unfoldable pub insert_or_ignore : String → R → Table R → Table R × Bool
  insert_or_ignore k r t = elim (find k t) [ none ↦ (put k r t, true) | some _ ↦ (t, false) ]

  -- `UPDATE ... SET f` over every row; the WHERE clause is a test in `f`.
  abbrev pub map_rows : (R → R) → Table R → Table R
  map_rows f [] = []
  map_rows f ((j, r) ∷ t) = (j, f r) ∷ map_rows f t

  -- `DELETE ... WHERE NOT p` over every row.
  abbrev pub keep_rows : (R → Bool) → Table R → Table R
  keep_rows p [] = []
  keep_rows p ((j, r) ∷ t) = let rest = keep_rows p t in if p r then (j, r) ∷ rest else rest

  -- `SELECT COUNT(*) ... WHERE p`.
  abbrev pub count_rows : (R → Bool) → Table R → ℕ
  count_rows p [] = 0
  count_rows p ((j, r) ∷ t) = if p r then suc (count_rows p t) else count_rows p t

  -- A row that the filter lets through.
  abbrev pub keep_if : (R → Bool) → Option R → Option R
  keep_if p none = none
  keep_if p (some r) = if p r then some r else none

  abbrev pub map_row : (R → R) → Option R → Option R
  map_row f none = none
  map_row f (some r) = some (f r)
