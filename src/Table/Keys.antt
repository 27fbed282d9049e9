-- ===== src/Table/Keys.antt =====
-- The primary key: no two rows of a table share a key. Statements on tables that have it.
use study_loop.Base.{
  Bool, Bool-cases, Option-cases, String, [], arith, eq_iff, if◌then◌else◌, inl, inr, none, not,
  refl, some, str_eq, subst, true, ◌+◌, ◌∷◌, ◌≡◌,
}
use study_loop.Table.{
  Table, count_rows, delete_where, find, find-put, find-remove, keep_if, keep_rows, map_row,
  map_rows, put, remove, update_where,
}

abbrev pub Unique {ℓ} : {R : Type ℓ} → Table R → Type ℓ
Unique [] = Unit
Unique ((k, r) ∷ t) = (find k t ≡ none) × Unique t

module _ {ℓ} {R : Type ℓ} where
  pub find-map_rows :
      (k : String) (f : R → R) (t : Table R) → find k (map_rows f t) ≡ map_row f (find k t)
  unfolding find
  find-map_rows k f [] = refl
  find-map_rows k f ((j, r) ∷ t) = ground (arith, find-map_rows k f t)

  pub find-keep_rows :
      (k : String) (p : R → Bool) (t : Table R)
      → Unique t
      → find k (keep_rows p t) ≡ keep_if p (find k t)
  unfolding find
  find-keep_rows k p [] u = refl
  find-keep_rows k p ((j, r) ∷ t) u = ground (arith, eq_iff j k, find-keep_rows k p t u.1)

  keep-absent :
      (k : String) (p : R → Bool) (t : Table R) → find k t ≡ none → find k (keep_rows p t) ≡ none
  unfolding find
  keep-absent k p [] h = refl
  keep-absent k p ((j, r) ∷ t) h = ground (arith, keep-absent k p t)

  pub Unique-keep_rows : (p : R → Bool) (t : Table R) → Unique t → Unique (keep_rows p t)
  Unique-keep_rows p [] u = tt
  Unique-keep_rows p ((j, r) ∷ t) u =
      ground (arith, keep-absent j p t u.0, Unique-keep_rows p t u.1)

  pub Unique-map_rows : (f : R → R) (t : Table R) → Unique t → Unique (map_rows f t)
  Unique-map_rows f [] u = tt
  Unique-map_rows f ((j, r) ∷ t) u = (rw (find-map_rows j f t, u.0) refl, Unique-map_rows f t u.1)

  pub Unique-put : (k : String) (r : R) (t : Table R) → Unique t → Unique (put k r t)
  unfolding put
  Unique-put k r [] u = (unfold find in refl, tt)
  Unique-put k r ((j, s) ∷ t) u =
      ground (arith, find-put k j r t, eq_iff k j, eq_iff j k, Unique-put k r t u.1)

  pub Unique-remove : (k : String) (t : Table R) → Unique t → Unique (remove k t)
  unfolding remove
  Unique-remove k [] u = tt
  Unique-remove k ((j, s) ∷ t) u = ground (arith, find-remove k j t, Unique-remove k t u.1)

  pub Unique-update_where :
      (k : String) (p : R → Bool) (f : R → R) (t : Table R)
      → Unique t
      → Unique (update_where k p f t).0
  unfolding update_where
  Unique-update_where k p f t u = elim (Option-cases (find k t)) [
    | inl absent ↦ ground (arith, absent)
    | inr (r, there) ↦ ground (arith, there, Unique-put k (f r) t u)
  ]

  pub Unique-delete_where :
      (k : String) (p : R → Bool) (t : Table R) → Unique t → Unique (delete_where k p t).0
  unfolding delete_where
  Unique-delete_where k p t u = ground (arith, Unique-remove k t u)

  pub find-update_where :
      (k j : String) (p : R → Bool) (f : R → R) (t : Table R)
      → find j (update_where k p f t).0
        ≡ (if str_eq k j then map_row (λ r. if p r then f r else r) (find k t) else find j t)
  unfolding update_where
  find-update_where k j p f t = elim (Option-cases (find k t)) [
    | inl absent ↦ ground (arith, absent, eq_iff k j)
    | inr (r, there) ↦ ground (arith, there, eq_iff k j, find-put k j (f r) t)
  ]

  pub find-delete_where :
      (k j : String) (p : R → Bool) (t : Table R)
      → find j (delete_where k p t).0
        ≡ (if str_eq k j then keep_if (λ r. not (p r)) (find k t) else find j t)
  unfolding delete_where
  find-delete_where k j p t = elim (Option-cases (find k t)) [
    | inl absent ↦ ground (arith, absent, eq_iff k j)
    | inr (r, there) ↦ ground (arith, there, eq_iff k j, find-remove k j t)
  ]

  pub remove-absent : (k : String) (t : Table R) → find k t ≡ none → remove k t ≡ t
  unfolding find remove
  remove-absent k [] h = refl
  remove-absent k ((j, r) ∷ t) h = ground (arith, remove-absent k t)

  -- Deleting a counted row lowers the count by one.
  pub count-remove :
      (k : String) (p : R → Bool) (t : Table R) (r : R)
      → Unique t
      → find k t ≡ some r
      → p r ≡ true
      → count_rows p (remove k t) + 1 ≡ count_rows p t
  unfolding find remove
  count-remove k p [] r u h e = ground arith
  count-remove k p ((j, s) ∷ t) r u h e = elim (Bool-cases (str_eq j k)) [
    | inl hit ↦
        let absent : find k t ≡ none = subst (λ i. find i t ≡ none) ((eq_iff j k).0 hit) u.0 in
        ground (arith, hit, remove-absent k t absent)
    | inr miss ↦ ground (arith, miss, count-remove k p t r u.1)
  ]
