-- ===== src/Quizzes/Room.antt =====
-- services/quiz_sessions.py: `_make_capacity`, its candidates and the number of rows.
use study_loop.Base.{
  Bool, Bool-cases, List, Option-cases, String, [], and_left, and_right, arith, eq_iff, eq_refl,
  false, if◌then◌else◌, inl, inr, is_some, length, ltb, none, not, refl, some, str_eq, subst, suc,
  sym, take, true, zero, ℕ, ◌&&◌, ◌+◌, ◌-◌, ◌==◌, ◌∙◌, ◌∷◌, ◌≡◌, ◌≤◌, ◌⊎◌,
}
use study_loop.Base.Result.{ok}
use study_loop.Quizzes.Create.{
  any_row, completed_keys, evict_oldest, evictable, gone, make_capacity, remove_all,
}
use study_loop.Quizzes.Row.{QuizRow, StoreSettings}
use study_loop.Table.{Table, count_rows, find, find-remove, keep_rows, remove}
use study_loop.Table.Keys.{Unique, Unique-keep_rows, Unique-remove, count-remove, find-keep_rows}
use study_loop.Table.Order.{
  Key, distinct, distinct-sort_keys, distinct-take, insert_key, length-take, sort_keys, unlisted,
  unlisted-sort_keys, unlisted-take,
}

module _ (now : ℕ) where
  unlisted-absent :
      (sid : String) (t : Table QuizRow)
      → find sid t ≡ none
      → unlisted sid (completed_keys now t) ≡ true
  unfolding find completed_keys
  unlisted-absent sid [] h = refl
  unlisted-absent sid ((j, r) ∷ t) h = ground (arith, unlisted-absent sid t)

  unlisted-kept :
      (sid : String) (t : Table QuizRow) (r : QuizRow)
      → Unique t
      → find sid t ≡ some r
      → evictable now r ≡ false
      → unlisted sid (completed_keys now t) ≡ true
  unfolding find completed_keys
  unlisted-kept sid [] r u h e = refl
  unlisted-kept sid ((j, s) ∷ t) r u h e = elim (Bool-cases (str_eq j sid)) [
    | inl hit ↦
        let absent : find sid t ≡ none = subst (λ i. find i t ≡ none) ((eq_iff j sid).0 hit) u.0 in
        ground (arith, hit, unlisted-absent sid t absent)
    | inr miss ↦ ground (arith, miss, unlisted-kept sid t r u.1)
  ]

  distinct-completed_keys : (t : Table QuizRow) → Unique t → distinct (completed_keys now t) ≡ true
  unfolding completed_keys
  distinct-completed_keys [] u = refl
  distinct-completed_keys ((j, r) ∷ t) u =
      ground (arith, unlisted-absent j t u.0, distinct-completed_keys t u.1)

abbrev all_present : List Key → Table QuizRow → Bool
all_present [] t = true
all_present ((a, i) ∷ ks) t = is_some (find i t) && all_present ks t

all_present-tail :
    (j : String) (r : QuizRow) (ks : List Key) (t : Table QuizRow)
    → all_present ks t ≡ true
    → all_present ks ((j, r) ∷ t) ≡ true
unfolding find
all_present-tail j r [] t h = refl
all_present-tail j r ((a, i) ∷ ks) t h = ground (arith, all_present-tail j r ks t)

all_present-listed :
    (b : Bool) (j : String) (r : QuizRow) (ks : List Key) (t : Table QuizRow)
    → all_present ks ((j, r) ∷ t) ≡ true
    → all_present (if b then (r.updated_at, j) ∷ ks else ks) ((j, r) ∷ t) ≡ true
unfolding find
all_present-listed true j r ks t h = ground (arith, eq_refl j)
all_present-listed false j r ks t h = h

all_present-completed_keys :
    (now : ℕ) (t : Table QuizRow) → all_present (completed_keys now t) t ≡ true
unfolding completed_keys
all_present-completed_keys now [] = refl
all_present-completed_keys now ((j, r) ∷ t) =
    all_present-listed (evictable now r) j r (completed_keys now t) t
      (all_present-tail j r (completed_keys now t) t (all_present-completed_keys now t))

all_present-insert_key :
    (before : String → String → Bool) (k : Key) (ks : List Key) (t : Table QuizRow)
    → all_present (insert_key before k ks) t ≡ all_present (k ∷ ks) t
unfolding insert_key
all_present-insert_key before (a, i) [] t = refl
all_present-insert_key before (a, i) ((b, j) ∷ ks) t =
    ground (arith, all_present-insert_key before (a, i) ks t)

all_present-sort_keys :
    (before : String → String → Bool) (ks : List Key) (t : Table QuizRow)
    → all_present (sort_keys before ks) t ≡ all_present ks t
unfolding sort_keys
all_present-sort_keys before [] t = refl
all_present-sort_keys before ((a, i) ∷ ks) t =
    all_present-insert_key before (a, i) (sort_keys before ks) t
    ∙ ground (arith, all_present-sort_keys before ks t)

all_present-take :
    (n : ℕ) (ks : List Key) (t : Table QuizRow)
    → all_present ks t ≡ true
    → all_present (take n ks) t ≡ true
all_present-take zero ks t h = refl
all_present-take (suc n) [] t h = refl
all_present-take (suc n) ((a, i) ∷ ks) t h = ground (arith, all_present-take n ks t)

all_present-remove :
    (sid : String) (ks : List Key) (t : Table QuizRow)
    → unlisted sid ks ≡ true
    → all_present ks t ≡ true
    → all_present ks (remove sid t) ≡ true
all_present-remove sid [] t d h = refl
all_present-remove sid ((a, i) ∷ ks) t d h =
    ground (arith, eq_iff i sid, eq_iff sid i, find-remove sid i t, all_present-remove sid ks t)

count-present :
    (sid : String) (t : Table QuizRow)
    → Unique t
    → is_some (find sid t) ≡ true
    → count_rows any_row (remove sid t) + 1 ≡ count_rows any_row t
count-present sid t u h = elim (Option-cases (find sid t)) [
  | inl absent ↦ ground (arith, absent)
  | inr (r, there) ↦ count-remove sid any_row t r u there refl
]

count-remove_all :
    (ks : List Key) (t : Table QuizRow)
    → Unique t
    → distinct ks ≡ true
    → all_present ks t ≡ true
    → count_rows any_row (remove_all ks t) + length ks ≡ count_rows any_row t
unfolding remove_all
count-remove_all [] t u d h = omega arith
count-remove_all ((a, i) ∷ ks) t u d h = omega (
  arith,
  count-present i t u (and_left _ _ h),
  count-remove_all ks (remove i t) (Unique-remove i t u) (and_right (unlisted i ks) (distinct ks) d)
      (all_present-remove i ks t (and_left _ _ d) (and_right (is_some (find i t)) _ h)),
)

pub find-remove_all :
    (sid : String) (ks : List Key) (t : Table QuizRow)
    → unlisted sid ks ≡ true
    → find sid (remove_all ks t) ≡ find sid t
unfolding remove_all
find-remove_all sid [] t h = refl
find-remove_all sid ((a, i) ∷ ks) t h =
    find-remove_all sid ks (remove i t) (ground arith) ∙ ground (arith, find-remove i sid t)

-- Taking the oldest candidates keeps what the list says about them.
victims-fit :
    (st : StoreSettings) (now n : ℕ) (t : Table QuizRow)
    → Unique t
    → n ≤ length (sort_keys st.id_before (completed_keys now t))
    → count_rows any_row (remove_all (take n (sort_keys st.id_before (completed_keys now t))) t) + n
      ≡ count_rows any_row t
victims-fit st now n t u h =
    let ks = sort_keys st.id_before (completed_keys now t) in
    let sorted_distinct : distinct ks ≡ true =
      distinct-sort_keys st.id_before (completed_keys now t) ∙ distinct-completed_keys now t u in
    let sorted_present : all_present ks t ≡ true =
      all_present-sort_keys st.id_before (completed_keys now t) t
      ∙ all_present-completed_keys now t in
    omega (
      arith,
      length-take n ks h,
      count-remove_all (take n ks) t u (distinct-take n ks sorted_distinct)
          (all_present-take n ks t sorted_present),
    )

abbrev pub swept : ℕ → Table QuizRow → Table QuizRow
swept now t = keep_rows (λ r. not (gone now r)) t

abbrev pub required : StoreSettings → ℕ → Table QuizRow → ℕ
required st now t = count_rows any_row (swept now t) + 1 - st.max_count

abbrev pub candidates : StoreSettings → ℕ → Table QuizRow → List Key
candidates st now t = sort_keys st.id_before (completed_keys now (swept now t))

-- Where `_make_capacity` does not raise, nothing is to be evicted, or the oldest candidates are.
evict-ok :
    (n : ℕ) (ks : List Key) (t t' : Table QuizRow)
    → evict_oldest n ks t ≡ ok t'
    → (n ≤ length ks) × (remove_all (take n ks) t ≡ t')
unfolding evict_oldest
evict-ok n ks t t' e = elim (Bool-cases (ltb (length ks) n)) [
  | inl few ↦ absurd (ground (arith, few, e))
  | inr enough ↦ (ground (arith, enough), ground (arith, enough, e))
]

pub capacity-cases :
    (st : StoreSettings) (now : ℕ) (t t' : Table QuizRow)
    → make_capacity st now t ≡ ok t'
    → ((required st now t ≡ 0) × (swept now t ≡ t'))
      ⊎ ((required st now t ≤ length (candidates st now t))
          × (remove_all (take (required st now t) (candidates st now t)) (swept now t) ≡ t'))
unfolding make_capacity
capacity-cases st now t t' e = elim (Bool-cases (required st now t == 0)) [
  | inl free ↦ inl (ground (arith, free), ground (arith, free, e))
  | inr full ↦
      let same : make_capacity st now t
          ≡ evict_oldest (required st now t) (candidates st now t) (swept now t) =
        ground (arith, full) in
      inr (evict-ok (required st now t) (candidates st now t) (swept now t) t' (sym same ∙ e))
]

-- What `_make_capacity` leaves where it does not raise.
pub make_capacity-fits :
    (st : StoreSettings) (now : ℕ) (t t' : Table QuizRow)
    → Unique t
    → make_capacity st now t ≡ ok t'
    → count_rows any_row t' + 1 ≤ st.max_count
make_capacity-fits st now t t' u e = elim (capacity-cases st now t t' e) [
  | inl (free, same) ↦
      subst (λ x. count_rows any_row x + 1 ≤ st.max_count) same (omega (arith, free))
  | inr (enough, same) ↦
      subst (λ x. count_rows any_row x + 1 ≤ st.max_count) same
        (omega (
          arith,
          victims-fit st now (required st now t) (swept now t)
              (Unique-keep_rows (λ r. not (gone now r)) t u) enough,
        ))
]

pub make_capacity-keeps :
    (st : StoreSettings) (now : ℕ) (t t' : Table QuizRow) (sid : String) (r : QuizRow)
    → Unique t
    → make_capacity st now t ≡ ok t'
    → find sid t ≡ some r
    → gone now r ≡ false
    → evictable now r ≡ false
    → find sid t' ≡ some r
make_capacity-keeps st now t t' sid r u e there stays_ busy_ =
    let kept : find sid (swept now t) ≡ some r =
      find-keep_rows sid (λ s. not (gone now s)) t u ∙ ground (arith, there, stays_) in
    elim (capacity-cases st now t t' e) [
      | inl (free, same) ↦ subst (λ x. find sid x ≡ some r) same kept
      | inr (enough, same) ↦
          let listed : unlisted sid (completed_keys now (swept now t)) ≡ true =
            unlisted-kept now sid (swept now t) r (Unique-keep_rows (λ s. not (gone now s)) t u)
              kept busy_ in
          subst (λ x. find sid x ≡ some r) same
            (find-remove_all sid (take (required st now t) (candidates st now t)) (swept now t) (
                unlisted-take sid (required st now t) (candidates st now t)
                  (unlisted-sort_keys st.id_before sid (completed_keys now (swept now t)) ∙ listed))
              ∙ kept)
    ]
