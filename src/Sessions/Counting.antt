-- ===== src/Sessions/Counting.antt =====
-- services/autonomous_sessions.py: the keys that `_enforce_capacity` sorts and evicts, and the number of
-- open sessions.
use study_loop.Base.{
  Bool, List, Option-cases, String, [], and_left, and_right, arith, eq_iff, eq_refl, false,
  if◌then◌else◌, inl, inr, length, none, not, refl, some, str_eq, suc, take, true, zero, ℕ, ◌&&◌,
  ◌+◌, ◌∙◌, ◌∷◌, ◌≡◌,
}
use study_loop.Sessions.Capacity.{evict_all, evictable, evictable_keys, is_open}
use study_loop.Sessions.Row.{Session}
use study_loop.Table.{Table, count_rows, delete_where, find}
use study_loop.Table.Keys.{Unique, Unique-delete_where, count-remove, find-delete_where}
use study_loop.Table.Order.{Key, distinct, insert_key, sort_keys, unlisted}

abbrev pub evictable_at : String → Table Session → Bool
evictable_at cid t = elim (find cid t) [ none ↦ false | some r ↦ evictable r ]

abbrev pub all_evictable : List Key → Table Session → Bool
all_evictable [] t = true
all_evictable ((a, i) ∷ ks) t = evictable_at i t && all_evictable ks t

all_evictable-delete :
    (cid : String) (ks : List Key) (t : Table Session)
    → unlisted cid ks ≡ true
    → all_evictable ks t ≡ true
    → all_evictable ks (delete_where cid evictable t).0 ≡ true
all_evictable-delete cid [] t d h = refl
all_evictable-delete cid ((a, i) ∷ ks) t d h = ground (
  arith,
  eq_iff i cid,
  eq_iff cid i,
  find-delete_where cid i evictable t,
  all_evictable-delete cid ks t,
)

count-delete :
    (cid : String) (t : Table Session)
    → Unique t
    → evictable_at cid t ≡ true
    → count_rows is_open (delete_where cid evictable t).0 + 1 ≡ count_rows is_open t
unfolding delete_where
count-delete cid t u h = elim (Option-cases (find cid t)) [
  | inl absent ↦ ground (arith, absent)
  | inr (r, there) ↦ ground (arith, there, count-remove cid is_open t r u there)
]

-- Each eviction of a distinct evictable key lowers the count by one.
pub count-evict_all :
    (ks : List Key) (t : Table Session)
    → Unique t
    → distinct ks ≡ true
    → all_evictable ks t ≡ true
    → count_rows is_open (evict_all ks t) + length ks ≡ count_rows is_open t
unfolding evict_all
count-evict_all [] t u d h = omega arith
count-evict_all ((a, i) ∷ ks) t u d h = omega (
  arith,
  count-delete i t u (and_left _ _ h),
  count-evict_all ks (delete_where i evictable t).0 (Unique-delete_where i evictable t u)
      (and_right (unlisted i ks) (distinct ks) d)
      (all_evictable-delete i ks t (and_left _ _ d) (and_right (evictable_at i t) _ h)),
)

-- Sorting and taking keep both conditions.
all_evictable-insert_key :
    (before : String → String → Bool) (k : Key) (ks : List Key) (t : Table Session)
    → all_evictable (insert_key before k ks) t ≡ all_evictable (k ∷ ks) t
unfolding insert_key
all_evictable-insert_key before (a, i) [] t = refl
all_evictable-insert_key before (a, i) ((b, j) ∷ ks) t =
    ground (arith, all_evictable-insert_key before (a, i) ks t)

pub all_evictable-sort_keys :
    (before : String → String → Bool) (ks : List Key) (t : Table Session)
    → all_evictable (sort_keys before ks) t ≡ all_evictable ks t
unfolding sort_keys
all_evictable-sort_keys before [] t = refl
all_evictable-sort_keys before ((a, i) ∷ ks) t =
    all_evictable-insert_key before (a, i) (sort_keys before ks) t
    ∙ ground (arith, all_evictable-sort_keys before ks t)

pub all_evictable-take :
    (n : ℕ) (ks : List Key) (t : Table Session)
    → all_evictable ks t ≡ true
    → all_evictable (take n ks) t ≡ true
all_evictable-take zero ks t h = refl
all_evictable-take (suc n) [] t h = refl
all_evictable-take (suc n) ((a, i) ∷ ks) t h = ground (arith, all_evictable-take n ks t)

-- The candidates of a table with a primary key satisfy both.
unlisted-absent :
    (i protected : String) (t : Table Session)
    → find i t ≡ none
    → unlisted i (evictable_keys protected t) ≡ true
unfolding find evictable_keys
unlisted-absent i protected [] h = refl
unlisted-absent i protected ((j, r) ∷ t) h = ground (arith, unlisted-absent i protected t)

pub distinct-evictable_keys :
    (protected : String) (t : Table Session)
    → Unique t
    → distinct (evictable_keys protected t) ≡ true
unfolding evictable_keys
distinct-evictable_keys protected [] u = refl
distinct-evictable_keys protected ((j, r) ∷ t) u =
    ground (arith, unlisted-absent j protected t u.0, distinct-evictable_keys protected t u.1)

all_evictable-tail :
    (j : String) (r : Session) (ks : List Key) (t : Table Session)
    → unlisted j ks ≡ true
    → all_evictable ks t ≡ true
    → all_evictable ks ((j, r) ∷ t) ≡ true
unfolding find
all_evictable-tail j r [] t d h = refl
all_evictable-tail j r ((a, i) ∷ ks) t d h =
    ground (arith, eq_iff i j, eq_iff j i, all_evictable-tail j r ks t)

-- The key of a row, listed where a test says so.
all_evictable-listed :
    (b : Bool) (j : String) (r : Session) (ks : List Key) (t : Table Session)
    → (b ≡ true → evictable r ≡ true)
    → all_evictable ks ((j, r) ∷ t) ≡ true
    → all_evictable (if b then (r.created_at, j) ∷ ks else ks) ((j, r) ∷ t) ≡ true
unfolding find
all_evictable-listed true j r ks t free h = ground (arith, eq_refl j, free refl)
all_evictable-listed false j r ks t free h = h

pub all_evictable-evictable_keys :
    (protected : String) (t : Table Session)
    → Unique t
    → all_evictable (evictable_keys protected t) t ≡ true
unfolding evictable_keys
all_evictable-evictable_keys protected [] u = refl
all_evictable-evictable_keys protected ((j, r) ∷ t) u =
    all_evictable-listed (evictable r && not (str_eq j protected)) j r (evictable_keys protected t)
      t (and_left _ _)
      (all_evictable-tail j r (evictable_keys protected t) t (unlisted-absent j protected t u.0)
        (all_evictable-evictable_keys protected t u.1))
