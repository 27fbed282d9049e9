-- ===== src/Table/Order.antt =====
-- `SELECT key ... ORDER BY time ASC, key ASC`: the candidates that services/autonomous_sessions.py and
-- services/quiz_sessions.py evict when a table is full. `id_before` is how the database orders keys.
use study_loop.Base.{
  Bool, List, String, [], arith, eq_iff, if◌then◌else◌, length, ltb, not, refl, str_eq, suc, take,
  true, zero, ℕ, ◌&&◌, ◌==◌, ◌||◌, ◌∙◌, ◌∷◌, ◌≡◌, ◌≤◌,
}

-- A row's time and its key, for `ORDER BY time ASC, key ASC`.
abbrev pub Key : Type 0
Key = ℕ × String

abbrev pub key_before : (String → String → Bool) → Key → Key → Bool
key_before id_before (a, i) (b, j) = ltb a b || a == b && id_before i j

unfoldable pub insert_key : (String → String → Bool) → Key → List Key → List Key
insert_key id_before k [] = k ∷ []
insert_key id_before k (l ∷ ls) =
    let rest = insert_key id_before k ls in
    if key_before id_before l k then l ∷ rest else k ∷ l ∷ ls

unfoldable pub sort_keys : (String → String → Bool) → List Key → List Key
unfolding insert_key
sort_keys id_before [] = []
sort_keys id_before (k ∷ ks) = insert_key id_before k (sort_keys id_before ks)

-- No key of the list has this text.
abbrev pub unlisted : String → List Key → Bool
unlisted cid [] = true
unlisted cid ((created, i) ∷ ks) = not (str_eq i cid) && unlisted cid ks

pub unlisted-insert_key :
    (before : String → String → Bool) (cid : String) (k : Key) (ks : List Key)
    → unlisted cid (insert_key before k ks) ≡ unlisted cid (k ∷ ks)
unfolding insert_key
unlisted-insert_key before cid (a, i) [] = refl
unlisted-insert_key before cid (a, i) ((b, j) ∷ ks) =
    ground (arith, unlisted-insert_key before cid (a, i) ks)

pub unlisted-sort_keys :
    (before : String → String → Bool) (cid : String) (ks : List Key)
    → unlisted cid (sort_keys before ks) ≡ unlisted cid ks
unfolding sort_keys
unlisted-sort_keys before cid [] = refl
unlisted-sort_keys before cid ((a, i) ∷ ks) =
    unlisted-insert_key before cid (a, i) (sort_keys before ks)
    ∙ ground (arith, unlisted-sort_keys before cid ks)

pub unlisted-take :
    (cid : String) (n : ℕ) (ks : List Key)
    → unlisted cid ks ≡ true
    → unlisted cid (take n ks) ≡ true
unlisted-take cid zero ks h = refl
unlisted-take cid (suc n) [] h = refl
unlisted-take cid (suc n) ((a, i) ∷ ks) h = ground (arith, unlisted-take cid n ks)

-- No two keys of the list have the same text.
abbrev pub distinct : List Key → Bool
distinct [] = true
distinct ((a, i) ∷ ks) = unlisted i ks && distinct ks

distinct-insert_key :
    (before : String → String → Bool) (k : Key) (ks : List Key)
    → distinct (insert_key before k ks) ≡ distinct (k ∷ ks)
unfolding insert_key
distinct-insert_key before (a, i) [] = refl
distinct-insert_key before (a, i) ((b, j) ∷ ks) = ground (
  arith,
  eq_iff i j,
  eq_iff j i,
  distinct-insert_key before (a, i) ks,
  unlisted-insert_key before j (a, i) ks,
)

pub distinct-sort_keys :
    (before : String → String → Bool) (ks : List Key) → distinct (sort_keys before ks) ≡ distinct ks
unfolding sort_keys
distinct-sort_keys before [] = refl
distinct-sort_keys before ((a, i) ∷ ks) =
    distinct-insert_key before (a, i) (sort_keys before ks)
    ∙ ground (arith, distinct-sort_keys before ks, unlisted-sort_keys before i ks)

pub distinct-take : (n : ℕ) (ks : List Key) → distinct ks ≡ true → distinct (take n ks) ≡ true
distinct-take zero ks h = refl
distinct-take (suc n) [] h = refl
distinct-take (suc n) ((a, i) ∷ ks) h = ground (arith, unlisted-take i n ks, distinct-take n ks)

pub length-take : (n : ℕ) (ks : List Key) → n ≤ length ks → length (take n ks) ≡ n
length-take zero ks h = omega arith
length-take (suc n) [] h = omega arith
length-take (suc n) (k ∷ ks) h = omega (arith, length-take n ks)
