-- ===== src/Quizzes/Create.antt =====
-- services/quiz_sessions.py: `_create_sync` and `_make_capacity`. `_lock_capacity` locks the table, so
-- that no other transaction writes in between.
use study_loop.Base.{
  Bool, List, Option, String, [], false, if◌then◌else◌, is_none, leb, length, ltb, none, not, some,
  str_eq, take, true, ℕ, ◌&&◌, ◌+◌, ◌-◌, ◌==◌, ◌||◌, ◌∷◌,
}
use study_loop.Base.Result.{Result, err, ok}
use study_loop.Json.{JsonText}
use study_loop.Quizzes.Row.{
  Codec, QuizRow, StoreError, StoreSettings, StoredQuizSession, all_active, already_exists,
  disappeared, due, row_to_record, start_mismatch,
}
use study_loop.Quizzes.Store.{same_request, select_by_start_key}
use study_loop.Table.{Table, count_rows, find, keep_rows, put, remove}
use study_loop.Table.Order.{Key, sort_keys}

abbrev pub unclaimed : ℕ → QuizRow → Bool
unclaimed now r = is_none r.claim_token || due r.claim_expires_at now

-- What `_make_capacity` deletes first, and what it may evict.
abbrev pub gone : ℕ → QuizRow → Bool
gone now r = leb r.expires_at now && unclaimed now r

abbrev pub evictable : ℕ → QuizRow → Bool
evictable now r = str_eq r.status "completed" && unclaimed now r

unfoldable pub completed_keys : ℕ → Table QuizRow → List Key
completed_keys now [] = []
completed_keys now ((sid, r) ∷ t) =
    let rest = completed_keys now t in if evictable now r then (r.updated_at, sid) ∷ rest else rest

unfoldable pub remove_all : List Key → Table QuizRow → Table QuizRow
remove_all [] t = t
remove_all ((updated, sid) ∷ ks) t = remove_all ks (remove sid t)

abbrev pub any_row : QuizRow → Bool
any_row r = true

unfoldable pub evict_oldest : ℕ → List Key → Table QuizRow → Result StoreError (Table QuizRow)
unfolding remove_all
evict_oldest required rows t =
    if ltb (length rows) required then err all_active else ok (remove_all (take required rows) t)

-- `_make_capacity`. The difference is truncated, as a requirement below 1 evicts nothing.
unfoldable pub make_capacity : StoreSettings → ℕ → Table QuizRow → Result StoreError (Table QuizRow)
unfolding completed_keys evict_oldest
make_capacity st now t =
    let t' = keep_rows (λ r. not (gone now r)) t in
    let required = count_rows any_row t' + 1 - st.max_count in
    if required == 0
    then ok t'
    else evict_oldest required (sort_keys st.id_before (completed_keys now t')) t'

abbrev pub new_row :
    StoreSettings → String → JsonText → String → Option String → Option String → ℕ → QuizRow
new_row st status payload hash key_hash request_hash now = record {
  schema_version = 1;
  payload_json = payload;
  status = status;
  immutable_hash = hash;
  revision = 1;
  start_key_hash = key_hash;
  start_request_hash = request_hash;
  created_at = now;
  updated_at = now;
  expires_at = now + st.ttl_seconds;
  claim_token = none;
  claim_operation = none;
  claim_expires_at = none;
}

-- QuizSessionCreateResult: the record, and whether it is new.
abbrev pub CreateResult : Type 0
CreateResult = StoredQuizSession × Bool

abbrev pub existing_result : Result StoreError StoredQuizSession → Result StoreError CreateResult
existing_result (ok r) = ok (r, false)
existing_result (err e) = err e

abbrev pub created_result :
    Table QuizRow
    → Table QuizRow
    → Result StoreError StoredQuizSession
    → Result StoreError CreateResult × Table QuizRow
created_result t t' (ok r) = (ok (r, true), t')
created_result t t' (err e) = (err e, t)

abbrev pub started : Option String → Table QuizRow → Option (String × QuizRow)
started none t = none
started (some key_hash) t = select_by_start_key key_hash t

-- The INSERT, and the record that is read back.
unfoldable pub insert_new :
    Codec
    → String
    → QuizRow
    → ℕ
    → Table QuizRow
    → Table QuizRow
    → Result StoreError CreateResult × Table QuizRow
unfolding row_to_record
insert_new cx sid row now t t' =
    let t'' = put sid row t' in
    elim (find sid t'') [
      | none ↦ (err disappeared, t)
      | some r ↦ created_result t t'' (row_to_record cx sid r now)
    ]

unfoldable pub create_new :
    Codec
    → StoreSettings
    → String
    → QuizRow
    → ℕ
    → Table QuizRow
    → Result StoreError CreateResult × Table QuizRow
unfolding make_capacity insert_new
create_new cx st sid row now t = elim (find sid t) [
  | some _ ↦ (err already_exists, t)
  | none ↦ elim (make_capacity st now t) [
    | err e ↦ (err e, t)
    | ok t' ↦ insert_new cx sid row now t t'
  ]
]

-- `_create_sync`.
unfoldable pub create_sync :
    Codec
    → StoreSettings
    → String
    → String
    → JsonText
    → String
    → Option String
    → Option String
    → ℕ
    → Table QuizRow
    → Result StoreError CreateResult × Table QuizRow
unfolding create_new select_by_start_key
create_sync cx st sid status payload hash key_hash request_hash now t = elim (started key_hash t) [
  | some (existing, row) ↦
      if same_request row.start_request_hash request_hash
      then (existing_result (row_to_record cx existing row now), t)
      else (err start_mismatch, t)
  | none ↦ create_new cx st sid (new_row st status payload hash key_hash request_hash now) now t
]
