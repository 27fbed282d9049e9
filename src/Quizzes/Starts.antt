-- ===== src/Quizzes/Starts.antt =====
-- services/quiz_sessions.py: `_create_sync` under a start key, and its writes.
use study_loop.Base.{
  Bool, Bool-cases, List, Option, Option-cases, String, [], ap, arith, col_is, eq_refl, false,
  if◌then◌else◌, inl, inr, none, not, refl, some, str_eq, subst, sym, take, true, ℕ, ◌∙◌, ◌∷◌, ◌≡◌,
  ◌≢◌,
}
use study_loop.Base.Result.{Result, Result-cases, err, ok}
use study_loop.Json.{JsonText}
use study_loop.Quizzes.Create.{
  create_new, create_sync, existing_result, gone, insert_new, make_capacity, new_row, remove_all,
  started,
}
use study_loop.Quizzes.Room.{candidates, capacity-cases, required, swept}
use study_loop.Quizzes.Row.{
  Codec, QuizRow, StoreError, StoreSettings, StoredQuizSession, row_to_record, start_mismatch,
  stored,
}
use study_loop.Quizzes.Store.{same_request, select_by_start_key}
use study_loop.Table.{Table, find, find-put, keep_rows, put, remove}
use study_loop.Table.Order.{Key}

module _ (key_hash : String) where
  select-keep_rows :
      (p : QuizRow → Bool) (t : Table QuizRow)
      → select_by_start_key key_hash t ≡ none
      → select_by_start_key key_hash (keep_rows p t) ≡ none
  unfolding select_by_start_key
  select-keep_rows p [] h = refl
  select-keep_rows p ((j, r) ∷ t) h = ground (arith, select-keep_rows p t)

  select-remove :
      (sid : String) (t : Table QuizRow)
      → select_by_start_key key_hash t ≡ none
      → select_by_start_key key_hash (remove sid t) ≡ none
  unfolding select_by_start_key remove
  select-remove sid [] h = refl
  select-remove sid ((j, r) ∷ t) h = ground (arith, select-remove sid t)

  select-remove_all :
      (ks : List Key) (t : Table QuizRow)
      → select_by_start_key key_hash t ≡ none
      → select_by_start_key key_hash (remove_all ks t) ≡ none
  unfolding remove_all
  select-remove_all [] t h = h
  select-remove_all ((a, i) ∷ ks) t h = select-remove_all ks (remove i t) (select-remove i t h)

  select-put :
      (sid : String) (row : QuizRow) (t : Table QuizRow)
      → select_by_start_key key_hash t ≡ none
      → col_is row.start_key_hash key_hash ≡ true
      → select_by_start_key key_hash (put sid row t) ≡ some (sid, row)
  unfolding select_by_start_key put
  select-put sid row [] h e = ground (arith, e)
  select-put sid row ((j, r) ∷ t) h e = ground (arith, e, select-put sid row t)

  select-make_capacity :
      (st : StoreSettings) (now : ℕ) (t t' : Table QuizRow)
      → make_capacity st now t ≡ ok t'
      → select_by_start_key key_hash t ≡ none
      → select_by_start_key key_hash t' ≡ none
  select-make_capacity st now t t' e h =
      let kept = select-keep_rows (λ r. not (gone now r)) t h in
      elim (capacity-cases st now t t' e) [
        | inl (free, same) ↦ subst (λ x. select_by_start_key key_hash x ≡ none) same kept
        | inr (enough, same) ↦
            subst (λ x. select_by_start_key key_hash x ≡ none) same
              (select-remove_all (take (required st now t) (candidates st now t)) (swept now t)
                kept)
      ]

-- What a creation has done.
module _ (cx : Codec) (st : StoreSettings) (sid : String) (row : QuizRow) (now : ℕ)
    (t : Table QuizRow) (record_ : StoredQuizSession) where
  insert-created :
      (t' : Table QuizRow)
      → (insert_new cx sid row now t t').0 ≡ ok (record_, true)
      → (row_to_record cx sid row now ≡ ok record_)
        × ((insert_new cx sid row now t t').1 ≡ put sid row t')
  unfolding insert_new
  insert-created t' e = (grind (arith, find-put, eq_refl), grind (arith, find-put, eq_refl))

  new-created :
      (create_new cx st sid row now t).0 ≡ ok (record_, true)
      → (t' : Table QuizRow) × (make_capacity st now t ≡ ok t')
        × (find sid t ≡ none)
        × (row_to_record cx sid row now ≡ ok record_)
        × ((create_new cx st sid row now t).1 ≡ put sid row t')
  unfolding create_new
  new-created e = elim (Option-cases (find sid t)) [
    | inr (r, there) ↦ absurd (ground (arith, there, e))
    | inl absent ↦ elim (Result-cases (make_capacity st now t)) [
      | inr (x, raised) ↦ absurd (ground (arith, absent, raised, e))
      | inl (t', room) ↦
          let same : create_new cx st sid row now t ≡ insert_new cx sid row now t t' =
            ground (arith, absent, room) in
          let (read, written_) = insert-created t' (ap (λ x. x.0) (sym same) ∙ e) in
          (t', room, absent, read, ap (λ x. x.1) same ∙ written_)
    ]
  ]

existing-not_new :
    (r : Result StoreError StoredQuizSession) (record_ : StoredQuizSession)
    → existing_result r ≢ ok (record_, true)
existing-not_new (ok r) record_ e = cc
existing-not_new (err x) record_ e = cc

-- `_create_sync` where the start key is known, and where it is not.
module _ (cx : Codec) (st : StoreSettings) (sid status : String) (payload : JsonText)
    (hash : String) (key_hash request_hash : Option String) (now : ℕ) (t : Table QuizRow) where
  pub create-started :
      (existing : String) (row : QuizRow)
      → started key_hash t ≡ some (existing, row)
      → create_sync cx st sid status payload hash key_hash request_hash now t ≡ (
          if same_request row.start_request_hash request_hash
          then (existing_result (row_to_record cx existing row now), t)
          else (err start_mismatch, t))
  unfolding create_sync
  create-started existing row there = ground (arith, there)

  pub create-absent :
      started key_hash t ≡ none
      → create_sync cx st sid status payload hash key_hash request_hash now t
        ≡ create_new cx st sid (new_row st status payload hash key_hash request_hash now) now t
  unfolding create_sync
  create-absent absent = ground (arith, absent)

  started-created :
      (record_ : StoredQuizSession) (existing : String) (row : QuizRow)
      → started key_hash t ≡ some (existing, row)
      → (create_sync cx st sid status payload hash key_hash request_hash now t).0
        ≢ ok (record_, true)
  started-created record_ existing row there e =
      elim (Bool-cases (same_request row.start_request_hash request_hash)) [
        | inl same ↦
            existing-not_new (row_to_record cx existing row now) record_
              (ground (arith, create-started existing row there, same, e))
        | inr differs ↦ absurd (ground (arith, create-started existing row there, differs, e))
      ]

  create-created :
      (record_ : StoredQuizSession)
      → (create_sync cx st sid status payload hash key_hash request_hash now t).0
        ≡ ok (record_, true)
      → let row = new_row st status payload hash key_hash request_hash now in
        (started key_hash t ≡ none)
        × (t' : Table QuizRow) × (make_capacity st now t ≡ ok t')
        × (find sid t ≡ none)
        × (row_to_record cx sid row now ≡ ok record_)
        × ((create_sync cx st sid status payload hash key_hash request_hash now t).1
            ≡ put sid row t')
  create-created record_ e = elim (Option-cases (started key_hash t)) [
    | inr ((existing, row), there) ↦ absurd (started-created record_ existing row there e)
    | inl absent ↦
        let same = create-absent absent in
        let (t', room, fresh_, read, written_) =
          new-created cx st sid (new_row st status payload hash key_hash request_hash now) now t
            record_ (sym (ap (λ x. x.0) same) ∙ e) in
        (absent, t', room, fresh_, read, ap (λ x. x.1) same ∙ written_)
  ]

-- A row reads as the same record at every time, but for what depends on the time.
read_again :
    (cx : Codec) (sid : String) (row : QuizRow) (now later : ℕ) (record_ : StoredQuizSession)
    → row_to_record cx sid row now ≡ ok record_
    → row_to_record cx sid row later ≡ ok (stored row record_.aggregate later)
unfolding row_to_record
read_again cx sid row now later record_ e = grind arith

-- A start is idempotent. Once a creation under a start key has inserted a quiz, a retry under the same
-- key, at any time and whatever it carries, inserts nothing: with the same request it answers with the
-- stored quiz and says that it is not new, and with another request it is refused.
pub create_is_idempotent :
    (cx : Codec) (st : StoreSettings) (sid status : String) (payload : JsonText)
    (hash key_hash request_hash : String) (now : ℕ) (t : Table QuizRow)
    (record_ : StoredQuizSession) (sid' status' : String) (payload' : JsonText)
    (hash' request_hash' : String) (later : ℕ)
    → (create_sync cx st sid status payload hash (some key_hash) (some request_hash) now t).0
      ≡ ok (record_, true)
    → let t' =
        (create_sync cx st sid status payload hash (some key_hash) (some request_hash) now t).1 in
      let row = new_row st status payload hash (some key_hash) (some request_hash) now in
      create_sync cx st sid' status' payload' hash' (some key_hash) (some request_hash') later t'
      ≡ (if str_eq request_hash request_hash'
          then (ok (stored row record_.aggregate later, false), t')
          else (err start_mismatch, t'))
create_is_idempotent cx st sid status payload hash key_hash request_hash now t record_ sid' status'
      payload' hash' request_hash' later e =
    let row = new_row st status payload hash (some key_hash) (some request_hash) now in
    let (absent, t', room, fresh_, read, written_) =
      create-created cx st sid status payload hash (some key_hash) (some request_hash) now t record_
        e in
    let there : select_by_start_key key_hash (put sid row t') ≡ some (sid, row) =
      select-put key_hash sid row t' (select-make_capacity key_hash st now t t' room absent)
        (eq_refl key_hash) in
    rw written_ (
      create-started cx st sid' status' payload' hash' (some key_hash) (some request_hash') later
        (put sid row t') sid row there
      ∙ rw (read_again cx sid row now later record_ read) refl)
