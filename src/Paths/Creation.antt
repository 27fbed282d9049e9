-- ===== src/Paths/Creation.antt =====
-- services/learning_path_store.py: `_create_sync`, which stores a path once per idempotency key, and the
-- reads `_find_by_creation_sync`, `_get_sync` and `_get_current_sync`.
-- The arguments are those of the public methods after their validation.
use study_loop.Base.{
  Bool, List, Option, String, [], col_is, if◌then◌else◌, is_none, is_some, ltb, none, some, str_eq,
  ℕ, ◌&&◌, ◌==◌, ◌||◌, ◌∷◌,
}
use study_loop.Base.Result.{Result, err, ok}
use study_loop.Paths.Row.{
  Completion, LearningPathRecord, PathCodec, PathError, PathRow, immutable_hash,
  record_with_progress,
}
use study_loop.Table.{Table, find}

-- `_select_by_creation`: the column is UNIQUE, so there is one row at most.
unfoldable pub by_creation : String → Table PathRow → Option (String × PathRow)
by_creation key_hash [] = none
by_creation key_hash ((path_id, row) ∷ rows) =
    if str_eq row.idempotency_key_hash key_hash
    then some (path_id, row)
    else by_creation key_hash rows

-- Who asks for the path of an idempotency key, and for which request.
pub record Creation : Type 0 where
  pub key_hash : String
  pub user_id : String
  pub document_id : String
  pub request_fingerprint : String

-- The path that is to be stored, with the `source_created_at` of the caller.
pub record NewPath : Type 0 where
  pub path_id : String
  pub payload_json : String
  pub source_created_at : Option ℕ

-- LearningPathCreationConflictError, what a read raises, the IntegrityError of a path id that is in
-- use, and the RuntimeError of a row that is gone.
pub data CreationError : Type 0 where
  payload_mismatch duplicate_path_id disappeared : CreationError
  unreadable : PathError → CreationError

abbrev pub Created : Type 0
Created = Result CreationError LearningPathRecord

-- `_validate_creation_binding`, which raises where this is false.
unfoldable pub binds : Creation → PathRow → Bool
binds q row =
    str_eq row.idempotency_key_hash q.key_hash
    && (str_eq row.user_id q.user_id
        && (str_eq row.document_id q.document_id
            && str_eq row.request_fingerprint q.request_fingerprint))

abbrev pub as_created : Result PathError LearningPathRecord → Created
as_created (ok r) = ok r
as_created (err e) = err (unreadable e)

-- A row that was found for the key of the creation.
unfoldable pub answered : PathCodec → Creation → String → PathRow → List Completion → Created
unfolding binds
answered cx q path_id row cs =
    if binds q row
    then as_created (record_with_progress cx path_id row cs)
    else err payload_mismatch

abbrev pub created_at_of : Option ℕ → ℕ → ℕ
created_at_of none now = now
created_at_of (some t) now = t

unfoldable pub new_row : PathCodec → Creation → NewPath → ℕ → PathRow
new_row cx q n now =
    let row : PathRow = record {
      schema_version = 1;
      user_id = q.user_id;
      document_id = q.document_id;
      payload_json = n.payload_json;
      status = "ready";
      immutable_hash = "";
      idempotency_key_hash = q.key_hash;
      request_fingerprint = q.request_fingerprint;
      created_at = created_at_of n.source_created_at now;
    } in
    record row { immutable_hash = immutable_hash cx n.path_id row }

-- The last read of the transaction: where it raises, the insertion is rolled back.
abbrev pub commit : Table PathRow → Table PathRow → Created → Created × Table PathRow
commit rows grown (ok r) = (ok r, grown)
commit rows grown (err e) = (err e, rows)

-- `INSERT ... ON CONFLICT (idempotency_key_hash) DO NOTHING`, and the read of the row.
unfoldable pub insert_path :
    PathCodec → Creation → NewPath → ℕ → Table PathRow → List Completion → Created × Table PathRow
unfolding by_creation answered new_row
insert_path cx q n now rows cs = elim (by_creation q.key_hash rows) [
  | some (path_id, row) ↦ (answered cx q path_id row cs, rows)
  | none ↦
      if is_some (find n.path_id rows)
      then (err duplicate_path_id, rows)
      else (let grown = (n.path_id, new_row cx q n now) ∷ rows in
          elim (find n.path_id grown) [
            | none ↦ (err disappeared, rows)
            | some row ↦ commit rows grown (answered cx q n.path_id row cs)
          ])
]

-- `_create_sync`; `between` is what other transactions store between the SELECT and the INSERT.
unfoldable pub create_sync :
    (Table PathRow → Table PathRow)
    → PathCodec
    → Creation
    → NewPath
    → ℕ
    → Table PathRow
    → List Completion
    → Created × Table PathRow
unfolding insert_path
create_sync between cx q n now rows cs = elim (by_creation q.key_hash rows) [
  | some (path_id, row) ↦ (answered cx q path_id row cs, rows)
  | none ↦ insert_path cx q n now (between rows) cs
]

abbrev pub some_created : Created → Result CreationError (Option LearningPathRecord)
some_created (ok r) = ok (some r)
some_created (err e) = err e

-- `_find_by_creation_sync`.
unfoldable pub find_by_creation_sync :
    PathCodec
    → Creation
    → Table PathRow
    → List Completion
    → Result CreationError (Option LearningPathRecord)
unfolding by_creation answered
find_by_creation_sync cx q rows cs = elim (by_creation q.key_hash rows) [
  | none ↦ ok none
  | some (path_id, row) ↦ some_created (answered cx q path_id row cs)
]

abbrev pub some_read :
    Result PathError LearningPathRecord → Result PathError (Option LearningPathRecord)
some_read (ok r) = ok (some r)
some_read (err e) = err e

-- `_get_sync`.
unfoldable pub get_sync :
    PathCodec
    → String
    → Table PathRow
    → List Completion
    → Result PathError (Option LearningPathRecord)
get_sync cx path_id rows cs = elim (find path_id rows) [
  | none ↦ ok none
  | some row ↦ some_read (record_with_progress cx path_id row cs)
]

-- The WHERE clause of `_get_current_sync`.
unfoldable pub listed_for : String → Option String → PathRow → Bool
listed_for user_id document_id row =
    str_eq row.user_id user_id && (is_none document_id || col_is document_id row.document_id)

-- `ORDER BY created_at DESC, path_id DESC`: the first pair comes before the second.
abbrev pub newer : (String → String → Bool) → String × PathRow → String × PathRow → Bool
newer id_before (i, a) (j, b) =
    ltb b.created_at a.created_at || (a.created_at == b.created_at && id_before j i)

abbrev pub newer_of :
    (String → String → Bool) → String × PathRow → Option (String × PathRow) → String × PathRow
newer_of id_before a none = a
newer_of id_before a (some b) = if newer id_before b a then b else a

-- The first row of that order, `LIMIT 1`.
unfoldable pub current_row :
    (String → String → Bool) → String → Option String → Table PathRow → Option (String × PathRow)
unfolding listed_for
current_row id_before user_id document_id [] = none
current_row id_before user_id document_id ((path_id, row) ∷ rows) =
    let rest = current_row id_before user_id document_id rows in
    if listed_for user_id document_id row
    then some (newer_of id_before (path_id, row) rest)
    else rest

-- `_get_current_sync`.
unfoldable pub get_current_sync :
    (String → String → Bool)
    → PathCodec
    → String
    → Option String
    → Table PathRow
    → List Completion
    → Result PathError (Option LearningPathRecord)
unfolding current_row
get_current_sync id_before cx user_id document_id rows cs =
    elim (current_row id_before user_id document_id rows) [
      | none ↦ ok none
      | some (path_id, row) ↦ some_read (record_with_progress cx path_id row cs)
    ]
