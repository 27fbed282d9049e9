-- ===== src/Paths/Creates.antt =====
-- services/learning_path_store.py: a creation that is asked for again, or under a key in use.
use study_loop.Base.{
  Bool, List, String, ap, arith, eq_iff, false, some, str_eq, subst, sym, true, ℕ, ◌&&◌, ◌∙◌, ◌≡◌,
}
use study_loop.Base.Result.{err, ok}
use study_loop.Paths.Creation.{
  Creation, NewPath, answered, binds, by_creation, create_sync, find_by_creation_sync, get_sync,
  payload_mismatch, some_created,
}
use study_loop.Paths.Kept.{by_creation-find, create-IsStored, read-path_id}
use study_loop.Paths.Row.{Completion, LearningPathRecord, PathCodec, PathRow}
use study_loop.Table.{Table}
use study_loop.Table.Keys.{Unique}

-- Two creations are of the same user, document and request.
abbrev pub agrees : Creation → Creation → Bool
agrees q p =
    str_eq p.user_id q.user_id
    && (str_eq p.document_id q.document_id && str_eq p.request_fingerprint q.request_fingerprint)

other-binds :
    (q p : Creation) (row : PathRow) → binds q row ≡ true → agrees q p ≡ false → binds p row ≡ false
unfolding binds
other-binds q p row bound other = ground (
  arith,
  eq_iff row.user_id q.user_id,
  eq_iff row.document_id q.document_id,
  eq_iff row.request_fingerprint q.request_fingerprint,
  eq_iff p.user_id q.user_id,
  eq_iff p.document_id q.document_id,
  eq_iff p.request_fingerprint q.request_fingerprint,
  eq_iff row.user_id p.user_id,
  eq_iff row.document_id p.document_id,
  eq_iff row.request_fingerprint p.request_fingerprint,
)

module _ (cx : PathCodec) (cs : List Completion) (path_id : String) (row : PathRow)
    (rows : Table PathRow) (q : Creation)
    (there : by_creation q.key_hash rows ≡ some (path_id, row)) where
  stored-create :
      (again : Table PathRow → Table PathRow) (n : NewPath) (now : ℕ)
      → create_sync again cx q n now rows cs ≡ (answered cx q path_id row cs, rows)
  unfolding create_sync
  stored-create again n now = ground (arith, there)

  stored-find : find_by_creation_sync cx q rows cs ≡ some_created (answered cx q path_id row cs)
  unfolding find_by_creation_sync
  stored-find = ground (arith, there)

-- A creation that was answered with a record is kept: asked for again under its key, with any path, it
-- stores nothing and answers the same record, as a lookup of the key does; a creation of another user,
-- document or request under the key is refused and stores nothing; and where the path ids are
-- distinct, the path id of the record reads it.
pub creation_is_kept :
    (between again : Table PathRow → Table PathRow) (cx : PathCodec) (q p : Creation)
    (n m : NewPath) (now later : ℕ) (rows rows' : Table PathRow) (cs : List Completion)
    (r : LearningPathRecord)
    → create_sync between cx q n now rows cs ≡ (ok r, rows')
    → p.key_hash ≡ q.key_hash
    → agrees q p ≡ false
    → Unique rows'
    → (create_sync again cx q m later rows' cs ≡ (ok r, rows'))
      × (find_by_creation_sync cx q rows' cs ≡ ok (some r))
      × (create_sync again cx p m later rows' cs ≡ (err payload_mismatch, rows'))
      × (get_sync cx r.path_id rows' cs ≡ ok (some r))
creation_is_kept between again cx q p n m now later rows rows' cs r e same_key other u =
    let (path_id, row, there, bound, read) = create-IsStored cx q cs between n now r rows rows' e in
    let fits : answered cx q path_id row cs ≡ ok r =
      unfold answered in ground (arith, bound, read) in
    let refused : answered cx p path_id row cs ≡ err payload_mismatch =
      unfold answered in ground (arith, other-binds q p row bound other) in
    let there' : by_creation p.key_hash rows' ≡ some (path_id, row) =
      ap (λ k. by_creation k rows') same_key ∙ there in
    let found = by_creation-find q.key_hash path_id row rows' u there in
    let named : r.path_id ≡ path_id = read-path_id cx path_id row cs r read in
    (
      stored-create cx cs path_id row rows' q there again m later ∙ ap (λ x. (x, rows')) fits,
      stored-find cx cs path_id row rows' q there ∙ ap some_created fits,
      stored-create cx cs path_id row rows' p there' again m later ∙ ap (λ x. (x, rows')) refused,
      subst (λ i. get_sync cx i rows' cs ≡ ok (some r)) (sym named)
          (unfold get_sync in ground (arith, found, read)),
    )
