-- ===== src/Quizzes/Revisions.antt =====
-- services/quiz_sessions.py: a row before and after a call, by its revision.
use study_loop.Base.{
  Bool, Bool-cases, List, Option, Option-cases, String, [], arith, col_is, eq_iff, inl, inr, not,
  refl, some, str_eq, subst, suc, sym, take, ℕ, ◌∷◌, ◌≡◌, ◌⊎◌,
}
use study_loop.Base.Result.{Result-cases, ok}
use study_loop.Json.{JsonText}
use study_loop.Quizzes.Create.{
  create_new, create_sync, gone, insert_new, make_capacity, new_row, remove_all, started,
}
use study_loop.Quizzes.History.{Call, checkpoint, claim, complete, create, release, step}
use study_loop.Quizzes.Room.{candidates, capacity-cases, required, swept}
use study_loop.Quizzes.Row.{Codec, QuizRow, StoreSettings}
use study_loop.Quizzes.Starts.{create-absent, create-started}
use study_loop.Quizzes.Store.{
  checkpoint_sync, checkpointed, claim_sync, claimable, claimed_row, complete_sync, completed_row,
  release_sync, released, writable, write_payload,
}
use study_loop.Table.{Table, find, find-put, find-remove, put, remove, update_where}
use study_loop.Table.Keys.{Unique, find-keep_rows, find-update_where}
use study_loop.Table.Order.{Key}

-- Who and what the quiz is about stays; its payload stays with its revision, or the revision is the
-- next one.
abbrev pub Follows : QuizRow → QuizRow → Type 0
Follows r s =
    (s.immutable_hash ≡ r.immutable_hash)
    × (s.start_key_hash ≡ r.start_key_hash)
    × (s.start_request_hash ≡ r.start_request_hash)
    × (s.created_at ≡ r.created_at)
    × (((s.revision ≡ r.revision) × (s.payload_json ≡ r.payload_json) × (s.status ≡ r.status))
        ⊎ (s.revision ≡ suc r.revision))

Follows-refl : (r s : QuizRow) → r ≡ s → Follows r s
Follows-refl r s e = subst (Follows r) e (refl, refl, refl, refl, inl (refl, refl, refl))

some_injective {ℓ} : {A : Type ℓ} (a b : A) (o : Option A) → o ≡ some a → o ≡ some b → a ≡ b
some_injective a b o e f = ground (arith, e, f)

update-Follows :
    (sid k : String) (p : QuizRow → Bool) (f : QuizRow → QuizRow) (t : Table QuizRow)
    (r s : QuizRow)
    → ((x : QuizRow) → Follows x (f x))
    → find k t ≡ some r
    → find k (update_where sid p f t).0 ≡ some s
    → Follows r s
update-Follows sid k p f t r s steps there after = elim (Bool-cases (str_eq sid k)) [
  | inr miss ↦ Follows-refl r s (
      some_injective r s (find k t) there
        (ground (arith, miss, after, find-update_where sid k p f t)))
  | inl hit ↦
      let at : find sid t ≡ some r =
        subst (λ x. find x t ≡ some r) (sym ((eq_iff sid k).0 hit)) there in
      elim (Bool-cases (p r)) [
        | inl passes ↦
            let moved : f r ≡ s =
              ground (arith, hit, at, passes, after, find-update_where sid k p f t) in
            subst (Follows r) moved (steps r)
        | inr fails ↦
            Follows-refl r s (ground (arith, hit, at, fails, after, find-update_where sid k p f t))
      ]
]

-- A write that is read back is in the table, or rolled back.
claim-writes :
    (cx : Codec) (st : StoreSettings) (sid operation token : String) (now : ℕ) (t : Table QuizRow)
    → ((claim_sync cx st sid operation token now t).1 ≡ t)
      ⊎ ((claim_sync cx st sid operation token now t).1
          ≡ (update_where sid (claimable now) (claimed_row st operation token now) t).0)
unfolding claim_sync
claim-writes cx st sid operation token now t = grind arith

payload-writes :
    (cx : Codec) (sid token hash : String) (f : QuizRow → QuizRow) (now : ℕ) (t : Table QuizRow)
    → ((write_payload cx sid token hash f now t).1 ≡ t)
      ⊎ ((write_payload cx sid token hash f now t).1
          ≡ (update_where sid (writable token hash now) f t).0)
unfolding write_payload
payload-writes cx sid token hash f now t = grind arith

remove_all-thins :
    (k : String) (ks : List Key) (t : Table QuizRow) (s : QuizRow)
    → find k (remove_all ks t) ≡ some s
    → find k t ≡ some s
unfolding remove_all
remove_all-thins k [] t s h = h
remove_all-thins k ((a, i) ∷ ks) t s h =
    let before = remove_all-thins k ks (remove i t) s h in ground (arith, before, find-remove i k t)

make_capacity-thins :
    (st : StoreSettings) (now : ℕ) (t t' : Table QuizRow) (k : String) (s : QuizRow)
    → Unique t
    → make_capacity st now t ≡ ok t'
    → find k t' ≡ some s
    → find k t ≡ some s
make_capacity-thins st now t t' k s u e h =
    let kept : find k (swept now t) ≡ some s = elim (capacity-cases st now t t' e) [
      | inl (free, same) ↦ subst (λ x. find k x ≡ some s) (sym same) h
      | inr (enough, same) ↦
          remove_all-thins k (take (required st now t) (candidates st now t)) (swept now t) s
            (subst (λ x. find k x ≡ some s) (sym same) h)
    ] in
    ground (arith, kept, find-keep_rows k (λ r. not (gone now r)) t u)

insert-writes :
    (cx : Codec) (sid : String) (row : QuizRow) (now : ℕ) (t t' : Table QuizRow)
    → ((insert_new cx sid row now t t').1 ≡ t)
      ⊎ ((insert_new cx sid row now t t').1 ≡ put sid row t')
unfolding insert_new
insert-writes cx sid row now t t' = grind arith

new-Follows :
    (cx : Codec) (st : StoreSettings) (sid : String) (row : QuizRow) (now : ℕ) (t : Table QuizRow)
    (k : String) (r s : QuizRow)
    → Unique t
    → find k t ≡ some r
    → find k (create_new cx st sid row now t).1 ≡ some s
    → r ≡ s
unfolding create_new
new-Follows cx st sid row now t k r s u there after = elim (Option-cases (find sid t)) [
  | inr (x, taken) ↦ some_injective r s (find k t) there (ground (arith, taken, after))
  | inl absent ↦ elim (Result-cases (make_capacity st now t)) [
    | inr (x, raised) ↦ some_injective r s (find k t) there (ground (arith, absent, raised, after))
    | inl (t', room) ↦
        let same : (create_new cx st sid row now t).1 ≡ (insert_new cx sid row now t t').1 =
          ground (arith, absent, room) in
        let after' : find k (insert_new cx sid row now t t').1 ≡ some s =
          subst (λ x. find k x ≡ some s) same after in
        elim (insert-writes cx sid row now t t') [
          | inl kept ↦
              some_injective r s (find k t) there (subst (λ x. find k x ≡ some s) kept after')
          | inr put_ ↦
              let in_put : find k (put sid row t') ≡ some s =
                subst (λ x. find k x ≡ some s) put_ after' in
              let in_t' : find k t' ≡ some s =
                ground (arith, absent, there, in_put, eq_iff sid k, find-put sid k row t') in
              some_injective r s (find k t) there (make_capacity-thins st now t t' k s u room in_t')
        ]
  ]
]

module _ (cx : Codec) (st : StoreSettings) (now : ℕ) (t : Table QuizRow) (k : String)
    (r s : QuizRow) (there : find k t ≡ some r) where
  same-Follows : (t' : Table QuizRow) → t' ≡ t → find k t' ≡ some s → Follows r s
  same-Follows t' kept after =
      Follows-refl r s
        (some_injective r s (find k t) there (subst (λ x. find k x ≡ some s) kept after))

  written-Follows :
      (t' : Table QuizRow) (sid : String) (p : QuizRow → Bool) (f : QuizRow → QuizRow)
      → ((x : QuizRow) → Follows x (f x))
      → (t' ≡ t) ⊎ (t' ≡ (update_where sid p f t).0)
      → find k t' ≡ some s
      → Follows r s
  written-Follows t' sid p f steps (inl kept) after = same-Follows t' kept after
  written-Follows t' sid p f steps (inr moved) after =
      update-Follows sid k p f t r s steps there (subst (λ x. find k x ≡ some s) moved after)

  create-Follows :
      (sid status : String) (payload : JsonText) (hash : String)
      (key_hash request_hash : Option String)
      → Unique t
      → find k (create_sync cx st sid status payload hash key_hash request_hash now t).1 ≡ some s
      → Follows r s
  create-Follows sid status payload hash key_hash request_hash u after =
      elim (Option-cases (started key_hash t)) [
        | inr ((existing, row), known) ↦
            same-Follows _
              (ground (
                arith,
                create-started cx st sid status payload hash key_hash request_hash now t existing
                    row known,
              ))
              after
        | inl absent ↦ Follows-refl r s (
            new-Follows cx st sid (new_row st status payload hash key_hash request_hash now) now t k
              r s u there
              (subst (λ x. find k x.1 ≡ some s)
                (create-absent cx st sid status payload hash key_hash request_hash now t absent)
                after))
      ]

-- Whatever the call, a row that stands before and after it has kept its immutable hash, its start key,
-- its request and its creation time; and its payload and status are the same, unless its revision is
-- the next one.
pub step-Follows :
    (cx : Codec) (st : StoreSettings) (t : Table QuizRow) (now : ℕ) (c : Call) (k : String)
    (r s : QuizRow)
    → Unique t
    → find k t ≡ some r
    → find k (step cx st t (now, c)) ≡ some s
    → Follows r s
unfolding step checkpoint_sync complete_sync release_sync
step-Follows cx st t now (create sid status payload hash key_hash request_hash) k r s u there
      after =
    create-Follows cx st now t k r s there sid status payload hash key_hash request_hash u after
step-Follows cx st t now (claim sid operation token) k r s u there after =
    written-Follows cx st now t k r s there _ sid (claimable now)
      (claimed_row st operation token now) (λ x. (refl, refl, refl, refl, inl (refl, refl, refl)))
      (claim-writes cx st sid operation token now t) after
step-Follows cx st t now (checkpoint sid token status payload hash) k r s u there after =
    written-Follows cx st now t k r s there _ sid (writable token hash now)
      (checkpointed st status payload now) (λ x. (refl, refl, refl, refl, inr refl))
      (payload-writes cx sid token hash (checkpointed st status payload now) now t) after
step-Follows cx st t now (complete sid token status payload hash) k r s u there after =
    written-Follows cx st now t k r s there _ sid (writable token hash now)
      (completed_row st status payload now) (λ x. (refl, refl, refl, refl, inr refl))
      (payload-writes cx sid token hash (completed_row st status payload now) now t) after
step-Follows cx st t now (release sid token) k r s u there after =
    update-Follows sid k (λ x. col_is x.claim_token token) (released now) t r s
      (λ x. (refl, refl, refl, refl, inl (refl, refl, refl))) there after
