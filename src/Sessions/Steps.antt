-- ===== src/Sessions/Steps.antt =====
-- services/autonomous_sessions.py: the calls that insert a pause, as moves of the rows, and all calls
-- together.
use study_loop.Base.{
  Bool, Bool-cases, Option, String, ap, arith, eq_iff, false, inl, inr, none, refl, some, str_eq,
  sym, true, ℕ, ◌∙◌, ◌≡◌, ◌≢◌,
}
use study_loop.Base.Result.{Result, err, ok}
use study_loop.Json.{JsonText}
use study_loop.Sessions.Calls.{
  cancel-Moves, consume-Moves, discard-Moves, finish-Moves, inspect-Moves, progress-Moves,
  renew-Moves, status-Moves,
}
use study_loop.Sessions.Capacity.{
  Error, commit, evictable, handed_over, handoff_sync, insert_pause, or_else, owners_differ,
  save_sync, subject_of,
}
use study_loop.Sessions.Claims.{claim-Moves}
use study_loop.Sessions.Eviction.{Inserts, insert_pause-Inserts}
use study_loop.Sessions.History.{
  Call, cancel, claim, consume, discard_paused, finish, handoff, inspect, mark_progress, renew,
  save, status, step,
}
use study_loop.Sessions.Moves.{Moves, evicts, finishes, from, inserts, join, one, same, stay, stays}
use study_loop.Sessions.Owner.{finishable, finished}
use study_loop.Sessions.Refines.{sweep_all-Moves, update-Moves}
use study_loop.Sessions.Row.{Session, Settings}
use study_loop.Sessions.Sweep.{purge_expired, reap_stale_claims}
use study_loop.Table.{Table, find, update_where}
use study_loop.Table.Keys.{Unique}

-- A pause that is inserted, seen from the row of any conversation.
module _ (st : Settings) (now : ℕ) (b : Bool) (cid : String) (payload : JsonText)
    (subject : Option String) (j : String) (t t' : Table Session)
    (did : Inserts st cid payload subject now t t') where
  thinned-Moves : (o : Option Session) → find j t ≡ o → cid ≢ j → Moves st now b o (find j t')
  thinned-Moves none e ne = stays (ground (arith, did.thins j ne, e))
  thinned-Moves (some r) e ne = elim (Bool-cases (evictable r)) [
    | inl free ↦ elim (did.thins j ne) [
      | inl kept ↦ stays (kept ∙ e)
      | inr gone_ ↦ same (one (evicts r free)) gone_
    ]
    | inr held ↦ stays (did.keeps j r e held)
  ]

  inserted-Moves : (str_eq cid j ≡ true → b ≡ true) → Moves st now b (find j t) (find j t')
  inserted-Moves allowed = elim (Bool-cases (str_eq cid j)) [
    | inl hit ↦
        let here = (eq_iff cid j).0 hit in
        from
          (same (one (inserts payload subject (allowed hit)))
            (sym (ap (λ k. find k t') here) ∙ did.stands))
          (sym (ap (λ k. find k t) here) ∙ did.was_absent)
    | inr miss ↦ thinned-Moves (find j t) refl (λ e. ground (arith, miss, eq_iff cid j, e))
  ]

-- A result and the table that it commits.
commit-Moves :
    (st : Settings) (now : ℕ) (b : Bool) (j : String) (t : Table Session)
    (r : Result Error (Table Session))
    → ((t' : Table Session) → r ≡ ok t' → Moves st now b (find j t) (find j t'))
    → Moves st now b (find j t) (find j (commit t r).1)
commit-Moves st now b j t (ok t') each = each t' refl
commit-Moves st now b j t (err e) each = stay

save-Moves :
    (st : Settings) (now : ℕ) (b : Bool) (cid : String) (payload : JsonText)
    (subject : Option String) (j : String) (t : Table Session)
    → Unique t
    → (str_eq cid j ≡ true → b ≡ true)
    → Moves st now b (find j t) (find j (save_sync st cid payload subject now t).1)
unfolding save_sync
save-Moves st now b cid payload subject j t u allowed = commit-Moves st now b j t _ (λ t' e.
    join (sweep_all-Moves st now b j t u) (
      inserted-Moves st now b cid payload subject j _ t'
        (insert_pause-Inserts st cid payload subject now _ t' e) allowed))

handed_over-Moves :
    (st : Settings) (now : ℕ) (b : Bool) (j : String) (t : Table Session)
    (r : Result Error (Table Session))
    → ((t' : Table Session) → r ≡ ok t' → Moves st now b (find j t) (find j t'))
    → Moves st now b (find j t) (find j (handed_over t r).1)
handed_over-Moves st now b j t (ok t') each = each t' refl
handed_over-Moves st now b j t (err e) each = stay

handoff-Moves :
    (st : Settings) (now : ℕ) (b : Bool) (cid token new_cid : String) (payload : JsonText)
    (subject : Option String) (outcome : JsonText) (j : String) (t : Table Session)
    → Unique t
    → (str_eq new_cid j ≡ true → b ≡ true)
    → Moves st now b
        (find j t)
        (find j (handoff_sync st cid token new_cid payload subject outcome now t).1)
unfolding handoff_sync
handoff-Moves st now b cid token new_cid payload subject outcome j t u allowed =
    let swept = purge_expired now (reap_stale_claims now t) in
    let upd = update_where cid (finishable token now) (finished st outcome now) swept in
    elim (Bool-cases (owners_differ (subject_of (find cid t)) subject)) [
      | inl differ ↦ stays (ground (arith, differ))
      | inr agree ↦ elim (Bool-cases upd.1) [
        | inl done ↦
            same
              (handed_over-Moves st now b j t
                (insert_pause st new_cid payload (or_else (subject_of (find cid t)) subject) now
                  upd.0)
                (λ t' e.
                  join
                    (join (sweep_all-Moves st now b j t u) (
                      update-Moves st now b cid j (finishable token now) swept
                        (finished st outcome now) (λ r _ held. finishes r token outcome held)))
                    (inserted-Moves st now b new_cid payload _ j _ t'
                      (insert_pause-Inserts st new_cid payload _ now _ t' e) allowed)))
              (ground (arith, agree, done))
        | inr stale ↦ same (sweep_all-Moves st now b j t u) (ground (arith, agree, stale))
      ]
    ]

-- The conversation whose row a call may insert.
abbrev pub inserts_row : String → Call → Bool
inserts_row j (save cid payload subject) = str_eq cid j
inserts_row j (handoff cid token new_cid payload subject outcome) = str_eq new_cid j
inserts_row j _ = false

-- Whatever the call, it moves the row of every conversation along the relation `Move`, and inserts
-- none but the row that it names: no row changes in any other way or under any other guard.
pub step-Moves :
    (st : Settings) (t : Table Session) (now : ℕ) (c : Call) (j : String)
    → Unique t
    → Moves st now (inserts_row j c) (find j t) (find j (step st t (now, c)))
unfolding step
step-Moves st t now (save cid payload subject) j u =
    save-Moves st now _ cid payload subject j t u (λ e. e)
step-Moves st t now (handoff cid token new_cid payload subject outcome) j u =
    handoff-Moves st now _ cid token new_cid payload subject outcome j t u (λ e. e)
step-Moves st t now (finish cid token outcome) j u = finish-Moves st now false cid token j t outcome
step-Moves st t now (claim cid fingerprint token owner) j u =
    claim-Moves st now false cid fingerprint token owner j t
step-Moves st t now (renew cid token) j u = renew-Moves st now false cid token j t
step-Moves st t now (mark_progress cid token) j u = progress-Moves st now false cid token j t
step-Moves st t now (cancel cid token) j u = cancel-Moves st now false cid token j t
step-Moves st t now (consume cid token) j u = consume-Moves st now false cid token j t
step-Moves st t now (discard_paused cid owner) j u = discard-Moves st now false cid j t owner
step-Moves st t now (inspect cid owner) j u = inspect-Moves st now false cid j t owner
step-Moves st t now (status cid) j u = status-Moves st now false cid j t
