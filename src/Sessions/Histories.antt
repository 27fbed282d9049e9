-- ===== src/Sessions/Histories.antt =====
-- services/autonomous_sessions.py: the invariants over histories of calls.
use study_loop.Base.{
  Bool, Bool-cases, List, Option, String, [], and_left, and_right, arith, eq_refl, false, inl, inr,
  not, not-true, subst, true, ℕ, ◌&&◌, ◌∷◌, ◌≡◌,
}
use study_loop.Sessions.Claim.{claim_sync}
use study_loop.Sessions.History.{Call, mark_progress, run, step}
use study_loop.Sessions.Invariant.{Moves-check, Moves-spent, check_of, spent_of}
use study_loop.Sessions.Moves.{Moves}
use study_loop.Sessions.Owner.{mark_progress_sync}
use study_loop.Sessions.PrimaryKey.{step-Unique}
use study_loop.Sessions.Row.{Session, Settings}
use study_loop.Sessions.Steps.{inserts_row, step-Moves}
use study_loop.Sessions.Taking.{claim-took, took}
use study_loop.Table.{Table, find, find-put, update_where}
use study_loop.Table.Keys.{Unique}

-- No call of the history saves a pause under this conversation id.
abbrev pub never_inserts : String → List (ℕ × Call) → Bool
never_inserts cid [] = true
never_inserts cid ((now, c) ∷ cs) = not (inserts_row cid c) && never_inserts cid cs

-- After any history of calls, a row that passed the table's CHECK clause before, or that a call has
-- inserted, passes it: a pause carries no token, claim time or progress, and a claim has both.
pub run-check :
    (st : Settings) (t : Table Session) (cs : List (ℕ × Call)) (cid : String)
    → Unique t
    → check_of (find cid t) ≡ true
    → check_of (find cid (run st t cs)) ≡ true
unfolding run
run-check st t [] cid u h = h
run-check st t ((now, c) ∷ cs) cid u h =
    run-check st (step st t (now, c)) cs cid (step-Unique st t (now, c) u)
      (Moves-check (step-Moves st t now c cid u) h)

step-spent :
    (st : Settings) (t : Table Session) (now : ℕ) (c : Call) (cid : String)
    → Unique t
    → inserts_row cid c ≡ false
    → spent_of (find cid t) ≡ true
    → spent_of (find cid (step st t (now, c))) ≡ true
step-spent st t now c cid u no_ h =
    Moves-spent
      (subst (λ b. Moves st now b (find cid t) (find cid (step st t (now, c)))) no_
        (step-Moves st t now c cid u))
      h

run-spent :
    (st : Settings) (t : Table Session) (cs : List (ℕ × Call)) (cid : String)
    → Unique t
    → never_inserts cid cs ≡ true
    → spent_of (find cid t) ≡ true
    → spent_of (find cid (run st t cs)) ≡ true
unfolding run
run-spent st t [] cid u no_ h = h
run-spent st t ((now, c) ∷ cs) cid u no_ h =
    run-spent st (step st t (now, c)) cs cid (step-Unique st t (now, c) u) (and_right _ _ no_)
      (step-spent st t now c cid u (not-true _ (and_left _ _ no_)) h)

-- A spent row, or none, cannot be claimed.
spent-refuses :
    (st : Settings) (cid fingerprint token : String) (owner : Option String) (now : ℕ)
    (t : Table Session)
    → spent_of (find cid t) ≡ true
    → took (claim_sync st cid fingerprint token owner now t).0 ≡ false
spent-refuses st cid fingerprint token owner now t h =
    elim (Bool-cases (took (claim_sync st cid fingerprint token owner now t).0)) [
      | inl did ↦
          let (r, there, owned, wrote) = claim-took st cid fingerprint token owner now t did in
          ground (arith, h, there, wrote.1, wrote.2)
      | inr no_ ↦ no_
    ]

mark-spent :
    (st : Settings) (cid token : String) (now : ℕ) (t : Table Session)
    → (mark_progress_sync st cid token now t).0 ≡ true
    → spent_of (find cid (mark_progress_sync st cid token now t).1) ≡ true
unfolding mark_progress_sync update_where
mark-spent st cid token now t e = grind (arith, find-put, eq_refl)

-- Once `mark_progress` has succeeded, no history of calls, at any times and under any tokens, lets
-- anyone claim the conversation again, unless a new pause is saved under its id.
pub progress_never_replayed :
    (st : Settings) (t : Table Session) (cid token : String) (at : ℕ) (cs : List (ℕ × Call))
    (fingerprint token' : String) (owner : Option String) (now : ℕ)
    → Unique t
    → (mark_progress_sync st cid token at t).0 ≡ true
    → never_inserts cid cs ≡ true
    → took
        (claim_sync st cid fingerprint token' owner now
          (run st (mark_progress_sync st cid token at t).1 cs)).0
      ≡ false
unfolding step
progress_never_replayed st t cid token at cs fingerprint token' owner now u e no_ =
    spent-refuses st cid fingerprint token' owner now _ (
      run-spent st (mark_progress_sync st cid token at t).1 cs cid
        (step-Unique st t (at, mark_progress cid token) u) no_ (mark-spent st cid token at t e))
