-- ===== src/Sessions/Outcomes.antt =====
-- services/autonomous_sessions.py: the journal of finished continuations under repeated requests.
use study_loop.Base.{
  Bool, List, Option, String, [], arith, col_is, eq_refl, if◌then◌else◌, is_some, ltb, none, refl,
  some, true, ℕ, ◌&&◌, ◌+◌, ◌<◌, ◌∙◌, ◌∷◌, ◌≡◌,
}
use study_loop.Json.{Fields, JsonText}
use study_loop.Sessions.Claim.{
  SessionClaim, claim_outcome, claim_sync, completed_before, payload_mismatch, refused,
}
use study_loop.Sessions.History.{Call, finish, run, step}
use study_loop.Sessions.Moves.{
  Change, Move, Moves, cancels, change, claims, consumes, evicts, expires, fenced, finishes,
  inserts, progresses, refenced, renews, returned, stay, then_,
}
use study_loop.Sessions.Owner.{finish_sync, finished}
use study_loop.Sessions.PrimaryKey.{step-Unique}
use study_loop.Sessions.Row.{Session, Settings, completed_outcome_json, decode-completed, row_owned}
use study_loop.Sessions.Steps.{step-Moves}
use study_loop.Sessions.Taking.{claim_row-told, claim_sync-owned}
use study_loop.Table.{Table, find, find-put, update_where}
use study_loop.Table.Keys.{Unique}

Change-open : {st : Settings} {now : ℕ} {r s : Session} → Change st now r s → r.outcome_json ≡ none
Change-open (fenced r g) = ground arith
Change-open (returned r g) = ground arith
Change-open (claims r fingerprint token a b c d) = a
Change-open (refenced r fingerprint g d) = ground arith
Change-open (renews r token g) = ground arith
Change-open (progresses r token g) = ground arith
Change-open (cancels r token g p) = ground arith
Change-open (finishes r token outcome g) = ground arith

-- A row with an outcome that has not expired.
abbrev journaled : ℕ → Session → Bool
journaled now r = is_some r.outcome_json && ltb now r.expires_at

Move-journaled :
    {st : Settings} {now : ℕ} {b : Bool} {o p : Option Session} (r : Session)
    → Move st now b o p
    → o ≡ some r
    → journaled now r ≡ true
    → p ≡ some r
Move-journaled r (change {r = s} c) e h = ground (arith, Change-open c)
Move-journaled r (expires s a f) e h = ground arith
Move-journaled r (evicts s f) e h = ground arith
Move-journaled r (consumes s token g) e h = ground arith
Move-journaled r (inserts payload subject g) e h = ground arith

Moves-journaled :
    {st : Settings} {now : ℕ} {b : Bool} {o p : Option Session} (r : Session)
    → Moves st now b o p
    → o ≡ some r
    → journaled now r ≡ true
    → p ≡ some r
Moves-journaled r stay e h = e
Moves-journaled r (then_ ms m) e h = Move-journaled r m (Moves-journaled r ms e h) h

-- Every call of the history is made before the time.
abbrev pub all_before : ℕ → List (ℕ × Call) → Bool
all_before time [] = true
all_before time ((now, c) ∷ cs) = ltb now time && all_before time cs

-- An outcome stands unchanged until it expires, whatever is called.
pub run-journaled :
    (st : Settings) (t : Table Session) (cs : List (ℕ × Call)) (cid : String) (r : Session)
    → Unique t
    → find cid t ≡ some r
    → is_some r.outcome_json ≡ true
    → all_before r.expires_at cs ≡ true
    → find cid (run st t cs) ≡ some r
unfolding run
run-journaled st t [] cid r u there o early = there
run-journaled st t ((now, c) ∷ cs) cid r u there o early =
    run-journaled st (step st t (now, c)) cs cid r (step-Unique st t (now, c) u)
      (Moves-journaled r (step-Moves st t now c cid u) there (ground arith)) o (ground arith)

finish-find :
    (st : Settings) (cid token : String) (outcome : JsonText) (now : ℕ) (t : Table Session)
    (r : Session)
    → find cid t ≡ some r
    → (finish_sync st cid token outcome now t).0 ≡ true
    → find cid (finish_sync st cid token outcome now t).1 ≡ some (finished st outcome now r)
unfolding finish_sync update_where
finish-find st cid token outcome now t r there e = grind (arith, find-put, eq_refl)

-- A finished row has the owner that it had.
row_owned-finished :
    (st : Settings) (outcome : JsonText) (now : ℕ) (owner : Option String) (r : Session)
    → row_owned owner (finished st outcome now r) ≡ row_owned owner r
unfolding row_owned
row_owned-finished st outcome now none r = refl
row_owned-finished st outcome now (some o) r = refl

-- What a claim learns from a journaled response.
abbrev pub learns : Option String → String → Fields → SessionClaim
learns stored fingerprint response =
    if col_is stored fingerprint then completed_before response else refused payload_mismatch

claim-journaled :
    (st : Settings) (cid fingerprint token : String) (owner : Option String) (now : ℕ)
    (t : Table Session) (r : Session) (response : Fields)
    → find cid t ≡ some r
    → row_owned owner r ≡ true
    → r.outcome_json ≡ some (completed_outcome_json response)
    → ltb now r.expires_at ≡ true
    → claim_sync st cid fingerprint token owner now t
      ≡ (learns r.continue_fingerprint fingerprint response, t)
claim-journaled st cid fingerprint token owner now t r response there owned o early =
    claim_sync-owned st cid fingerprint token owner now t r there owned
    ∙ claim_row-told st cid fingerprint token now r t there (completed_outcome_json response) o
    ∙ unfold claim_outcome in ground (arith, early, decode-completed response)

-- After `finish` has journaled a response, and any history of calls before the journal expires, a
-- claim by an owner of the conversation learns the response if it makes the request that was
-- continued, and only that the payload differs if it makes another; neither writes anything.
pub finished_response_replays :
    (st : Settings) (t : Table Session) (cid token : String) (response : Fields) (at : ℕ)
    (r : Session) (cs : List (ℕ × Call)) (fingerprint token' : String) (owner : Option String)
    (now : ℕ)
    → Unique t
    → find cid t ≡ some r
    → (finish_sync st cid token (completed_outcome_json response) at t).0 ≡ true
    → row_owned owner r ≡ true
    → all_before (at + st.ttl_seconds) cs ≡ true
    → now < at + st.ttl_seconds
    → let u = run st (finish_sync st cid token (completed_outcome_json response) at t).1 cs in
      claim_sync st cid fingerprint token' owner now u
      ≡ (learns r.continue_fingerprint fingerprint response, u)
unfolding step
finished_response_replays st t cid token response at r cs fingerprint token' owner now u there e
      owned early soon =
    let outcome = completed_outcome_json response in
    claim-journaled st cid fingerprint token' owner now _ (finished st outcome at r) response
      (run-journaled st (finish_sync st cid token outcome at t).1 cs cid (finished st outcome at r)
        (step-Unique st t (at, finish cid token outcome) u)
        (finish-find st cid token outcome at t r there e) refl early)
      (row_owned-finished st outcome at owner r ∙ owned) refl (ground arith)
