-- ===== src/Sessions/Fencing.antt =====
-- services/autonomous_sessions.py: who may act on a claimed session, by the token of its row.
use study_loop.Base.{
  Bool, Option, String, arith, col_is, eq_iff, eq_refl, false, is_none, is_some, none, some, true,
  ℕ, ◌&&◌, ◌+◌, ◌<◌, ◌≡◌, ◌≢◌,
}
use study_loop.Json.{JsonText}
use study_loop.Sessions.Claim.{claim_sync}
use study_loop.Sessions.Owner.{
  cancel_sync, consume_sync, finish_sync, mark_progress_sync, renew_sync,
}
use study_loop.Sessions.Row.{Session, Settings, is_in_flight, live}
use study_loop.Sessions.Taking.{Took, claim-took, took}
use study_loop.Table.{Table, delete_where, find, find-put, update_where}

-- The row's claim token is this one.
abbrev pub owned_by : String → String → Table Session → Bool
owned_by cid token t = elim (find cid t) [ none ↦ false | some r ↦ col_is r.claim_token token ]

-- A claim that nobody else may take before the time.
abbrev pub leased_until : String → ℕ → Table Session → Bool
leased_until cid time t = elim (find cid t) [
  | none ↦ false
  | some r ↦
      is_in_flight r.state
      && (live r.claim_expires_at time
          && (is_none r.outcome_json && is_some r.continue_fingerprint))
]

-- A call with a token that is not the row's answers false, and changes nothing.
pub stale_token_fenced :
    (st : Settings) (cid token : String) (outcome : JsonText) (now : ℕ) (t : Table Session)
    → owned_by cid token t ≡ false
    → (renew_sync st cid token now t ≡ (false, t))
      × (mark_progress_sync st cid token now t ≡ (false, t))
      × (cancel_sync cid token now t ≡ (false, t))
      × (consume_sync cid token now t ≡ (false, t))
      × (finish_sync st cid token outcome now t ≡ (false, t))
unfolding renew_sync mark_progress_sync cancel_sync consume_sync finish_sync update_where
    delete_where
stale_token_fenced st cid token outcome now t h =
    (grind arith, grind arith, grind arith, grind arith, grind arith)

owned_by_one :
    (cid a b : String) (t : Table Session)
    → owned_by cid a t ≡ true
    → b ≢ a
    → owned_by cid b t ≡ false
owned_by_one cid a b t h ne = grind (arith, eq_iff)

leased-refuses :
    (st : Settings) (cid fingerprint token : String) (owner : Option String) (now : ℕ)
    (t : Table Session)
    → leased_until cid now t ≡ true
    → (took (claim_sync st cid fingerprint token owner now t).0 ≡ false)
      × ((claim_sync st cid fingerprint token owner now t).1 ≡ t)
unfolding claim_sync
leased-refuses st cid fingerprint token owner now t h = (grind arith, grind arith)

taken-leased_until :
    (st : Settings) (cid fingerprint token : String) (now time : ℕ) (r : Session)
    (t t' : Table Session)
    → Took st cid fingerprint token now r t t'
    → time < now + st.operation_lease_seconds
    → (leased_until cid time t' ≡ true) × (owned_by cid token t' ≡ true)
taken-leased_until st cid fingerprint token now time r t t' w before =
    (grind (arith, find-put, eq_refl), grind (arith, find-put, eq_refl))

-- From a claim until its lease runs out, the token of the claim owns the row, every claim of the
-- conversation is refused and changes nothing, and every other token is fenced off.
pub claim_is_exclusive :
    (st : Settings) (cid fingerprint token : String) (owner : Option String) (now : ℕ)
    (t : Table Session) (fingerprint' token' : String) (owner' : Option String) (outcome : JsonText)
    (time : ℕ)
    → took (claim_sync st cid fingerprint token owner now t).0 ≡ true
    → time < now + st.operation_lease_seconds
    → token' ≢ token
    → let t' = (claim_sync st cid fingerprint token owner now t).1 in
      (took (claim_sync st cid fingerprint' token' owner' time t').0 ≡ false)
      × ((claim_sync st cid fingerprint' token' owner' time t').1 ≡ t')
      × (renew_sync st cid token' time t' ≡ (false, t'))
      × (mark_progress_sync st cid token' time t' ≡ (false, t'))
      × (cancel_sync cid token' time t' ≡ (false, t'))
      × (consume_sync cid token' time t' ≡ (false, t'))
      × (finish_sync st cid token' outcome time t' ≡ (false, t'))
claim_is_exclusive st cid fingerprint token owner now t fingerprint' token' owner' outcome time h
      before ne =
    let (r, there, owned, wrote) = claim-took st cid fingerprint token owner now t h in
    let (leased, mine) = taken-leased_until st cid fingerprint token now time r t _ wrote before in
    let (refused_, kept) = leased-refuses st cid fingerprint' token' owner' time _ leased in
    let fenced =
      stale_token_fenced st cid token' outcome time _ (owned_by_one cid token token' _ mine ne) in
    (refused_, kept, fenced.0, fenced.1, fenced.2, fenced.3, fenced.4)
