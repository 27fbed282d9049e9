-- ===== src/Sessions/Taking.antt =====
-- services/autonomous_sessions.py: what a successful `_claim_sync` finds in the row and writes.
use study_loop.Base.{
  Bool, Bool-cases, Option, Option-cases, String, arith, false, inl, inr, none, not, refl, some,
  true, ℕ, ◌||◌, ◌≡◌,
}
use study_loop.Json.{JsonText}
use study_loop.Sessions.Claim.{
  SessionClaim, bound_elsewhere, claim_by_state, claim_in_flight, claim_outcome, claim_paused,
  claim_row, claim_sync, claimed, claimed_invalid, missing, refused, taken,
}
use study_loop.Sessions.Row.{
  PhysicalState, Session, Settings, in_flight, is_paused, live, paused, row_owned,
}
use study_loop.Table.{Table, find, put, update_where}

-- The two answers of a successful claim.
abbrev pub took : SessionClaim → Bool
took (claimed token payload) = true
took (claimed_invalid token) = true
took _ = false

-- What a successful claim finds in the row, and what it writes.
abbrev pub Took :
    Settings → String → String → String → ℕ → Session → Table Session → Table Session → Type 0
Took st cid fingerprint token now r t t' =
    (t' ≡ put cid (taken st fingerprint token now r) t)
    × (r.outcome_json ≡ none)
    × ((is_paused r.state || not r.progress_started) ≡ true)
    × ((is_paused r.state || not (live r.claim_expires_at now)) ≡ true)
    × (bound_elsewhere r fingerprint ≡ false)

module _ (st : Settings) (cid fingerprint token : String) (now : ℕ) (r : Session)
    (t : Table Session) (there : find cid t ≡ some r) where
  paused-took :
      r.state ≡ paused
      → r.outcome_json ≡ none
      → took (claim_paused st cid fingerprint token now r t).0 ≡ true
      → Took st cid fingerprint token now r t (claim_paused st cid fingerprint token now r t).1
  unfolding claim_paused update_where
  paused-took state open_ h = grind arith

  in_flight-took :
      r.state ≡ in_flight
      → r.outcome_json ≡ none
      → took (claim_in_flight st cid fingerprint token now r t).0 ≡ true
      → Took st cid fingerprint token now r t (claim_in_flight st cid fingerprint token now r t).1
  unfolding claim_in_flight update_where
  in_flight-took state open_ h = grind arith

  outcome-took :
      (outcome : JsonText) → took (claim_outcome cid fingerprint now r outcome t).0 ≡ true → ⊥
  unfolding claim_outcome
  outcome-took outcome h = grind arith

  pub claim_row-told :
      (outcome : JsonText)
      → r.outcome_json ≡ some outcome
      → claim_row st cid fingerprint token now r t ≡ claim_outcome cid fingerprint now r outcome t
  unfolding claim_row
  claim_row-told outcome e = ground arith

  pub claim_row-open :
      r.outcome_json ≡ none
      → claim_row st cid fingerprint token now r t
        ≡ claim_by_state r.state st cid fingerprint token now r t
  unfolding claim_row
  claim_row-open e = ground arith

  open-took :
      (s : PhysicalState)
      → r.state ≡ s
      → r.outcome_json ≡ none
      → took (claim_by_state s st cid fingerprint token now r t).0 ≡ true
      → Took st cid fingerprint token now r t (claim_by_state s st cid fingerprint token now r t).1
  open-took paused state open_ h = paused-took state open_ h
  open-took in_flight state open_ h = in_flight-took state open_ h

  row-took :
      took (claim_row st cid fingerprint token now r t).0 ≡ true
      → Took st cid fingerprint token now r t (claim_row st cid fingerprint token now r t).1
  row-took h = elim (Option-cases r.outcome_json) [
    | inl open_ ↦
        rw (claim_row-open open_) (open-took r.state refl open_ (rw (← claim_row-open open_) h))
    | inr (outcome, e) ↦ absurd (outcome-took outcome (rw (← claim_row-told outcome e) h))
  ]

module _ (st : Settings) (cid fingerprint token : String) (owner : Option String) (now : ℕ)
    (t : Table Session) where
  pub claim_sync-absent :
      find cid t ≡ none → claim_sync st cid fingerprint token owner now t ≡ (refused missing, t)
  unfolding claim_sync
  claim_sync-absent absent = ground arith

  pub claim_sync-owned :
      (r : Session)
      → find cid t ≡ some r
      → row_owned owner r ≡ true
      → claim_sync st cid fingerprint token owner now t ≡ claim_row st cid fingerprint token now r t
  claim_sync-owned r there owned = unfold claim_sync in ground (arith, there, owned)

  pub claim_sync-foreign :
      (r : Session)
      → find cid t ≡ some r
      → row_owned owner r ≡ false
      → claim_sync st cid fingerprint token owner now t ≡ (refused missing, t)
  claim_sync-foreign r there foreign = unfold claim_sync in ground (arith, there, foreign)

-- A claim succeeds only on a row with no outcome, that is paused, or whose lease has run out with
-- no progress made, and that no other request is bound to; and it writes the claimed row alone.
pub claim-took :
    (st : Settings) (cid fingerprint token : String) (owner : Option String) (now : ℕ)
    (t : Table Session)
    → took (claim_sync st cid fingerprint token owner now t).0 ≡ true
    → (r : Session) × (find cid t ≡ some r)
      × (row_owned owner r ≡ true)
      × (Took st cid fingerprint token now r t (claim_sync st cid fingerprint token owner now t).1)
claim-took st cid fingerprint token owner now t h = elim (Option-cases (find cid t)) [
  | inl absent ↦ cc (h, claim_sync-absent st cid fingerprint token owner now t absent)
  | inr (r, there) ↦ elim (Bool-cases (row_owned owner r)) [
    | inl owned ↦
        let equal : claim_sync st cid fingerprint token owner now t
            ≡ claim_row st cid fingerprint token now r t =
          claim_sync-owned st cid fingerprint token owner now t r there owned in
        (
          r,
          there,
          owned,
          rw equal (row-took st cid fingerprint token now r t there (rw (← equal) h)),
        )
    | inr foreign ↦ cc (h, claim_sync-foreign st cid fingerprint token owner now t r there foreign)
  ]
]
