-- ===== src/Sessions/Claim.antt =====
-- services/autonomous_sessions.py: `_claim_sync`, by which one continuation takes a pause, takes a
-- clean stale claim over, or learns the outcome of an earlier one.
use study_loop.Base.{
  Bool, Option, String, col_is, false, if◌then◌else◌, is_none, is_some, leb, none, not, some, true,
  ℕ, ◌&&◌, ◌+◌, ◌||◌,
}
use study_loop.Json.{Fields, JsonText, holds, obj}
use study_loop.Sessions.Row.{
  Outcome, PhysicalState, Session, Settings, ambiguous, claimed_expires_at, completed,
  decode_outcome, due, in_flight, is_in_flight, is_paused, live, paused, row_owned, same_text,
}
use study_loop.Sessions.Sweep.{fence}
use study_loop.Table.{Table, delete_where, find, remove, update_where}

pub data Refusal : Type 0 where
  missing expired payload_mismatch in_progress unclear : Refusal

-- SessionClaim: a refusal with its reason, the outcome of a completed continuation, or a claim,
-- whose payload may not be the JSON object that the loop needs.
pub data SessionClaim : Type 0 where
  refused : Refusal → SessionClaim
  completed_before : Fields → SessionClaim
  claimed : String → Fields → SessionClaim
  claimed_invalid : String → SessionClaim

abbrev pub payload_claim : String → JsonText → SessionClaim
payload_claim token (holds (obj fs)) = claimed token fs
payload_claim token _ = claimed_invalid token

-- What the claim writes into the row.
abbrev pub taken : Settings → String → String → ℕ → Session → Session
taken st fingerprint token now r = record r {
  state = in_flight;
  claim_token = some token;
  claimed_at = some now;
  claim_expires_at = some (now + st.operation_lease_seconds);
  continue_fingerprint = some fingerprint;
  updated_at = now;
  expires_at = claimed_expires_at st now;
  progress_started = false;
}

abbrev pub free_pause : Session → Bool
free_pause r = is_paused r.state && is_none r.outcome_json

abbrev pub free_stale : Option String → ℕ → Session → Bool
free_stale current now r =
    is_in_flight r.state
    && (same_text r.claim_token current
        && ((is_none r.claim_expires_at || due r.claim_expires_at now)
            && (not r.progress_started && is_none r.outcome_json)))

-- The guarded UPDATE that every successful claim ends in.
unfoldable pub take_claim :
    Settings
    → String
    → String
    → String
    → ℕ
    → Session
    → (Session → Bool)
    → Table Session
    → SessionClaim × Table Session
take_claim st cid fingerprint token now row free t =
    let (t', updated) = update_where cid free (taken st fingerprint token now) t in
    if updated then (payload_claim token row.payload_json, t') else (refused in_progress, t)

abbrev pub coalesce : Option String → String → Option String
coalesce none t = some t
coalesce (some s) t = some s

abbrev pub fence_bound : String → ℕ → Session → Session
fence_bound fingerprint now r = record (fence now r) {
  continue_fingerprint = coalesce r.continue_fingerprint fingerprint;
}

abbrev pub still_stale : Option String → ℕ → Session → Bool
still_stale current now r =
    is_in_flight r.state
    && (same_text r.claim_token current
        && ((is_none r.claim_expires_at || due r.claim_expires_at now) && is_none r.outcome_json))

-- A stale claim that has made progress is fenced for good.
unfoldable pub fence_stale :
    String → String → ℕ → Session → Table Session → SessionClaim × Table Session
fence_stale cid fingerprint now row t =
    let (t', updated) =
      update_where cid (still_stale row.claim_token now) (fence_bound fingerprint now) t in
    if updated then (refused unclear, t') else (refused in_progress, t)

-- The stored request is another one than the caller's.
abbrev pub bound_elsewhere : Session → String → Bool
bound_elsewhere r fingerprint =
    is_some r.continue_fingerprint && not (col_is r.continue_fingerprint fingerprint)

abbrev told : Outcome → SessionClaim
told (completed response) = completed_before response
told ambiguous = refused unclear

abbrev is_ambiguous : Outcome → Bool
is_ambiguous (completed response) = false
is_ambiguous ambiguous = true

unfoldable pub claim_outcome :
    String → String → ℕ → Session → JsonText → Table Session → SessionClaim × Table Session
unfolding decode_outcome
claim_outcome cid fingerprint now row outcome t =
    if leb row.expires_at now
    then (refused expired, remove cid t)
    else if is_ambiguous (decode_outcome outcome) && is_none row.continue_fingerprint
    then (refused unclear, t)
    else if col_is row.continue_fingerprint fingerprint
    then (told (decode_outcome outcome), t)
    else (refused payload_mismatch, t)

unfoldable pub claim_paused :
    Settings → String → String → String → ℕ → Session → Table Session → SessionClaim × Table Session
unfolding take_claim
claim_paused st cid fingerprint token now row t =
    if bound_elsewhere row fingerprint
    then (refused payload_mismatch, t)
    else if leb row.expires_at now
    then (refused expired, remove cid t)
    else take_claim st cid fingerprint token now row free_pause t

unfoldable pub claim_in_flight :
    Settings → String → String → String → ℕ → Session → Table Session → SessionClaim × Table Session
unfolding take_claim fence_stale
claim_in_flight st cid fingerprint token now row t =
    if bound_elsewhere row fingerprint
    then (refused payload_mismatch, t)
    else if live row.claim_expires_at now
    then (refused in_progress, t)
    else if leb row.expires_at now
    then (
      refused expired,
      (delete_where cid (λ r. is_in_flight r.state && same_text r.claim_token row.claim_token) t).0,
    )
    else if row.progress_started || is_none row.continue_fingerprint
    then fence_stale cid fingerprint now row t
    else take_claim st cid fingerprint token now row (free_stale row.claim_token now) t

abbrev pub claim_by_state :
    PhysicalState
    → Settings
    → String
    → String
    → String
    → ℕ
    → Session
    → Table Session
    → SessionClaim × Table Session
claim_by_state paused = claim_paused
claim_by_state in_flight = claim_in_flight

-- `_claim_sync` once the row has been read and belongs to the caller.
unfoldable pub claim_row :
    Settings → String → String → String → ℕ → Session → Table Session → SessionClaim × Table Session
unfolding claim_outcome claim_paused claim_in_flight
claim_row st cid fingerprint token now row t = elim row.outcome_json [
  | some outcome ↦ claim_outcome cid fingerprint now row outcome t
  | none ↦ claim_by_state row.state st cid fingerprint token now row t
]

-- `_claim_sync`.
unfoldable pub claim_sync :
    Settings
    → String
    → String
    → String
    → Option String
    → ℕ
    → Table Session
    → SessionClaim × Table Session
unfolding claim_row row_owned
claim_sync st cid fingerprint token owner now t = elim (find cid t) [
  | none ↦ (refused missing, t)
  | some row ↦
      if row_owned owner row
      then claim_row st cid fingerprint token now row t
      else (refused missing, t)
]
