-- ===== src/Sessions/Owner.antt =====
-- services/autonomous_sessions.py: what the owner of a claim calls: `_renew_sync`,
-- `_mark_progress_sync`, `_cancel_sync`, `_consume_sync` and `_finish_sync`.
use study_loop.Base.{
  Bool, Option, String, col_is, is_none, is_some, ltb, max, none, not, some, true, ℕ, ◌&&◌, ◌+◌,
}
use study_loop.Json.{JsonText}
use study_loop.Sessions.Row.{
  Session, Settings, claimed_expires_at, in_flight, is_in_flight, live, tombstone_token,
}
use study_loop.Sessions.Sweep.{unclaim}
use study_loop.Table.{Table, delete_where, update_where}

-- The claim is live and its token is this one: what every WHERE clause below begins with.
abbrev pub holds_claim : String → ℕ → Session → Bool
holds_claim token now r =
    is_in_flight r.state
    && (col_is r.claim_token token
        && (live r.claim_expires_at now && (ltb now r.expires_at && is_none r.outcome_json)))

abbrev or_zero : Option ℕ → ℕ
or_zero none = 0
or_zero (some n) = n

abbrev pub renewed : Settings → ℕ → Session → Session
renewed st now r = record r {
  claim_expires_at = some (max (or_zero r.claim_expires_at) (now + st.operation_lease_seconds));
  updated_at = now;
  expires_at = max r.expires_at (claimed_expires_at st now);
}

-- `_renew_sync`: the new lease is the later of the row's and a full one.
unfoldable pub renew_sync : Settings → String → String → ℕ → Table Session → Bool × Table Session
renew_sync st cid token now t =
    let (t', updated) = update_where cid (holds_claim token now) (renewed st now) t in (updated, t')

abbrev pub progressed : Settings → ℕ → Session → Session
progressed st now r = record r {
  progress_started = true;
  claim_expires_at = some (now + st.operation_lease_seconds);
  updated_at = now;
  expires_at = claimed_expires_at st now;
}

-- `_mark_progress_sync`.
unfoldable pub mark_progress_sync :
    Settings → String → String → ℕ → Table Session → Bool × Table Session
mark_progress_sync st cid token now t =
    let (t', updated) = update_where cid (holds_claim token now) (progressed st now) t in
    (updated, t')

abbrev pub cancelled : ℕ → Session → Session
cancelled now r = record (unclaim now r) { continue_fingerprint = none }

-- `_cancel_sync`: only a clean claim goes back to its pause.
unfoldable pub cancel_sync : String → String → ℕ → Table Session → Bool × Table Session
cancel_sync cid token now t =
    let (t', updated) =
      update_where cid (λ r. holds_claim token now r && not r.progress_started) (cancelled now) t in
    (updated, t')

-- `_consume_sync`.
unfoldable pub consume_sync : String → String → ℕ → Table Session → Bool × Table Session
consume_sync cid token now t =
    let (t', deleted) = delete_where cid (holds_claim token now) t in (deleted, t')

abbrev pub finished : Settings → JsonText → ℕ → Session → Session
finished st outcome now r = record r {
  state = in_flight;
  claim_token = some tombstone_token;
  claimed_at = some now;
  claim_expires_at = none;
  progress_started = true;
  outcome_json = some outcome;
  updated_at = now;
  expires_at = now + st.ttl_seconds;
}

-- The WHERE clause of `_finish_sync` and `_handoff_sync`.
abbrev pub finishable : String → ℕ → Session → Bool
finishable token now r = holds_claim token now r && is_some r.continue_fingerprint

-- `_finish_sync`.
unfoldable pub finish_sync :
    Settings → String → String → JsonText → ℕ → Table Session → Bool × Table Session
finish_sync st cid token outcome now t =
    let (t', updated) = update_where cid (finishable token now) (finished st outcome now) t in
    (updated, t')
