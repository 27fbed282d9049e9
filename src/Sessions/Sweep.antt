-- ===== src/Sessions/Sweep.antt =====
-- services/autonomous_sessions.py: the sweeps over stale claims and expired rows, for the whole
-- table (`_reap_stale_claims`, `_purge_expired`) and for one row (`_reap_stale_target`,
-- `_purge_expired_target`).
use study_loop.Base.{
  Bool, String, if◌then◌else◌, is_none, is_some, leb, ltb, none, not, some, true, ℕ, ◌&&◌, ◌||◌,
}
use study_loop.Sessions.Row.{
  Session, ambiguous_outcome_json, due, in_flight, is_in_flight, is_paused, paused, tombstone_token,
}
use study_loop.Table.{Table, delete_where, keep_rows, map_rows, update_where}

-- The WHERE clauses of the two UPDATEs of a reap.
abbrev pub stale_dirty : ℕ → Session → Bool
stale_dirty now r =
    is_in_flight r.state
    && (due r.claim_expires_at now
        && (ltb now r.expires_at
            && ((r.progress_started || is_none r.continue_fingerprint) && is_none r.outcome_json)))

abbrev pub stale_clean : ℕ → Session → Bool
stale_clean now r =
    is_in_flight r.state
    && (due r.claim_expires_at now
        && (ltb now r.expires_at
            && (not r.progress_started
                && (is_some r.continue_fingerprint && is_none r.outcome_json))))

-- A claim that may have had an effect becomes an ambiguous tombstone.
abbrev pub fence : ℕ → Session → Session
fence now r = record r {
  state = in_flight;
  claim_token = some tombstone_token;
  claimed_at = some now;
  claim_expires_at = none;
  progress_started = true;
  outcome_json = some ambiguous_outcome_json;
  updated_at = now;
}

-- A clean claim returns to its pause, and stays bound to the request that made it.
abbrev pub unclaim : ℕ → Session → Session
unclaim now r = record r {
  state = paused;
  claim_token = none;
  claimed_at = none;
  claim_expires_at = none;
  updated_at = now;
}

unfoldable pub reap_dirty : ℕ → Session → Session
reap_dirty now r = if stale_dirty now r then fence now r else r

unfoldable pub reap_clean : ℕ → Session → Session
reap_clean now r = if stale_clean now r then unclaim now r else r

-- Both UPDATEs, in their order.
unfoldable pub reap_row : ℕ → Session → Session
unfolding reap_dirty reap_clean
reap_row now r = reap_clean now (reap_dirty now r)

-- `expires_at <= now AND (state = 'paused' OR claim_expires_at IS NULL OR claim_expires_at <= now)`.
abbrev pub purgeable : ℕ → Session → Bool
purgeable now r =
    leb r.expires_at now
    && (is_paused r.state || (is_none r.claim_expires_at || due r.claim_expires_at now))

unfoldable pub reap_stale_claims : ℕ → Table Session → Table Session
unfolding reap_row
reap_stale_claims now t = map_rows (reap_row now) t

unfoldable pub purge_expired : ℕ → Table Session → Table Session
purge_expired now t = keep_rows (λ r. not (purgeable now r)) t

unfoldable pub reap_stale_target : String → ℕ → Table Session → Table Session
unfolding reap_dirty reap_clean
reap_stale_target cid now t =
    let (t', fenced) = update_where cid (stale_dirty now) (fence now) t in
    (update_where cid (stale_clean now) (unclaim now) t').0

unfoldable pub purge_expired_target : String → ℕ → Table Session → Table Session
purge_expired_target cid now t = (delete_where cid (purgeable now) t).0

-- What `_inspect_sync`, `_status_sync` and `_discard_paused_sync` do to the row before they read it.
unfoldable pub sweep_target : String → ℕ → Table Session → Table Session
sweep_target cid now t = purge_expired_target cid now (reap_stale_target cid now t)
