-- ===== src/Sessions/Capacity.antt =====
-- services/autonomous_sessions.py: `_save_sync` and `_handoff_sync`, which insert a pause and keep the
-- number of open sessions within `max_count`.
use study_loop.Base.{
  Bool, List, Option, String, [], false, if◌then◌else◌, is_none, length, ltb, none, not, some,
  str_eq, take, true, ℕ, ◌&&◌, ◌+◌, ◌-◌, ◌==◌, ◌∷◌,
}
use study_loop.Base.Result.{Result, err, ok}
use study_loop.Json.{JsonText}
use study_loop.Sessions.Owner.{finishable, finished}
use study_loop.Sessions.Row.{Session, Settings, is_paused, paused, row_subject}
use study_loop.Sessions.Sweep.{purge_expired, reap_stale_claims}
use study_loop.Table.{Table, count_rows, delete_where, find, insert_or_ignore, update_where}
use study_loop.Table.Order.{Key, sort_keys}

-- SessionAlreadyExistsError, SessionCapacityError, and the ValueError of a changed owner.
pub data Error : Type 0 where
  already_exists all_in_flight owner_changed : Error

abbrev pub new_pause : Settings → JsonText → Option String → ℕ → Session
new_pause st payload subject now = record {
  payload_json = payload;
  subject_id = subject;
  state = paused;
  claim_token = none;
  progress_started = false;
  created_at = now;
  updated_at = now;
  expires_at = now + st.ttl_seconds;
  claimed_at = none;
  claim_expires_at = none;
  continue_fingerprint = none;
  outcome_json = none;
}

abbrev pub is_open : Session → Bool
is_open r = is_none r.outcome_json

abbrev pub evictable : Session → Bool
evictable r = is_paused r.state && is_none r.outcome_json

-- The evictable rows other than the protected one, in the order of the table.
unfoldable pub evictable_keys : String → Table Session → List Key
evictable_keys protected [] = []
evictable_keys protected ((cid, r) ∷ t) =
    let rest = evictable_keys protected t in
    if evictable r && not (str_eq cid protected) then (r.created_at, cid) ∷ rest else rest

unfoldable pub evict_all : List Key → Table Session → Table Session
evict_all [] t = t
evict_all ((created, cid) ∷ ks) t = evict_all ks (delete_where cid evictable t).0

unfoldable pub evict_oldest : ℕ → List Key → Table Session → Result Error (Table Session)
unfolding evict_all
evict_oldest excess candidates t =
    if ltb (length candidates) excess
    then err all_in_flight
    else ok (evict_all (take excess candidates) t)

-- `_enforce_capacity`. The difference is truncated, as an excess below 1 evicts nothing.
unfoldable pub enforce_capacity : Settings → String → Table Session → Result Error (Table Session)
unfolding sort_keys evictable_keys evict_oldest
enforce_capacity st protected t =
    let excess = count_rows is_open t - st.max_count in
    if excess == 0
    then ok t
    else evict_oldest excess (sort_keys st.id_before (evictable_keys protected t)) t

-- `_insert_paused_row` and what its callers do next: fail on a known id, or make room.
unfoldable pub insert_pause :
    Settings → String → JsonText → Option String → ℕ → Table Session → Result Error (Table Session)
insert_pause st cid payload subject now t =
    let (t', inserted) = insert_or_ignore cid (new_pause st payload subject now) t in
    if inserted then enforce_capacity st cid t' else err already_exists

-- A raised error rolls the whole transaction back, the sweeps included.
abbrev pub commit :
    Table Session → Result Error (Table Session) → Result Error (Unit {0}) × Table Session
commit t (ok t') = (ok tt, t')
commit t (err e) = (err e, t)

-- `_save_sync`.
unfoldable pub save_sync :
    Settings
    → String
    → JsonText
    → Option String
    → ℕ
    → Table Session
    → Result Error (Unit {0}) × Table Session
save_sync st cid payload subject now t =
    commit t (insert_pause st cid payload subject now (purge_expired now (reap_stale_claims now t)))

abbrev pub or_else : Option String → Option String → Option String
or_else none b = b
or_else (some s) b = some s

-- Both owners are known and differ.
abbrev pub owners_differ : Option String → Option String → Bool
owners_differ (some a) (some b) = not (str_eq a b)
owners_differ _ _ = false

abbrev pub subject_of : Option Session → Option String
subject_of none = none
subject_of (some r) = row_subject r

abbrev pub handed_over :
    Table Session → Result Error (Table Session) → Result Error Bool × Table Session
handed_over t (ok t') = (ok true, t')
handed_over t (err e) = (err e, t)

-- `_handoff_sync`: the outcome of the old conversation and the pause of the new one, in one
-- transaction. Where the token is stale it answers false, and the sweeps are committed.
unfoldable pub handoff_sync :
    Settings
    → String
    → String
    → String
    → JsonText
    → Option String
    → JsonText
    → ℕ
    → Table Session
    → Result Error Bool × Table Session
handoff_sync st cid token new_cid payload subject outcome now t =
    let source = subject_of (find cid t) in
    let swept = purge_expired now (reap_stale_claims now t) in
    let (t', finished_row) =
      update_where cid (finishable token now) (finished st outcome now) swept in
    if owners_differ source subject
    then (err owner_changed, t)
    else if finished_row
    then handed_over t (insert_pause st new_cid payload (or_else source subject) now t')
    else (ok false, swept)
