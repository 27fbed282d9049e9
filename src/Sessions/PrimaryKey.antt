-- ===== src/Sessions/PrimaryKey.antt =====
-- services/autonomous_sessions.py: the calls and the primary key of the table.
use study_loop.Base.{
  Bool-cases, List, Option, String, [], arith, inl, inr, is_none, refl, ℕ, ◌&&◌, ◌∷◌, ◌≡◌,
}
use study_loop.Base.Result.{Result, err, ok}
use study_loop.Json.{JsonText}
use study_loop.Sessions.Capacity.{
  Error, commit, evict_all, evictable, handed_over, handoff_sync, insert_pause, new_pause, or_else,
  owners_differ, save_sync, subject_of,
}
use study_loop.Sessions.Claim.{claim_sync}
use study_loop.Sessions.Claims.{ClaimWrites, claim-writes}
use study_loop.Sessions.Eviction.{enforce-evicts, insert_pause-enforces}
use study_loop.Sessions.History.{
  Call, cancel, claim, consume, discard_paused, finish, handoff, inspect, mark_progress, renew,
  save, status, step,
}
use study_loop.Sessions.Owner.{
  cancel_sync, consume_sync, finish_sync, finishable, finished, mark_progress_sync, renew_sync,
}
use study_loop.Sessions.Row.{Session, Settings, is_paused}
use study_loop.Sessions.Sweep.{
  fence, purge_expired, purge_expired_target, purgeable, reap_row, reap_stale_claims,
  reap_stale_target, stale_clean, stale_dirty, sweep_target, unclaim,
}
use study_loop.Sessions.Views.{
  discard_paused_sync, discard_row, discard_swept, inspect_sync, status_sync,
}
use study_loop.Table.{Table, find, put, update_where}
use study_loop.Table.Keys.{
  Unique, Unique-delete_where, Unique-keep_rows, Unique-map_rows, Unique-put, Unique-remove,
  Unique-update_where,
}
use study_loop.Table.Order.{Key}

Unique-evict_all : (ks : List Key) (t : Table Session) → Unique t → Unique (evict_all ks t)
unfolding evict_all
Unique-evict_all [] t u = u
Unique-evict_all ((created, cid) ∷ ks) t u =
    Unique-evict_all ks _ (Unique-delete_where cid evictable t u)

Unique-insert_pause :
    (st : Settings) (cid : String) (payload : JsonText) (subject : Option String) (now : ℕ)
    (t t' : Table Session)
    → Unique t
    → insert_pause st cid payload subject now t ≡ ok t'
    → Unique t'
Unique-insert_pause st cid payload subject now t t' u e =
    let (absent, room) = insert_pause-enforces st cid payload subject now t t' e in
    let pause = new_pause st payload subject now in
    let v = Unique-put cid pause t u in
    elim (enforce-evicts st cid (put cid pause t) t' room) [
      | inl kept ↦ rw kept v
      | inr evicted ↦ rw evicted (Unique-evict_all _ _ v)
    ]

pub Unique-sweep :
    (now : ℕ) (t : Table Session) → Unique t → Unique (purge_expired now (reap_stale_claims now t))
unfolding purge_expired reap_stale_claims
Unique-sweep now t u = Unique-keep_rows _ _ (Unique-map_rows (reap_row now) t u)

Unique-target :
    (cid : String) (now : ℕ) (t : Table Session) → Unique t → Unique (sweep_target cid now t)
unfolding sweep_target reap_stale_target purge_expired_target
Unique-target cid now t u = Unique-delete_where cid (purgeable now) _ (
    Unique-update_where cid (stale_clean now) (unclaim now) _
      (Unique-update_where cid (stale_dirty now) (fence now) t u))

Unique-writes :
    (st : Settings) (cid fingerprint token : String) (now : ℕ) (r : Session) (t t' : Table Session)
    → Unique t
    → ClaimWrites st cid fingerprint token now r t t'
    → Unique t'
Unique-writes st cid fingerprint token now r t t' u (inl kept) = rw kept u
Unique-writes st cid fingerprint token now r t t' u (inr (inl (w, a, b))) =
    rw w (Unique-remove cid t u)
Unique-writes st cid fingerprint token now r t t' u (inr (inr (inl (w, a, b, c, d)))) =
    rw w (Unique-put cid _ t u)
Unique-writes st cid fingerprint token now r t t' u (inr (inr (inr (w, a, b)))) =
    rw w (Unique-put cid _ t u)

Unique-claim :
    (st : Settings) (cid fingerprint token : String) (owner : Option String) (now : ℕ)
    (t : Table Session)
    → Unique t
    → Unique (claim_sync st cid fingerprint token owner now t).1
Unique-claim st cid fingerprint token owner now t u =
    elim (claim-writes st cid fingerprint token owner now t) [
      | inl kept ↦ rw kept u
      | inr (r, there, w) ↦ Unique-writes st cid fingerprint token now r t _ u w
    ]

Unique-discard :
    (cid : String) (owner : Option String) (now : ℕ) (t : Table Session)
    → Unique t
    → Unique (discard_paused_sync cid owner now t).1
unfolding discard_paused_sync discard_swept discard_row
Unique-discard cid owner now t u = ground (
  arith,
  Unique-target cid now t u,
  Unique-delete_where cid (λ r. is_paused r.state && is_none r.outcome_json)
      (sweep_target cid now t) (Unique-target cid now t u),
)

Unique-inspect :
    (cid : String) (owner : Option String) (now : ℕ) (t : Table Session)
    → Unique t
    → Unique (inspect_sync cid owner now t).1
unfolding inspect_sync
Unique-inspect cid owner now t u = ground (arith, Unique-target cid now t u)

Unique-commit :
    (t : Table Session) (r : Result Error (Table Session))
    → Unique t
    → ((t' : Table Session) → r ≡ ok t' → Unique t')
    → Unique (commit t r).1
Unique-commit t (ok t') u each = each t' refl
Unique-commit t (err e) u each = u

Unique-handed_over :
    (t : Table Session) (r : Result Error (Table Session))
    → Unique t
    → ((t' : Table Session) → r ≡ ok t' → Unique t')
    → Unique (handed_over t r).1
Unique-handed_over t (ok t') u each = each t' refl
Unique-handed_over t (err e) u each = u

Unique-handoff :
    (st : Settings) (cid token new_cid : String) (payload : JsonText) (subject : Option String)
    (outcome : JsonText) (now : ℕ) (t : Table Session)
    → Unique t
    → Unique (handoff_sync st cid token new_cid payload subject outcome now t).1
unfolding handoff_sync
Unique-handoff st cid token new_cid payload subject outcome now t u =
    let swept = purge_expired now (reap_stale_claims now t) in
    let upd = update_where cid (finishable token now) (finished st outcome now) swept in
    elim (Bool-cases (owners_differ (subject_of (find cid t)) subject)) [
      | inl differ ↦ ground (arith, differ, u)
      | inr agree ↦ elim (Bool-cases upd.1) [
        | inl done ↦
            let v =
              Unique-handed_over t
                (insert_pause st new_cid payload (or_else (subject_of (find cid t)) subject) now
                  upd.0)
                u
                (λ t' e.
                  Unique-insert_pause st new_cid payload _ now _ t'
                    (Unique-update_where cid _ _ swept (Unique-sweep now t u)) e) in
            ground (arith, agree, done, v)
        | inr stale ↦ ground (arith, agree, stale, Unique-sweep now t u)
      ]
    ]

-- Every call keeps the primary key.
pub step-Unique :
    (st : Settings) (t : Table Session) (c : ℕ × Call) → Unique t → Unique (step st t c)
unfolding step save_sync finish_sync renew_sync mark_progress_sync cancel_sync consume_sync
    status_sync
step-Unique st t (now, save cid payload subject) u =
    Unique-commit t _ u
      (λ t' e. Unique-insert_pause st cid payload subject now _ t' (Unique-sweep now t u) e)
step-Unique st t (now, handoff cid token new_cid payload subject outcome) u =
    Unique-handoff st cid token new_cid payload subject outcome now t u
step-Unique st t (now, finish cid token outcome) u = Unique-update_where _ _ _ t u
step-Unique st t (now, claim cid fingerprint token owner) u =
    Unique-claim st cid fingerprint token owner now t u
step-Unique st t (now, renew cid token) u = Unique-update_where _ _ _ t u
step-Unique st t (now, mark_progress cid token) u = Unique-update_where _ _ _ t u
step-Unique st t (now, cancel cid token) u = Unique-update_where _ _ _ t u
step-Unique st t (now, consume cid token) u = Unique-delete_where _ _ t u
step-Unique st t (now, discard_paused cid owner) u = Unique-discard cid owner now t u
step-Unique st t (now, inspect cid owner) u = Unique-inspect cid owner now t u
step-Unique st t (now, status cid) u = Unique-target cid now t u
