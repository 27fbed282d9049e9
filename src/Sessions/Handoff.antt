-- ===== src/Sessions/Handoff.antt =====
-- services/autonomous_sessions.py: `_handoff_sync`, which journals one conversation and pauses the next,
-- and `_discard_paused_sync` on a running claim.
use study_loop.Base.{
  Bool, Bool-cases, Option, Option-cases, String, ap, arith, eq_refl, false, inl, inr, not, refl,
  some, subst, sym, true, ℕ, ◌∙◌, ◌≡◌, ◌≢◌, ◌≤◌,
}
use study_loop.Base.Result.{Result, err, ok}
use study_loop.Json.{JsonText}
use study_loop.Sessions.Capacity.{
  Error, handed_over, handoff_sync, insert_pause, is_open, new_pause, or_else, owners_differ,
  subject_of,
}
use study_loop.Sessions.Eviction.{insert_pause-Inserts, insert_pause-enforces}
use study_loop.Sessions.Owner.{finishable, finished}
use study_loop.Sessions.PrimaryKey.{Unique-sweep}
use study_loop.Sessions.Room.{enforce-fits}
use study_loop.Sessions.Row.{Session, Settings, is_in_flight, live, row_owned, row_subject}
use study_loop.Sessions.Sweep.{purge_expired, purgeable, reap_row, reap_stale_claims, sweep_target}
use study_loop.Sessions.Thinning.{find-purge_expired, find-reap_stale_claims, find-sweep_target}
use study_loop.Sessions.Views.{canceled, discard_paused_sync, discard_row, discard_swept}
use study_loop.Table.{Table, count_rows, find, find-put, keep_if, map_row, put, update_where}
use study_loop.Table.Keys.{Unique, Unique-map_rows, Unique-put, Unique-update_where}

-- A claim that is still live after the sweeps is one that they have not touched.
swept-finishable :
    (token : String) (now : ℕ) (o : Option Session) (r : Session)
    → keep_if (λ s. not (purgeable now s)) (map_row (reap_row now) o) ≡ some r
    → finishable token now r ≡ true
    → o ≡ some r
unfolding reap_row
swept-finishable token now o r e h = grind arith

handed_over-ok :
    (t : Table Session) (r : Result Error (Table Session))
    → (handed_over t r).0 ≡ ok true
    → r ≡ ok (handed_over t r).1
handed_over-ok t (ok t') e = refl
handed_over-ok t (err x) e = cc

abbrev swept : ℕ → Table Session → Table Session
swept now t = purge_expired now (reap_stale_claims now t)

-- The first statement of a handoff after the sweeps.
abbrev updated : Settings → String → String → JsonText → ℕ → Table Session → Table Session × Bool
updated st cid token outcome now t =
    update_where cid (finishable token now) (finished st outcome now) (swept now t)

-- The source row that a handoff finishes.
module _ (st : Settings) (cid token new_cid : String) (payload : JsonText) (subject : Option String)
    (outcome : JsonText) (now : ℕ) (t : Table Session) where
  handoff-inserts :
      (handoff_sync st cid token new_cid payload subject outcome now t).0 ≡ ok true
      → ((updated st cid token outcome now t).1 ≡ true)
        × (owners_differ (subject_of (find cid t)) subject ≡ false)
        × (insert_pause st new_cid payload
              (or_else (subject_of (find cid t)) subject)
              now
              (updated st cid token outcome now t).0
            ≡ ok (handoff_sync st cid token new_cid payload subject outcome now t).1)
  unfolding handoff_sync
  handoff-inserts e = elim (Bool-cases (owners_differ (subject_of (find cid t)) subject)) [
    | inl differ ↦ ground (arith, differ)
    | inr agree ↦ elim (Bool-cases (updated st cid token outcome now t).1) [
      | inl done ↦
          let r =
            insert_pause st new_cid payload (or_else (subject_of (find cid t)) subject) now
              (updated st cid token outcome now t).0 in
          ground (arith, agree, done, handed_over-ok t r)
      | inr stale ↦ ground (arith, agree, stale)
    ]
  ]

  source-row :
      Unique t
      → (updated st cid token outcome now t).1 ≡ true
      → (r : Session) × (find cid t ≡ some r)
        × (finishable token now r ≡ true)
        × (find cid (updated st cid token outcome now t).0 ≡ some (finished st outcome now r))
  unfolding update_where
  source-row u done = elim (Option-cases (find cid (swept now t))) [
    | inl absent ↦ ground (arith, absent)
    | inr (r, there) ↦ elim (Bool-cases (finishable token now r)) [
      | inl live_ ↦ (
        r,
        swept-finishable token now (find cid t) r
            (ap (keep_if (λ s. not (purgeable now s))) (sym (find-reap_stale_claims cid now t))
              ∙ sym (
                  find-purge_expired cid now (reap_stale_claims now t)
                    (unfold reap_stale_claims in Unique-map_rows (reap_row now) t u))
              ∙ there)
            live_,
        live_,
        ground (
          arith,
          there,
          live_,
          find-put cid cid (finished st outcome now r) (swept now t),
          eq_refl cid,
        ),
      )
      | inr dead ↦ ground (arith, there, dead)
    ]
  ]

  -- A handoff that succeeds does both halves at once: the old conversation, whose claim was live
  -- and is bound to a request, holds the journaled outcome, and the new one is a fresh pause under
  -- the same owner, in a table with at most `max_count` open sessions.
  pub handoff_is_atomic :
      Unique t
      → (handoff_sync st cid token new_cid payload subject outcome now t).0 ≡ ok true
      → let t' = (handoff_sync st cid token new_cid payload subject outcome now t).1 in
        (r : Session) × (find cid t ≡ some r)
        × (finishable token now r ≡ true)
        × (owners_differ (row_subject r) subject ≡ false)
        × (find cid t' ≡ some (finished st outcome now r))
        × (find new_cid t' ≡ some (new_pause st payload (or_else (row_subject r) subject) now))
        × (count_rows is_open t' ≤ st.max_count)
  handoff_is_atomic u e =
      let (done, agree, inserted) = handoff-inserts e in
      let (r, there, live_, written) = source-row u done in
      let did =
        insert_pause-Inserts st new_cid payload _ now (updated st cid token outcome now t).0 _
          inserted in
      let (absent, room) =
        insert_pause-enforces st new_cid payload _ now (updated st cid token outcome now t).0 _
          inserted in
      let source : subject_of (find cid t) ≡ row_subject r = ap subject_of there in
      (
        r,
        there,
        live_,
        subst (λ s. owners_differ s subject ≡ false) source agree,
        did.keeps cid _ written refl,
        subst
            (λ s.
              find new_cid (handoff_sync st cid token new_cid payload subject outcome now t).1
              ≡ some (new_pause st payload (or_else s subject) now))
            source did.stands,
        enforce-fits st new_cid
            (put new_cid (new_pause st payload (or_else (subject_of (find cid t)) subject) now)
              (updated st cid token outcome now t).0)
            _
            (Unique-put new_cid _ (updated st cid token outcome now t).0
              (Unique-update_where cid _ _ (swept now t) (Unique-sweep now t u)))
            room,
      )

swept_held :
    (cid : String) (now : ℕ) (t : Table Session) (r : Session)
    → find cid t ≡ some r
    → is_in_flight r.state ≡ true
    → live r.claim_expires_at now ≡ true
    → find cid (sweep_target cid now t) ≡ some r
unfolding reap_row
swept_held cid now t r there flying held =
    grind (arith, find-sweep_target cid cid now t, eq_refl cid)

-- A conversation under a live claim is never discarded, and a call that reports `canceled` has
-- deleted a pause that nobody holds.
pub discard_spares_running :
    (cid : String) (owner : Option String) (now : ℕ) (t : Table Session) (r : Session)
    → find cid t ≡ some r
    → is_in_flight r.state ≡ true
    → live r.claim_expires_at now ≡ true
    → ((discard_paused_sync cid owner now t).0 ≢ canceled)
      × (find cid (discard_paused_sync cid owner now t).1 ≡ some r)
unfolding discard_paused_sync
discard_spares_running cid owner now t r there flying held =
    let kept = swept_held cid now t r there flying held in
    elim (Bool-cases (row_owned owner r)) [
      | inl owned ↦ (
        unfold discard_swept discard_row in grind (arith, there, owned, kept),
        unfold discard_swept discard_row in grind (arith, there, owned, kept),
      )
      | inr foreign ↦ (ground (arith, there, foreign), ground (arith, there, foreign))
    ]
