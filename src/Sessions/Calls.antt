-- ===== src/Sessions/Calls.antt =====
-- services/autonomous_sessions.py: the calls that write one row, as moves of the rows.
use study_loop.Base.{
  Bool, Bool-cases, Option, Option-cases, String, and_left, and_right, arith, inl, inr, is_none,
  not, not-true, some, ℕ, ◌&&◌, ◌≡◌,
}
use study_loop.Json.{JsonText}
use study_loop.Sessions.Capacity.{evictable}
use study_loop.Sessions.Moves.{
  Moves, cancels, consumes, evicts, finishes, join, progresses, renews, same, stays,
}
use study_loop.Sessions.Owner.{
  cancel_sync, cancelled, consume_sync, finish_sync, finishable, finished, holds_claim,
  mark_progress_sync, progressed, renew_sync, renewed,
}
use study_loop.Sessions.Refines.{delete-Moves, sweep_target-Moves, update-Moves}
use study_loop.Sessions.Row.{Session, Settings, is_paused, row_owned}
use study_loop.Sessions.Sweep.{sweep_target}
use study_loop.Sessions.Views.{
  discard_paused_sync, discard_row, discard_swept, inspect_sync, status_sync,
}
use study_loop.Table.{Table, delete_where, find}

module _ (st : Settings) (now : ℕ) (b : Bool) (cid token j : String) (t : Table Session) where
  pub renew-Moves : Moves st now b (find j t) (find j (renew_sync st cid token now t).1)
  unfolding renew_sync
  renew-Moves =
      update-Moves st now b cid j (holds_claim token now) t (renewed st now)
        (λ r _ held. renews r token held)

  pub progress-Moves : Moves st now b (find j t) (find j (mark_progress_sync st cid token now t).1)
  unfolding mark_progress_sync
  progress-Moves =
      update-Moves st now b cid j (holds_claim token now) t (progressed st now)
        (λ r _ held. progresses r token held)

  pub cancel-Moves : Moves st now b (find j t) (find j (cancel_sync cid token now t).1)
  unfolding cancel_sync
  cancel-Moves =
      update-Moves st now b cid j (λ r. holds_claim token now r && not r.progress_started) t
        (cancelled now)
        (λ r _ held. cancels r token (and_left _ _ held) (not-true _ (and_right _ _ held)))

  pub consume-Moves : Moves st now b (find j t) (find j (consume_sync cid token now t).1)
  unfolding consume_sync
  consume-Moves =
      delete-Moves st now b cid j (holds_claim token now) t (λ r _ held. consumes r token held)

  pub finish-Moves :
      (outcome : JsonText)
      → Moves st now b (find j t) (find j (finish_sync st cid token outcome now t).1)
  unfolding finish_sync
  finish-Moves outcome =
      update-Moves st now b cid j (finishable token now) t (finished st outcome now)
        (λ r _ held. finishes r token outcome held)

module _ (st : Settings) (now : ℕ) (b : Bool) (cid j : String) (t : Table Session) where
  pub status-Moves : Moves st now b (find j t) (find j (status_sync cid now t).1)
  unfolding status_sync
  status-Moves = sweep_target-Moves st now b cid j t

  pub inspect-Moves :
      (owner : Option String) → Moves st now b (find j t) (find j (inspect_sync cid owner now t).1)
  unfolding inspect_sync
  inspect-Moves owner = elim (Option-cases (find cid t)) [
    | inl absent ↦ stays (ground (arith, absent))
    | inr (r, there) ↦ elim (Bool-cases (row_owned owner r)) [
      | inl owned ↦ same (sweep_target-Moves st now b cid j t) (ground (arith, there, owned))
      | inr foreign ↦ stays (ground (arith, there, foreign))
    ]
  ]

  pub discard_row-Moves :
      (r : Session)
      → find cid t ≡ some r
      → Moves st now b (find j t) (find j (discard_row cid r t).1)
  unfolding discard_row
  discard_row-Moves r there = elim (Bool-cases (evictable r)) [
    | inl free ↦
        same
          (delete-Moves st now b cid j (λ s. is_paused s.state && is_none s.outcome_json) t
            (λ s _ free'. evicts s free'))
          (grind arith)
    | inr no_ ↦ stays (grind (arith, delete_where))
  ]

  pub discard_swept-Moves : Moves st now b (find j t) (find j (discard_swept cid t).1)
  unfolding discard_swept
  discard_swept-Moves = elim (Option-cases (find cid t)) [
    | inl absent ↦ stays (ground (arith, absent))
    | inr (r, there) ↦ same (discard_row-Moves r there) (ground (arith, there))
  ]

module _ (st : Settings) (now : ℕ) (b : Bool) (cid j : String) (t : Table Session) where
  pub discard-Moves :
      (owner : Option String)
      → Moves st now b (find j t) (find j (discard_paused_sync cid owner now t).1)
  unfolding discard_paused_sync
  discard-Moves owner = elim (Option-cases (find cid t)) [
    | inl absent ↦ stays (ground (arith, absent))
    | inr (r, there) ↦ elim (Bool-cases (row_owned owner r)) [
      | inl owned ↦
          same
            (join (sweep_target-Moves st now b cid j t)
              (discard_swept-Moves st now b cid j (sweep_target cid now t)))
            (ground (arith, there, owned))
      | inr foreign ↦ stays (ground (arith, there, foreign))
    ]
  ]
