-- ===== src/Sessions/History.antt =====
-- services/autonomous_sessions.py: the calls on the store, and their histories.
use study_loop.Base.{List, Option, String, [], ℕ, ◌∷◌}
use study_loop.Json.{JsonText}
use study_loop.Sessions.Capacity.{handoff_sync, save_sync}
use study_loop.Sessions.Claim.{claim_sync}
use study_loop.Sessions.Owner.{
  cancel_sync, consume_sync, finish_sync, mark_progress_sync, renew_sync,
}
use study_loop.Sessions.Row.{Session, Settings}
use study_loop.Sessions.Views.{discard_paused_sync, inspect_sync, status_sync}
use study_loop.Table.{Table}

-- The calls that a process makes on the store, with the validated ids and the serialized JSON that
-- the methods hand to their transactions.
pub data Call : Type 0 where
  save : String → JsonText → Option String → Call
  handoff : String → String → String → JsonText → Option String → JsonText → Call
  finish : String → String → JsonText → Call
  claim : String → String → String → Option String → Call
  renew : String → String → Call
  mark_progress : String → String → Call
  cancel : String → String → Call
  consume : String → String → Call
  discard_paused : String → Option String → Call
  inspect : String → Option String → Call
  status : String → Call

unfoldable pub step : Settings → Table Session → ℕ × Call → Table Session
step st t (now, save cid payload subject) = (save_sync st cid payload subject now t).1
step st t (now, handoff cid token new_cid payload subject outcome) =
    (handoff_sync st cid token new_cid payload subject outcome now t).1
step st t (now, finish cid token outcome) = (finish_sync st cid token outcome now t).1
step st t (now, claim cid fingerprint token owner) =
    (claim_sync st cid fingerprint token owner now t).1
step st t (now, renew cid token) = (renew_sync st cid token now t).1
step st t (now, mark_progress cid token) = (mark_progress_sync st cid token now t).1
step st t (now, cancel cid token) = (cancel_sync cid token now t).1
step st t (now, consume cid token) = (consume_sync cid token now t).1
step st t (now, discard_paused cid owner) = (discard_paused_sync cid owner now t).1
step st t (now, inspect cid owner) = (inspect_sync cid owner now t).1
step st t (now, status cid) = (status_sync cid now t).1

unfoldable pub run : Settings → Table Session → List (ℕ × Call) → Table Session
run st t [] = t
run st t (c ∷ cs) = run st (step st t c) cs
