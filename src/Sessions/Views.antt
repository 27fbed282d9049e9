-- ===== src/Sessions/Views.antt =====
-- services/autonomous_sessions.py: the calls that need no token: `_discard_paused_sync`,
-- `_status_sync`, `_inspect_sync`, `_exists_without_reaping_sync` and `_owned_sync`.
use study_loop.Base.{
  Bool, Option, String, false, if◌then◌else◌, is_none, is_some, none, some, true, ℕ, ◌&&◌,
}
use study_loop.Json.{JsonText, holds, obj}
use study_loop.Sessions.Row.{
  Outcome, Session, VisibleState, ambiguous, completed, decode_outcome, is_in_flight, is_paused,
  row_owned, visible_state,
}
use study_loop.Sessions.Sweep.{sweep_target}
use study_loop.Table.{Table, delete_where, find}

pub data DiscardReason : Type 0 where
  gone was_completed was_ambiguous running canceled : DiscardReason

abbrev discard_outcome : Outcome → DiscardReason
discard_outcome (completed response) = was_completed
discard_outcome ambiguous = was_ambiguous

-- The row as the sweep has left it.
unfoldable pub discard_row : String → Session → Table Session → DiscardReason × Table Session
unfolding decode_outcome
discard_row cid row t = elim row.outcome_json [
  | some outcome ↦ (discard_outcome (decode_outcome outcome), t)
  | none ↦
      if is_in_flight row.state
      then (running, t)
      else let (t', deleted) =
          delete_where cid (λ r. is_paused r.state && is_none r.outcome_json) t in
        if deleted then (canceled, t') else (running, t')
]

unfoldable pub discard_swept : String → Table Session → DiscardReason × Table Session
discard_swept cid t = elim (find cid t) [ none ↦ (gone, t) | some row ↦ discard_row cid row t ]

-- `_discard_paused_sync`: `discarded` is true where the reason is `canceled`.
unfoldable pub discard_paused_sync :
    String → Option String → ℕ → Table Session → DiscardReason × Table Session
discard_paused_sync cid owner now t = elim (find cid t) [
  | none ↦ (gone, t)
  | some row ↦ if row_owned owner row then discard_swept cid (sweep_target cid now t) else (gone, t)
]

unfoldable pub status_swept : String → Table Session → Option VisibleState
unfolding visible_state
status_swept cid t = elim (find cid t) [
  | none ↦ none
  | some row ↦ some (visible_state row.state row.outcome_json)
]

-- `_status_sync`.
unfoldable pub status_sync : String → ℕ → Table Session → Option VisibleState × Table Session
status_sync cid now t = let t' = sweep_target cid now t in (status_swept cid t', t')

-- SessionInspection: the row and its visible state. `corrupt` is the RuntimeError of
-- `_row_to_inspection`, which is raised after the transaction has ended.
pub data Inspection : Type 0 where
  not_found corrupt : Inspection
  shown : VisibleState → Session → Inspection

abbrev is_object : JsonText → Bool
is_object (holds (obj fs)) = true
is_object _ = false

unfoldable pub inspect_swept : String → Table Session → Inspection
unfolding visible_state
inspect_swept cid t = elim (find cid t) [
  | none ↦ not_found
  | some row ↦
      if is_object row.payload_json
      then shown (visible_state row.state row.outcome_json) row
      else corrupt
]

-- `_inspect_sync`.
unfoldable pub inspect_sync :
    String → Option String → ℕ → Table Session → Inspection × Table Session
inspect_sync cid owner now t = elim (find cid t) [
  | none ↦ (not_found, t)
  | some row ↦
      if row_owned owner row
      then (inspect_swept cid (sweep_target cid now t), sweep_target cid now t)
      else (not_found, t)
]

-- `_exists_without_reaping_sync` and `_owned_sync`, which write nothing.
unfoldable pub exists_without_reaping_sync : String → Table Session → Bool
exists_without_reaping_sync cid t = is_some (find cid t)

unfoldable pub owned_sync : String → String → Table Session → Bool
unfolding row_owned
owned_sync cid owner t = elim (find cid t) [ none ↦ false | some row ↦ row_owned (some owner) row ]
