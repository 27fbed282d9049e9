-- ===== src/Sessions/Tests.antt =====
-- Sessions at concrete inputs: runs of the calls, and the theorems applied.
use study_loop.Base.{
  List, [], arith, eq_iff, false, false≢true, none, refl, some, true, ℕ, ◌∷◌, ◌≡◌, ◌≢◌, ◌≤◌,
}
use study_loop.Base.Result.{ok}
use study_loop.Json.{Fields, JsonText, end, field, holds, obj, str}
use study_loop.Sessions.Capacity.{
  enforce_capacity, handoff_sync, insert_pause, is_open, new_pause, or_else, owners_differ,
  save_sync,
}
use study_loop.Sessions.Claim.{claim_sync, claimed, payload_mismatch, refused, taken}
use study_loop.Sessions.Fencing.{claim_is_exclusive}
use study_loop.Sessions.Handoff.{discard_spares_running, handoff_is_atomic}
use study_loop.Sessions.Histories.{progress_never_replayed, run-check}
use study_loop.Sessions.History.{Call, cancel, claim, discard_paused, run, step}
use study_loop.Sessions.Invariant.{check_of}
use study_loop.Sessions.Moves.{Moves}
use study_loop.Sessions.Outcomes.{finished_response_replays, learns}
use study_loop.Sessions.Owner.{
  cancel_sync, consume_sync, finish_sync, finishable, finished, mark_progress_sync, renew_sync,
}
use study_loop.Sessions.Row.{
  Session, Settings, completed_outcome_json, paused, row_owned, row_subject,
}
use study_loop.Sessions.Steps.{step-Moves}
use study_loop.Sessions.Sweep.{purge_expired, reap_stale_claims, unclaim}
use study_loop.Sessions.Taking.{took}
use study_loop.Sessions.Views.{canceled, discard_paused_sync}
use study_loop.Table.{Table, count_rows, find, insert_or_ignore, put, update_where}
use study_loop.Table.Keys.{Unique}

abbrev settings : Settings
settings = record {
  ttl_seconds = 3600;
  operation_lease_seconds = 600;
  max_count = 2;
  id_before = λ a b. false;
}

abbrev owner_payload : JsonText
owner_payload = holds (obj (field "user_id" (str "u1") end))

abbrev pause : Session
pause = new_pause settings owner_payload (some "u1") 100

abbrev one_pause : Table Session
one_pause = ("conv-1", pause) ∷ []

abbrev running_row : Session
running_row = taken settings "fp" "tok-a" 200 pause

abbrev one_running : Table Session
one_running = ("conv-1", running_row) ∷ []

abbrev reply : Fields
reply = field "answer" (str "42") end

abbrev history : List (ℕ × Call)
history =
    (900, cancel "conv-1" "tok-a")
    ∷ (2000, claim "conv-1" "fp" "tok-b" none)
    ∷ (2100, discard_paused "conv-1" (some "u1"))
    ∷ []

save_runs : save_sync settings "conv-1" owner_payload (some "u1") 100 [] ≡ (ok tt, one_pause)
unfolding save_sync insert_pause insert_or_ignore enforce_capacity purge_expired reap_stale_claims
    find put
save_runs = refl

claim_runs :
    claim_sync settings "conv-1" "fp" "tok-a" (some "u1") 200 one_pause
    ≡ (claimed "tok-a" (field "user_id" (str "u1") end), one_running)
unfolding claim_sync find put update_where
claim_runs = refl

-- A clean claim whose lease ran out returns to its pause, bound to its request.
reap_returns :
    find "conv-1" (reap_stale_claims 800 one_running)
    ≡ some (record (unclaim 800 running_row) { state = paused })
unfolding reap_stale_claims find
reap_returns = refl

other_request_refused :
    (claim_sync settings "conv-1" "other" "tok-b"
      (some "u1")
      900
      (reap_stale_claims 800 one_running)).0
    ≡ refused payload_mismatch
unfolding claim_sync find put update_where reap_stale_claims
other_request_refused = refl

mark_succeeds : (mark_progress_sync settings "conv-1" "tok-a" 300 one_running).0 ≡ true
unfolding mark_progress_sync find put update_where
mark_succeeds = refl

one_running-Unique : Unique one_running
unfolding find
one_running-Unique = (refl, tt)

find_running : find "conv-1" one_running ≡ some running_row
unfolding find
find_running = refl

progress_never_replayed_example :
    took
      (claim_sync settings "conv-1" "fp" "tok-c" none 5000
        (run settings (mark_progress_sync settings "conv-1" "tok-a" 300 one_running).1 history)).0
    ≡ false
progress_never_replayed_example =
    progress_never_replayed settings one_running "conv-1" "tok-a" 300 history "fp" "tok-c" none 5000
      one_running-Unique mark_succeeds refl

claim_is_exclusive_example :
    let t' = (claim_sync settings "conv-1" "fp" "tok-a" (some "u1") 200 one_pause).1 in
    (took (claim_sync settings "conv-1" "fp" "tok-b" none 700 t').0 ≡ false)
    × ((claim_sync settings "conv-1" "fp" "tok-b" none 700 t').1 ≡ t')
    × (renew_sync settings "conv-1" "tok-b" 700 t' ≡ (false, t'))
    × (mark_progress_sync settings "conv-1" "tok-b" 700 t' ≡ (false, t'))
    × (cancel_sync "conv-1" "tok-b" 700 t' ≡ (false, t'))
    × (consume_sync "conv-1" "tok-b" 700 t' ≡ (false, t'))
    × (finish_sync settings "conv-1" "tok-b" (completed_outcome_json reply) 700 t' ≡ (false, t'))
unfolding claim_sync find put update_where
claim_is_exclusive_example =
    claim_is_exclusive settings "conv-1" "fp" "tok-a" (some "u1") 200 one_pause "fp" "tok-b" none
      (completed_outcome_json reply) 700 refl (omega arith)
      (λ e. false≢true ((eq_iff "tok-b" "tok-a").1 e))

finish_succeeds :
    (finish_sync settings "conv-1" "tok-a" (completed_outcome_json reply) 300 one_running).0 ≡ true
unfolding finish_sync find put update_where
finish_succeeds = refl

finished_response_replays_example :
    let u =
      run settings
        (finish_sync settings "conv-1" "tok-a" (completed_outcome_json reply) 300 one_running).1
        history in
    claim_sync settings "conv-1" "fp" "tok-c" (some "u1") 3000 u
    ≡ (learns (some "fp") "fp" reply, u)
unfolding row_owned
finished_response_replays_example =
    finished_response_replays settings one_running "conv-1" "tok-a" reply 300 running_row history
      "fp" "tok-c" (some "u1") 3000 one_running-Unique find_running finish_succeeds refl refl
      (omega arith)

run-check_example : check_of (find "conv-1" (run settings one_running history)) ≡ true
unfolding find
run-check_example = run-check settings one_running history "conv-1" one_running-Unique refl

step-Moves_example :
    Moves settings 900 false
      (find "conv-1" one_running)
      (find "conv-1" (step settings one_running (900, cancel "conv-1" "tok-a")))
step-Moves_example =
    step-Moves settings one_running 900 (cancel "conv-1" "tok-a") "conv-1" one_running-Unique

handoff_succeeds :
    (handoff_sync settings "conv-1" "tok-a" "conv-2" owner_payload none
      (completed_outcome_json reply)
      300
      one_running).0
    ≡ ok true
unfolding handoff_sync save_sync insert_pause insert_or_ignore enforce_capacity purge_expired
    reap_stale_claims find put update_where row_subject
handoff_succeeds = refl

handoff_is_atomic_example :
    let t' =
      (handoff_sync settings "conv-1" "tok-a" "conv-2" owner_payload none
        (completed_outcome_json reply)
        300
        one_running).1 in
    (r : Session) × (find "conv-1" one_running ≡ some r)
    × (finishable "tok-a" 300 r ≡ true)
    × (owners_differ (row_subject r) none ≡ false)
    × (find "conv-1" t' ≡ some (finished settings (completed_outcome_json reply) 300 r))
    × (find "conv-2" t'
        ≡ some (new_pause settings owner_payload (or_else (row_subject r) none) 300))
    × (count_rows is_open t' ≤ 2)
handoff_is_atomic_example =
    handoff_is_atomic settings "conv-1" "tok-a" "conv-2" owner_payload none
      (completed_outcome_json reply) 300 one_running one_running-Unique handoff_succeeds

discard_spares_running_example :
    ((discard_paused_sync "conv-1" (some "u1") 300 one_running).0 ≢ canceled)
    × (find "conv-1" (discard_paused_sync "conv-1" (some "u1") 300 one_running).1
        ≡ some running_row)
discard_spares_running_example =
    discard_spares_running "conv-1" (some "u1") 300 one_running running_row find_running refl refl
