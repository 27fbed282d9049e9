-- ===== src/Receipts/Tests.antt =====
-- Receipts at concrete inputs: runs of the calls, and the theorems applied.
use study_loop.Base.{
  List, [], ap, arith, eq_iff, false, false≢true, if◌then◌else◌, none, refl, some, true, ℕ, ◌∷◌,
  ◌≡◌, ◌≢◌,
}
use study_loop.Base.Result.{err, ok}
use study_loop.Json.{Fields, end, field, holds, null, obj, str}
use study_loop.Receipts.Begin.{begin_linearizes, begin_sync}
use study_loop.Receipts.Binding.{
  SameBinding, abort_reports_effect, open_claim, step-SameBinding, step-other_key,
}
use study_loop.Receipts.Fencing.{
  leased_until, live_lease_excludes, renew_keeps_lease, takeover_fences_old_owner,
}
use study_loop.Receipts.History.{Call, abort, begin, complete, renew, run, step}
use study_loop.Receipts.Owner.{
  abort_sync, complete_sync, extended, has_effect_started_sync, heartbeat, mark_effect_started_sync,
  renew_sync,
}
use study_loop.Receipts.Receipt.{
  Receipt, ReceiptLease, Request, binds, conflict, granted, in_progress, payload_mismatch,
  pending_v2, receipt_not_completable, receipt_not_pending, replay,
}
use study_loop.Receipts.Repair.{reconcile_completed_sync}
use study_loop.Receipts.Replay.{repair_closes_receipt, retry_replays_response}
use study_loop.Receipts.Sealed.{effect_starts_once, run-sealed, sealed_at}
use study_loop.Receipts.Valid.{run-valid, valid_at}
use study_loop.Table.{Table, find, put, update_where}

abbrev request : Request
request = record { key = "chat-0001"; operation = "chat"; fingerprint = "f1" }

abbrev claimed : Receipt
claimed = record {
  operation = "chat";
  fingerprint = "f1";
  state = pending_v2;
  response_json = none;
  effect_tool = none;
  owner_token = some "worker-a";
  recovery_token = some "recover";
  lease_expires_at = some 700;
  created_at = 100;
  updated_at = 100;
}

abbrev one_claim : Table Receipt
one_claim = ("chat-0001", claimed) ∷ []

abbrev reply : Fields
reply = field "answer" (str "42") end

abbrev claim_lease : ReceiptLease
claim_lease = record {
  key = "chat-0001";
  owner_token = "worker-a";
  recovery_token = "recover";
  expires_at = 700;
}

abbrev reclaim_lease : ReceiptLease
reclaim_lease = record {
  key = "chat-0001";
  owner_token = "worker-b";
  recovery_token = "recover";
  expires_at = 1300;
}

abbrev history : List (ℕ × Call)
history =
    (250, abort "chat-0001" "worker-a")
    ∷ (900, begin request "worker-b" "other")
    ∷ (901, complete "chat-0001" "worker-b" (holds null))
    ∷ []

first_claim :
    begin_sync (λ u. u) 100 600 request "worker-a" "recover" 100 []
    ≡ (ok (granted claim_lease), one_claim)
unfolding begin_sync find put update_where
first_claim = refl

-- The expired claim is taken over, and keeps its recovery token.
second_claim :
    (begin_sync (λ u. u) 700 600 request "worker-b" "ignored" 700 one_claim).0
    ≡ ok (granted reclaim_lease)
unfolding begin_sync find put update_where
second_claim = refl

still_leased :
    (begin_sync (λ u. u) 699 600 request "worker-b" "ignored" 699 one_claim).0
    ≡ err (conflict in_progress)
unfolding begin_sync find
still_leased = refl

mark_succeeds :
    (mark_effect_started_sync "chat-0001" "worker-a" "grade_answer" 200 one_claim).0 ≡ ok tt
unfolding mark_effect_started_sync find put update_where
mark_succeeds = refl

complete_succeeds :
    (complete_sync "chat-0001" "worker-a" (holds (obj reply)) 200 one_claim).0 ≡ ok tt
unfolding complete_sync find put update_where
complete_succeeds = refl

find_claim : find "chat-0001" one_claim ≡ some claimed
unfolding find
find_claim = refl

reconcile_succeeds :
    (reconcile_completed_sync request (holds (obj reply)) false 200 one_claim).0 ≡ ok tt
unfolding reconcile_completed_sync find put update_where
reconcile_succeeds = refl

effect_starts_once_example :
    (begin_sync
      (λ u. u)
      950
      600
      request
      "worker-c"
      "other"
      950
      (run 600
        (mark_effect_started_sync "chat-0001" "worker-a" "grade_answer" 200 one_claim).1
        history)).0
    ≢ ok (granted claim_lease)
effect_starts_once_example =
    effect_starts_once 600 one_claim history request "worker-a" "grade_answer" 200 "worker-c"
      "other" 950 claim_lease mark_succeeds

run-sealed_example :
    sealed_at "chat-0001" (
      run 600
        (mark_effect_started_sync "chat-0001" "worker-a" "grade_answer" 200 one_claim).1
        history)
    ≡ true
unfolding mark_effect_started_sync find put update_where
run-sealed_example =
    run-sealed 600 "chat-0001"
      (mark_effect_started_sync "chat-0001" "worker-a" "grade_answer" 200 one_claim).1 history refl

takeover_fences_old_owner_example :
    let t' = (begin_sync (λ u. u) 700 600 request "worker-b" "ignored" 700 one_claim).1 in
    (mark_effect_started_sync "chat-0001" "worker-a" "grade_answer" 701 t'
      ≡ (err (conflict receipt_not_pending), t'))
    × (complete_sync "chat-0001" "worker-a" (holds (obj reply)) 701 t'
        ≡ (err (conflict receipt_not_completable), t'))
    × (renew_sync 600 "chat-0001" "worker-a" 701 t' ≡ (none, t'))
    × ((abort_sync "chat-0001" "worker-a" 701 t').1 ≡ t')
takeover_fences_old_owner_example =
    takeover_fences_old_owner (λ u. u) 700 600 request "worker-b" "ignored" 700 one_claim
      reclaim_lease second_claim "worker-a" "grade_answer" (holds (obj reply)) 701
      (λ e. false≢true ((eq_iff "worker-a" "worker-b").1 e))

live_lease_excludes_example :
    let t' = (begin_sync (λ u. u) 100 600 request "worker-a" "recover" 100 []).1 in
    ((begin_sync (λ u. u) 100 600 request "worker-b" "ignored" 699 t').1 ≡ t')
    × ((begin_sync (λ u. u) 100 600 request "worker-b" "ignored" 699 t').0
        ≢ ok (granted reclaim_lease))
live_lease_excludes_example =
    live_lease_excludes (λ u. u) 100 600 request request "worker-a" "recover" "worker-b" "ignored"
      100 699 [] claim_lease reclaim_lease (ap (λ x. x.0) first_claim) (omega arith) refl

retry_replays_response_example :
    let u =
      run 600 (complete_sync "chat-0001" "worker-a" (holds (obj reply)) 200 one_claim).1 history in
    begin_sync (λ u. u) 950 600 request "worker-c" "other" 950 u ≡ (
      if binds claimed request
      then (ok (replay (obj reply)), u)
      else (err (conflict payload_mismatch), u))
retry_replays_response_example =
    retry_replays_response 600 one_claim request "worker-a" reply 200 claimed history "worker-c"
      "other" 950 find_claim complete_succeeds

repair_closes_receipt_example :
    let u = (reconcile_completed_sync request (holds (obj reply)) false 200 one_claim).1 in
    (reconcile_completed_sync request (holds (obj reply)) false 300 u ≡ (ok tt, u))
    × (begin_sync (λ u. u) 300 600 request "worker-c" "other" 300 u ≡ (ok (replay (obj reply)), u))
repair_closes_receipt_example =
    repair_closes_receipt 600 one_claim request reply false 200 300 claimed "worker-c" "other"
      find_claim (λ e. cc) reconcile_succeeds

run-valid_example : valid_at "chat-0001" (run 600 one_claim history) ≡ true
unfolding find
run-valid_example = run-valid 600 "chat-0001" one_claim history refl refl

step-SameBinding_example : SameBinding claimed (heartbeat 200 (extended 600 200 claimed))
unfolding step renew_sync find put update_where
step-SameBinding_example =
    step-SameBinding 600 "chat-0001" one_claim (200, renew "chat-0001" "worker-a") claimed
      (heartbeat 200 (extended 600 200 claimed)) refl refl

other_key_stays :
    find "chat-0001"
      (step 600 one_claim (800, begin (record request { key = "chat-0002" }) "w" "r"))
    ≡ find "chat-0001" one_claim
other_key_stays =
    step-other_key 600 "chat-0001" one_claim 800
      (begin (record request { key = "chat-0002" }) "w" "r")
      (λ e. false≢true ((eq_iff "chat-0002" "chat-0001").1 e))

abort_reports_effect_example :
    ((abort_sync "chat-0001" "worker-a" 200 one_claim).0
      ≡ has_effect_started_sync "chat-0001" (abort_sync "chat-0001" "worker-a" 200 one_claim).1)
    × (open_claim "chat-0001" "worker-a" (abort_sync "chat-0001" "worker-a" 200 one_claim).1
        ≡ false)
abort_reports_effect_example = abort_reports_effect "chat-0001" "worker-a" 200 one_claim

renewal_keeps_lease :
    leased_until "chat-0001" 650 (renew_sync 600 "chat-0001" "worker-a" 200 one_claim).1 ≡ true
unfolding find
renewal_keeps_lease = renew_keeps_lease 600 "chat-0001" "worker-a" 200 650 one_claim refl

begin_linearizes_example :
    begin_sync (λ u. one_claim) 150 600 request "worker-b" "r" 100 []
    ≡ begin_sync (λ u. u) 150 600 request "worker-b" "r" 150 one_claim
unfolding find
begin_linearizes_example =
    begin_linearizes (λ u. one_claim) 150 600 request "worker-b" "r" 100 [] refl
