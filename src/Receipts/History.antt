-- ===== src/Receipts/History.antt =====
-- services/idempotency.py: the calls of a process on the store, and their histories.
use study_loop.Base.{Bool, List, String, [], ℕ, ◌∷◌}
use study_loop.Json.{JsonText}
use study_loop.Receipts.Begin.{begin_sync}
use study_loop.Receipts.Owner.{abort_sync, complete_sync, mark_effect_started_sync, renew_sync}
use study_loop.Receipts.Receipt.{Receipt, Request}
use study_loop.Receipts.Repair.{reconcile_completed_sync}
use study_loop.Table.{Table}

-- The calls that a process makes on the store, with the normalized arguments that the methods hand
-- to their transactions.
pub data Call : Type 0 where
  begin : Request → String → String → Call
  renew : String → String → Call
  mark_effect_started : String → String → String → Call
  complete : String → String → JsonText → Call
  reconcile_completed : Request → JsonText → Bool → Call
  abort : String → String → Call

unfoldable pub step : ℕ → Table Receipt → ℕ × Call → Table Receipt
unfolding begin_sync renew_sync mark_effect_started_sync complete_sync
step lease_seconds t (now, begin q owner recovery) =
    (begin_sync (λ u. u) now lease_seconds q owner recovery now t).1
step lease_seconds t (now, renew key owner) = (renew_sync lease_seconds key owner now t).1
step lease_seconds t (now, mark_effect_started key owner tool) =
    (mark_effect_started_sync key owner tool now t).1
step lease_seconds t (now, complete key owner response) = (complete_sync key owner response now t).1
step lease_seconds t (now, reconcile_completed q response allow_effect) =
    (reconcile_completed_sync q response allow_effect now t).1
step lease_seconds t (now, abort key owner) = (abort_sync key owner now t).1

unfoldable pub run : ℕ → Table Receipt → List (ℕ × Call) → Table Receipt
run lease_seconds t [] = t
run lease_seconds t (c ∷ cs) = run lease_seconds (step lease_seconds t c) cs
