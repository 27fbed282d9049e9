-- ===== src/Receipts.antt =====
-- services/idempotency.py: receipts that make a retried request safe. One receipt a key; its state
-- says whether the request may start over. A function `..._sync` below is the transaction of that
-- name on the table, at the time `now` that `_now` returns in it; a raised exception rolls it back.
pub mod Receipt
pub mod Begin
pub mod Owner
pub mod Repair
pub mod History
pub mod Sealed
pub mod Fencing
pub mod Replay
pub mod Valid
pub mod Binding
mod Tests
