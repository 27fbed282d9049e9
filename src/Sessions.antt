-- ===== src/Sessions.antt =====
-- services/autonomous_sessions.py: durable pause snapshots of the Autonomous agent. A paused
-- conversation is claimed by one continuation at a time; the claim is a lease with a fencing token.
-- A function `..._sync` below is the transaction of that name on the table, at the time `now` that
-- `_now` returns in it; a raised exception rolls it back.
pub mod Row
pub mod Sweep
pub mod Claim
pub mod Owner
pub mod Views
pub mod Capacity
pub mod History
pub mod Thinning
pub mod Eviction
pub mod Taking
pub mod Moves
pub mod Refines
pub mod Claims
pub mod Calls
pub mod Steps
pub mod PrimaryKey
pub mod Invariant
pub mod Counting
pub mod Room
pub mod Histories
pub mod Outcomes
pub mod Handoff
mod Tests
pub mod Fencing
