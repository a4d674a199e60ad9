-- ===== src/Model.antt =====
-- pipeline/domain_v2_model.py: the bounded evaluator of candidate domains.
pub mod Value
pub mod Evaluate
pub mod Typed
pub mod Accepted
pub mod Agree
pub mod Progress
pub mod Effects
pub mod Deadlock
pub mod PartialSound
pub mod State
pub mod Safe
pub mod Frontier
pub mod Atomic
pub mod Lock
pub mod Explore
pub mod Reach
pub mod Exclusion
pub mod Growth
pub mod Runs
pub mod Visit
pub mod VisitLock
pub mod Same
pub mod Simulate
pub mod Closure
pub mod Soundness
pub mod Budget
pub mod Termination
pub mod Verdict
