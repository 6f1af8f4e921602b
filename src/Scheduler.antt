-- ===== src/Scheduler.antt =====
-- src/scheduler.rs: how targets become actions, actions become verdicts, and verdicts an exit code.
pub mod Verdict
pub mod Reporter
pub mod Plan
pub mod Best
pub mod Group
pub mod Request
pub mod Details
pub mod Action
pub mod Attempts
pub mod Execute
pub mod Shard
pub mod Batches
pub mod Listing
pub mod Target
pub mod Run
