-- ===== src/Accounts.antt =====
-- internal/accounts: the pool of upstream accounts and the coordination of its processes.
pub mod Policy
pub mod Quota
pub mod Backoff
pub mod Pool
pub mod Affinity
pub mod Select
pub mod Choose
pub mod Reload
pub mod Create
pub mod Message
pub mod Feedback
pub mod Settle
pub mod Release
pub mod Reserve
pub mod Confirm
pub mod Acquire
pub mod Probe
pub mod Memory
pub mod Redis
pub mod HttpFeedback
