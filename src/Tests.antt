-- ===== src/Tests.antt =====
-- Concrete accounts, pools and coordinators, and the theorems applied to them.
pub mod Values
pub mod Scores
mod Acquiring
mod Releasing
mod Reading
mod Charging
mod Logging
mod Coordinating
pub mod Servers
mod Serving
mod Forwarding
mod Scripting
mod Fetching
mod Naming
