-- ===== src/Database.antt =====
-- internal/database/redis.go: the commands over Redis that the coordinator and the client keys use.
pub mod Server
pub mod Scripts
pub mod Redis
pub mod Slots
pub mod Semaphore
pub mod Leases
pub mod Deadlines
