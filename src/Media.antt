-- ===== src/Media.antt =====
-- internal/media/ssrf.go: which addresses and hosts the server may fetch media from.
pub mod Address
pub mod Outbound
