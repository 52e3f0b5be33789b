-- ===== src/Upstream.antt =====
-- internal/upstream: what the gateway makes of requests for the upstream provider.
pub mod ToolNames
