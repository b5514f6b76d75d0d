-- ===== src/Stats.antt =====
-- src/vllm_router/stats: the figures that the routing decisions read.
pub mod Engine
pub mod Window
pub mod Monitor
