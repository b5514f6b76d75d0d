-- ===== src/Routing.antt =====
-- src/vllm_router/routers/routing_logic.py: one module for each routing logic.
pub mod Rotation
pub mod RoundRobin
pub mod Best
pub mod Qps
pub mod Disaggregated
pub mod Factory
pub mod HashRing
pub mod Kvaware
pub mod LoadAware
pub mod PrefixAware
pub mod Session
pub mod Priority
