-- ===== src/Request.antt =====
-- The request service of src/vllm_router/services/request_service/request.py.
pub mod Failover
pub mod Admission
pub mod Process
pub mod Routers
pub mod Multipart
pub mod Orchestrated
pub mod Prefill
pub mod Sleep
