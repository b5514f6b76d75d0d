-- ===== src/Examples.antt =====
-- Concrete runs of the model: each example applies a theorem to data on which its conditions hold.
mod Commands
mod Data
mod Statistics
mod Tries
mod Rotations
mod Sessions
mod Priorities
mod Requests
mod Pods
mod Routes
mod Handovers
mod Discoveries
mod Files
mod Sleeps
