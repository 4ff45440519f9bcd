-- ===== src/Scheduler.antt =====
-- The choice of paths, hyperagg/scheduler: what is measured on each path, what is predicted from it,
-- and the paths for each packet.
pub mod Models
pub mod Monitor
pub mod Predictor
pub mod PathScheduler
pub mod Congestion
pub mod Bandwidth
pub mod Delay
