-- ===== src/Controller.antt =====
-- The components of hyperagg/controller.
pub mod Bypass
pub mod Qos
pub mod Sdn
