-- ===== src/Ingester.antt =====
-- The service: its configuration, its start and stop.
pub mod Parts
pub mod Config
pub mod Run
