-- ===== src/Settings.antt =====
-- The settings that the packages core/config and control keep.
pub mod Balancing
pub mod Levels
pub mod Circuit
pub mod Breakers
