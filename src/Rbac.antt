-- ===== src/Rbac.antt =====
-- Package internal/rbac: route permissions, role stores and the engine.
pub mod Route
pub mod Store
pub mod Config
pub mod Engine
