-- ===== src/Rbac.antt =====
-- lib/permissions.ts: roles, grants and the decision whether a user may do something.
pub mod Catalog
pub mod Grants
pub mod Guests
pub mod Holder
pub mod Presets
mod Tests
