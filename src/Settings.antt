-- ===== src/Settings.antt =====
-- The settings of the platform and of its tenants (backend/src/services/settings.service.js,
-- backend/src/repositories/settings.repository.js).
mod Defs
mod Resolving
mod Updating
pub mod Cached
mod Tests
unfoldable pub use Defs.*
unfoldable pub use Resolving.*
unfoldable pub use Updating.*
