-- ===== src/Tokens.antt =====
-- Refresh tokens of users and of platform admins (backend/src/services/token.service.js,
-- backend/src/repositories/refreshToken.repository.js). The signed access tokens are a library's.
mod Defs
pub mod Dead
pub mod Once
pub mod Grace
mod Tests
unfoldable pub use Defs.*
