-- ===== src/Auth.antt =====
-- services/user-management: accounts of users, their sessions and refresh tokens.
pub mod Store
pub mod RefreshToken
pub mod Users
pub mod Service
pub mod Invariant
pub mod Rotation
pub mod Sessions
pub mod Login
pub mod Interleaving
pub mod Cookie
pub mod Tests
pub mod Controller
