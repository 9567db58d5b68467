-- ===== src/HttpApi.antt =====
-- backend/internal/httpapi: the control plane's HTTP server.
mod Tests
pub mod Fixtures
pub mod Sessions
pub mod Tokens
pub mod OriginCache
pub mod Server
pub mod Inputs
pub mod Gates
pub mod PlaylistUrls
pub mod ShareLinks
pub mod Channels
pub mod ChannelById
pub mod Passwords
pub mod Answers
pub mod Admin
pub mod Users
pub mod Accounts
pub mod MyNodes
pub mod MyStorage
pub mod MyOrigins
pub mod NodeApi
