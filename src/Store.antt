-- ===== src/Store.antt =====
-- backend/internal/store: the records that the other packages exchange, and the queries.
mod Models
mod Tests
pub mod Sql
pub mod Database
pub mod Channels
pub mod Statuses
pub mod Counters
pub mod Nodes
pub mod R2Configs
pub mod Origins
pub mod Users
pub mod Logins
pub use Models.*
