-- ===== src/Storage.antt =====
-- crates/telepair-core/src/storage/sqlite.rs over the schema of migrations/: the database as a
-- record of tables. A method takes what its host supplies on the call (`Host`), and returns its
-- result beside the new database, or an error. An error leaves the database as it was: each method
-- is one statement or one transaction, which `?` rolls back.
mod Db
pub mod Accounts
pub mod Invites
pub mod Listings
pub mod Logins
pub mod Pending
pub mod Recordings
pub mod Sessions
pub mod UserTargets
unfoldable pub use Db.*
pub mod Enabled
