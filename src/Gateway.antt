-- ===== src/Gateway.antt =====
-- crates/telepair-gateway/src/ws.rs and http.rs: the connection of one client. `Socket` is the loop
-- that reads from it, `Forwarder` the task that writes to it.
pub mod World
pub mod Socket
pub mod Forwarder
pub mod Accounts
pub mod Targets
pub mod Admission
pub mod Roles
pub mod Recordings
pub mod Sessions
