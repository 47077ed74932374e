-- ===== src/Core.antt =====
-- crates/telepair-core: the shared vocabulary of the program. `Role` is permission.rs, `Failure`
-- is error.rs, `Status` holds the enumerations of session.rs and recording.rs with their text
-- form, `Records` the structs of session.rs and recording.rs, `AuditEvents` the kinds of events of audit.rs,
-- `Protocol` the frames of protocol.rs.
pub mod Role
pub mod Failure
pub mod Status
pub mod Records
pub mod AuditEvents
pub mod Protocol
pub mod RoundTrip
