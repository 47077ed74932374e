-- ===== src/Hub.antt =====
-- crates/telepair-gateway/src/session_hub.rs and the slot of recording_writer.rs: the live sessions
-- of the gateway. `Scrollback` and `Recorder` are the buffers of a session, `Live` a session and
-- its methods, `Sessions` the map of sessions that the hub guards by its lock.
pub mod Scrollback
pub mod Recorder
pub mod Live
pub mod Sound
pub mod Sessions
pub mod Reaping
pub mod Reachable
pub mod Attach
pub mod Presence
