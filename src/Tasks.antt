-- ===== src/Tasks.antt =====
-- The three tasks of the agent: get_license_task/, process_killer_task/ and event_sink_task/. A task
-- runs `svc` on a thread of its own when its timer fires; `World` is what it sees and changes.
pub mod Shared
pub mod Saving
pub mod GetLicense
pub mod ProcessKiller
pub mod EventSink
