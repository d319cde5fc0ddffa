-- ===== src/Tests.antt =====
-- Concrete inputs, runs of the model on them, and the theorems at these inputs.
pub mod Json
pub mod Server
pub mod Calls
pub mod Bridge
pub mod Messages
pub mod Ros1
pub mod Lifecycle
pub mod Topics
pub mod Contract
pub mod Logging
pub mod Requests
pub mod Locks
pub mod Construction
pub mod Connection
pub mod Flow
pub mod Refused
