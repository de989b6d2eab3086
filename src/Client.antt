-- ===== src/Client.antt =====
-- mosquitto-rs/src/client.rs: the asynchronous client.
pub mod Data
pub mod State
pub mod Callbacks
pub mod Requests
pub mod Setup
pub mod Futures
pub mod Acknowledge
pub mod Assign
pub mod Runs
pub mod Elsewhere
pub mod Keeps
pub mod Progress
pub mod Invariant
pub mod Delivery
pub mod Connecting
pub mod Unmoved
pub mod Connected
pub mod Outcome
pub mod Slot
pub mod Debug
pub mod Printed
pub mod Incoming
pub mod Stream
pub mod Connect
pub mod Start
pub mod Ended
pub mod Reconnect
pub mod Registered
pub mod Settings
