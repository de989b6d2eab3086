-- ===== src/Router.antt =====
-- mosquitto-rs/src/router.rs: routes, extractors and the dispatch of messages to handlers.
pub mod Topic
pub mod Levels
pub mod Matching
pub mod Request
pub mod Extract
pub mod Dispatch
pub mod Handling
pub mod Deserialize
pub mod Subscribing
pub mod Table
pub mod Params
pub mod Routing
