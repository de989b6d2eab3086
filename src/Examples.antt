-- ===== src/Examples.antt =====
-- mosquitto-rs/examples: a program on the low-level client, and one on the asynchronous client.
pub mod Publish
pub mod Counting
pub mod Async
