-- ===== src/Server.antt =====
-- hyper-fast-path/src/server.rs: the connection handler that drives the h2 codec, and which
-- handler a connection gets.
pub mod Turns
pub mod Contract
pub mod Responding
pub mod Delivery
pub mod Accepting
