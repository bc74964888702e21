-- ===== src/Listener.antt =====
-- hyper-fast-path/src/listener.rs: the stream wrapper that takes the fast path's own frames out
-- of a client's byte stream.
pub mod SyncHandle
pub mod FlowHandle
pub mod Scanner
pub mod Bytewise
pub mod Bulk
pub mod Opening
pub mod Turns
pub mod Progress
pub mod Refinement
pub mod View
pub mod Stream
pub mod Session
pub mod Polling
pub mod Detection
pub mod Schedule
pub mod Induction
pub mod Barrier
pub mod FrameBytes
pub mod Frames
pub mod Delivery
