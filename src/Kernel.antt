-- ===== src/Kernel.antt =====
-- hyper-fast-path/src/fast_path.bpf.c: the eBPF program.
pub mod StreamIds
pub mod Message
pub mod Sync
pub mod Literals
pub mod Replay
pub mod SyncFrames
pub mod Flow
pub mod FlowWindows
pub mod Chunk
pub mod Serve
pub mod Responses
pub mod Answers
pub mod Serving
pub mod Refusals
pub mod Spending
pub mod Willing
pub mod Completion
pub mod HandOver
pub mod Verdict
pub mod Forwarding
pub mod Telling
pub mod Verdicts
pub mod Answering
pub mod Rendered
pub mod Lending
pub mod Lent
pub mod Owned
pub mod Taken
pub mod Ownership
pub mod Dispatch
