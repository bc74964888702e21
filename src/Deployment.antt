-- ===== src/Deployment.antt =====
-- hyper-fast-path/src/fast_path.rs and hyper-fast-path/src/fast_path.bpf.c together: the program that
-- `FastPath::attach` loads, answering requests.
pub mod Rows
pub mod Responses
pub mod Requests
pub mod Readiness
pub mod Frames
pub mod Streams
pub mod Listed
pub mod ListedStreams
