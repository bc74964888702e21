-- ===== src/FastPath.antt =====
-- hyper-fast-path/src/fast_path.rs: the responses are rendered and laid out for the eBPF program.
pub mod Render
pub mod Attach
pub mod Pieces
pub mod Sizes
pub mod Headers
pub mod Layout
pub mod Preparation
pub mod Arena
pub mod Keys
pub mod Index
pub mod Provenance
pub mod Table
pub mod Rendering
pub mod Success
pub mod Loading
pub mod Order
pub mod Attaching
