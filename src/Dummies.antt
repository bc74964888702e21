-- ===== src/Dummies.antt =====
-- hyper-fast-path/src/dummies.rs: the sockets lent to the eBPF program.
pub mod Pool
pub mod Recycling
pub mod Resets
pub mod Filling
pub mod Recycler
pub mod Parsers
pub mod Lookups
pub mod Sharing
pub mod Interleaving
