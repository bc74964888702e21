-- ===== src/Listener/FlowHandle.antt =====
-- hyper-fast-path/src/listener.rs, `FlowHandle`: the bytes served out of band that the server's
-- codec has not been told about, in an `AtomicU32`, which wraps.
use hyper_fast_path.Prelude.{ℕ, ◌+◌, ◌%◌, ◌^◌}

pub record FlowHandle : Type 0 where
  pub sent : ℕ

abbrev pub empty : FlowHandle
empty = record { sent = 0 }

-- `take`: `swap(0)`.
unfoldable pub take : FlowHandle → ℕ × FlowHandle
take h = (h.sent, record { sent = 0 })

-- `add`: `fetch_add`.
unfoldable pub add : FlowHandle → ℕ → FlowHandle
add h sent = record { sent = (h.sent + sent) % 2 ^ 32 }
