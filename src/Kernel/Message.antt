-- ===== src/Kernel/Message.antt =====
-- The message helpers that hyper-fast-path/src/fast_path.bpf.c calls. A message is its bytes. What
-- the kernel's helpers do on a message is a parameter, as far as they may fail.
use hyper_fast_path.Prelude.{
  ℕ, ◌-◌, ◌≤◌, Bool, ◌++◌, Option, some, ◌≡◌, ◌∙◌, refl, length, drop-append, length-append, arith,
}
use hyper_fast_path.Prelude.Bytes.{Bytes, copy_at, copy_at-start}

pub record Helpers : Type 0 where
  -- `bpf_msg_push_data(off, len)`: the bytes that it puts at `off`, whatever they hold
  pub pushes : ℕ → ℕ → Option Bytes
  -- `bpf_msg_pull_data(start, end)`: how many bytes from `start` on it makes addressable
  pub pulls : ℕ → ℕ → Option ℕ
  -- `bpf_msg_pop_data(off, len)`
  pub pops : ℕ → ℕ → Bool
  -- `bpf_msg_redirect_hash` to the client's socket
  pub redirects : Bool

-- What is documented of the helpers: a push puts in as many bytes as it is asked for, and a pull
-- that succeeds makes the range addressable.
pub record IsDocumented (h : Helpers) : Type 0 where
  pub pushes_all : (off len : ℕ) (b : Bytes) → h.pushes off len ≡ some b → length b ≡ len
  pub pulls_all : (start end w : ℕ) → h.pulls start end ≡ some w → end - start ≤ w

-- A write over the bytes that were pushed in front of a message.
pub copy_at-over :
    (src pushed msg : Bytes)
    → length pushed ≡ length src
    → copy_at (pushed ++ msg) 0 src ≡ src ++ msg
copy_at-over src pushed msg e =
    copy_at-start src (pushed ++ msg) (omega (arith, length-append pushed msg, e))
    ∙ rw (← e, drop-append pushed msg) refl
