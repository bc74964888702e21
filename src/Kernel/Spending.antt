-- ===== src/Kernel/Spending.antt =====
-- About what `serve_route` of hyper-fast-path/src/fast_path.bpf.c takes out of a client's windows.
use hyper_fast_path.Prelude.{
  ℕ, ◌+◌, ◌%◌, ◌^◌, ◌≤◌, Bool, true, false, ◌&&◌, some, ◌==◌, ◌≡◌, refl, arith, Bool-cases, inl,
  inr,
}
use hyper_fast_path.Prelude.Bytes.{Bytes}
use hyper_fast_path.FastPath.Attach.{Route}
use hyper_fast_path.Kernel.Message.{Helpers}
use hyper_fast_path.Kernel.Flow.{Flow}
use hyper_fast_path.Kernel.FlowWindows.{IsWf}
use hyper_fast_path.Kernel.Serve.{
  Stage, go, decline, break_off, served, rewrite_and_send, serve_route, is_servable, is_sized,
  is_open, is_whole, body_len_of, finish, settle_up, spend, has_room,
}
use hyper_fast_path.Kernel.Serving.{not_served, both}

-- What a response with so many bytes of content takes out of the windows.
pub record Spent (fc : Flow) (data_len : ℕ) (after : Flow) : Type 0 where
  pub conn_spent : after.conn_window + data_len ≡ fc.conn_window
  pub stream_enough : data_len ≤ fc.stream_window
  pub stream_kept : after.stream_window ≡ fc.stream_window
  pub counted : after.unreported ≡ (fc.unreported + data_len) % 2 ^ 32
  pub wf : IsWf after

has_room-enough :
    (fc : Flow) (n : ℕ) → has_room fc n ≡ true → (n ≤ fc.conn_window) × (n ≤ fc.stream_window)
has_room-enough fc n e = (ground arith, ground arith)

spend-Spent : (fc : Flow) (n : ℕ) → IsWf fc → has_room fc n ≡ true → Spent fc n (spend fc n)
spend-Spent fc n w e =
    let enough = has_room-enough fc n e in
    record {
      conn_spent = omega (arith, enough.0, w.conn_fits);
      stream_enough = enough.1;
      stream_kept = refl;
      counted = refl;
      wf = record {
        conn_fits = omega (arith, enough.0, w.conn_fits);
        stream_fits = w.stream_fits;
        unreported_fits = omega arith;
      };
    }

settle_up-flow :
    (fc : Flow) (r : Route) (n : ℕ) (s : Stage)
    → (settle_up (some fc) r n s).outcome ≡ served
    → (settle_up (some fc) r n s).flow ≡ some (spend fc r.h2_data_len)
settle_up-flow fc r n (go m) e = refl
settle_up-flow fc r n (decline m) e = absurd (not_served e refl)
settle_up-flow fc r n (break_off m) e = absurd (not_served e refl)

is_open-has_room :
    (fc : Flow) (r : Route) (sid : ℕ)
    → (sid == 0) ≡ false
    → is_open (some fc) r sid ≡ true
    → has_room fc r.h2_data_len ≡ true
is_open-has_room fc r sid z e = rw z at e

-- If a request on an HTTP/2 stream is served, then its content fitted both windows: the connection's
-- window is smaller by exactly that much and has not gone below 0, the stream's initial window is
-- what it was, and the count of unreported bytes has grown by as much, modulo 2 ^ 32. Before, no
-- window was beyond the largest.
pub serve_route-Spent :
    (h : Helpers) (arena : Bytes) (fc : Flow) (r : Route) (sid req_len : ℕ) (msg : Bytes)
    → IsWf fc
    → (sid == 0) ≡ false
    → (serve_route h arena (some fc) r sid req_len msg).outcome ≡ served
    → (after : Flow) × ((serve_route h arena (some fc) r sid req_len msg).flow ≡ some after)
      × Spent fc r.h2_data_len after
unfolding serve_route
serve_route-Spent h arena fc r sid req_len msg w z =
    elim (Bool-cases (is_servable (some fc) r sid req_len msg)) [
      | inr n ↦ rw (serve_route, n) (λ e. absurd (not_served e refl))
      | inl n ↦
          rw (serve_route, n)
            (spent (room n) (sid == 0) z (rewrite_and_send h arena r sid req_len msg))
    ]
  where
    room : is_servable (some fc) r sid req_len msg ≡ true → has_room fc r.h2_data_len ≡ true
    room n =
        is_open-has_room fc r sid z
          (both (is_open (some fc) r sid) (is_whole req_len msg)
            (both (is_sized (body_len_of r sid)) (is_open (some fc) r sid && is_whole req_len msg)
              n).1).0

    spent :
        has_room fc r.h2_data_len ≡ true
        → (plain : Bool) → plain ≡ false
        → (s : Stage) → (finish plain (some fc) r (body_len_of r sid) s).outcome ≡ served
        → (after : Flow) × ((finish plain (some fc) r (body_len_of r sid) s).flow ≡ some after)
          × Spent fc r.h2_data_len after
    spent k true p s e = absurd (ground arith)
    spent k false p s e = (
      spend fc r.h2_data_len,
      settle_up-flow fc r (body_len_of r sid) s e,
      spend-Spent fc r.h2_data_len w k,
    )
