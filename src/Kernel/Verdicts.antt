-- ===== src/Kernel/Verdicts.antt =====
-- About `msg_verdict` of hyper-fast-path/src/fast_path.bpf.c on an HTTP/2 connection.
use hyper_fast_path.Prelude.{ℕ, ◌≤◌, Bool, true, false, List, [], Option, some, ◌≡◌}
use hyper_fast_path.Prelude.Bytes.{Bytes}
use hyper_fast_path.Http2.Frame.{Frame}
use hyper_fast_path.Kernel.Message.{IsDocumented}
use hyper_fast_path.Kernel.Flow.{Flow}
use hyper_fast_path.Kernel.Sync.{max_sync_buf, max_sync_body, render_dt_sync}
use hyper_fast_path.Kernel.HandOver.{Conn}
use hyper_fast_path.Kernel.Telling.{Told}
use hyper_fast_path.Kernel.Verdict.{Env, Verdict, dropped, answered, handed, Processed}

-- What the verdicts are told apart by.
abbrev is_handed : Verdict → Bool
is_handed dropped = false
is_handed (answered n) = false
is_handed (handed n) = true

module _ (env : Env) (d : IsDocumented env.h)
    (pulls_some : (start end : ℕ) → (w : ℕ) × (env.h.pulls start end ≡ some w))
    (b : max_sync_body env.field_maxlen ≤ max_sync_buf) where
  abbrev table : ℕ → Option Bytes
  table n = render_dt_sync env.field_maxlen env.get_dt_entry n []

  -- What `Told` says of the frame's message, with the result of the program.
  abbrev ToldOf : ℕ → List Frame → Conn → Processed → Type 0
  ToldOf n fs conn r = Told conn.dirty conn.flow (table n) fs r.conn r.msg
