-- ===== src/Kernel/Dispatch.antt =====
-- hyper-fast-path/src/fast_path.bpf.c, lines 911 to 937: the connection that a message on a dummy
-- belongs to, and that it is the one whose client sent the message.
use hyper_fast_path.Prelude.{ℕ, false, [], Option, none, some, ◌≡◌, if◌then◌else◌}
use hyper_fast_path.Prelude.Bytes.{Bytes, bytes_eq}
use hyper_fast_path.Kernel.Verdict.{Env, H1Parsed, H2Parsed, Verdict, dropped, msg_verdict}
use hyper_fast_path.Kernel.Lending.{Pool, set_at, Step}

-- The verdict, the maps and the message that it is applied to.
pub record Handled : Type 0 where
  pub verdict : Verdict
  pub pool : Pool
  pub msg : Bytes

-- The rest of `msg_verdict`, on the connection of this key.
abbrev pub handle : Env → Bytes → Option H1Parsed → Option H2Parsed → Bytes → Pool → Handled
handle env key h1 h2 msg p =
    let r = msg_verdict env (p.conns key) h1 h2 msg in
    record {
      verdict = r.verdict;
      pool = record p { conns = set_at p.conns key r.conn };
      msg = r.msg;
    }

-- The beginning of `msg_verdict`, on a message that is sent on the dummy with these addresses.
unfoldable pub dispatch :
    Env → (Bytes → Option ℕ) → Bytes → Option H1Parsed → Option H2Parsed → Bytes → Pool → Handled
dispatch env dummy_idx dkey h1 h2 msg p = elim (dummy_idx dkey) [
  | none ↦ record { verdict = dropped; pool = p; msg = [] }
  | some dummy ↦
      if (p.dummy_owners dummy).active
      then handle env (p.dummy_owners dummy).conn h1 h2 msg p
      else record { verdict = dropped; pool = p; msg = [] }
]

-- What happens to the maps: a step of the pool, or a message, whatever the parsers find in it.
pub data Move (ip4 port : ℕ) (env : Env) (dummy_idx : Bytes → Option ℕ) : Pool → Pool → Type 0 where
  lends : {p q : Pool} → Step ip4 port p q → Move ip4 port env dummy_idx p q
  hears :
      (dkey : Bytes) (h1 : Option H1Parsed) (h2 : Option H2Parsed) (msg : Bytes) (p : Pool)
      → Move ip4 port env dummy_idx p (dispatch env dummy_idx dkey h1 h2 msg p).pool

pub data Moves (ip4 port : ℕ) (env : Env) (dummy_idx : Bytes → Option ℕ)
    : Pool → Pool → Type 0 where
  at_rest : (p : Pool) → Moves ip4 port env dummy_idx p p
  then_move :
      {p q r : Pool}
      → Moves ip4 port env dummy_idx p q
      → Move ip4 port env dummy_idx q r
      → Moves ip4 port env dummy_idx p r

-- A message was handled as one of this connection's: the verdict is that on its state, which changes
-- as the verdict says, and the state of no other connection changes.
pub record IsHandled (env : Env) (key : Bytes) (h1 : Option H1Parsed) (h2 : Option H2Parsed)
    (msg : Bytes) (p : Pool) (r : Handled) : Type 0 where
  pub verdict_eq : r.verdict ≡ (msg_verdict env (p.conns key) h1 h2 msg).verdict
  pub msg_eq : r.msg ≡ (msg_verdict env (p.conns key) h1 h2 msg).msg
  pub own : r.pool.conns key ≡ (msg_verdict env (p.conns key) h1 h2 msg).conn
  pub others : (k : Bytes) → bytes_eq k key ≡ false → r.pool.conns k ≡ p.conns k
