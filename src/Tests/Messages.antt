-- ===== src/Tests/Messages.antt =====
-- Messages of an HTTP/2 connection through the eBPF program, hyper-fast-path/src/fast_path.bpf.c.
use native.Mathlib.Omega.{arith}
use hyper_fast_path.Prelude.{
  ℕ, zero, suc, ◌+◌, ◌^◌, ◌<◌, true, [], ◌∷◌, ◌++◌, none, some, min, get_or, refl, Bool-cases, inl,
  inr, ◌==◌, if◌then◌else◌,
}
use hyper_fast_path.Prelude.Bytes.{Bytes, codes, to_be_bytes, copy_at, bytes_eq}
use hyper_fast_path.Http2.Frame.{Frame, encode}
use hyper_fast_path.FastPath.Attach.{no_route, padded}
use hyper_fast_path.Kernel.StreamIds.{write_sid, write_sids}
use hyper_fast_path.Kernel.Chunk.{loads, copy_blocks, copy_bytes, copy_chunk}
use hyper_fast_path.Kernel.Serve.{
  serve_route, grow, resize, copy_response, stamp, redirect, body_len_of, body_off_of,
}
use hyper_fast_path.Kernel.Answers.{AllWithin, sids_for}
use hyper_fast_path.Kernel.HandOver.{Conn}
use hyper_fast_path.Kernel.Verdict.{Env, H2Parsed, try_serve_route, verdict_frame, msg_verdict}
use hyper_fast_path.Kernel.Answering.{IsLoaded, Answered, msg_verdict-Answered}
use hyper_fast_path.Tests.Programs.{helpers, helpers-IsDocumented, arena, route, flow, get_dt_entry}

abbrev pub env : Env
env = record {
  h = helpers;
  arena = arena;
  routes = route ∷ [];
  route_idx = λ key. if bytes_eq key (padded (codes "/")) then some 0 else none;
  readable = true;
  get_dt_entry = get_dt_entry;
  field_maxlen = 128;
}

-- A connection that the program has answered on.
abbrev conn : Conn
conn = record { state = some 2; flow = some flow; dirty = true }

-- A request for a path.
abbrev get : Bytes → H2Parsed
get path = record {
  len = 12;
  sid = 5;
  kind = 1;
  flags = 5;
  dt_count_before = 1;
  content_length = none;
  path = some path;
}

abbrev request_frame : Frame
request_frame = record { kind = 1; flags = 5; sid = 5; body = codes "abc" }

row_low :
    (i sid : ℕ)
    → body_off_of (get_or (route ∷ []) i no_route) sid
        + body_len_of (get_or (route ∷ []) i no_route) sid
      < 2 ^ 32
row_low zero sid = elim (Bool-cases (sid == 0)) [
  | inl e ↦ rw e (omega arith)
  | inr e ↦ rw e (omega arith)
]
row_low (suc i) sid = elim (Bool-cases (sid == 0)) [
  | inl e ↦ rw e (omega arith)
  | inr e ↦ rw e (omega arith)
]

row_within :
    (i sid : ℕ)
    → AllWithin
        (sids_for (get_or (route ∷ []) i no_route) sid)
        (body_len_of (get_or (route ∷ []) i no_route) sid)
row_within zero sid = elim (Bool-cases (sid == 0)) [
  | inl e ↦ rw e tt
  | inr e ↦ rw e (omega arith, tt)
]
row_within (suc i) sid = elim (Bool-cases (sid == 0)) [ inl e ↦ rw e tt | inr e ↦ rw e tt ]

env-IsLoaded : IsLoaded env
env-IsLoaded = record {
  low = λ key i sid e. row_low (min i 15) sid;
  within = λ key i sid e n. row_within (min i 15) sid;
}

-- The path of the route: the program answers.
msg_verdict-Answered_example :
    Answered env 2
      (get (codes "/"))
      (codes "x")
      (msg_verdict env conn none (some (get (codes "/"))) (encode request_frame ++ codes "x"))
unfolding msg_verdict verdict_frame try_serve_route padded bytes_eq copy_at serve_route resize grow
    copy_response copy_chunk copy_blocks copy_bytes loads stamp redirect write_sids write_sid
    to_be_bytes
msg_verdict-Answered_example =
    msg_verdict-Answered env 2 conn none (get (codes "/")) (encode request_frame) (codes "x") 11
      helpers-IsDocumented env-IsLoaded (omega arith) refl refl refl
