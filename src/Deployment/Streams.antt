-- ===== src/Deployment/Streams.antt =====
-- The requests of HTTP/2 that `msg_verdict` of hyper-fast-path/src/fast_path.bpf.c answers with what
-- hyper-fast-path/src/fast_path.rs, `FastPath::attach`, has loaded.
use hyper_fast_path.Prelude.{
  ℕ, ◌^◌, ◌≤◌, ◌<◌, Bool, true, false, not, ◌||◌, ◌&&◌, ◌++◌, ◌≡◌, refl, sym, ap, ◌∙◌, arith,
  Option, none, some, length, length-append, ltb, leb, ◌==◌, if◌then◌else◌,
}
use hyper_fast_path.Prelude.Bytes.{Bytes}
use hyper_fast_path.FastPath.Attach.{padded, max_route_path}
use hyper_fast_path.Kernel.Message.{IsDocumented}
use hyper_fast_path.Kernel.Willing.{IsWilling}
use hyper_fast_path.Kernel.Flow.{Flow}
use hyper_fast_path.Kernel.Sync.{max_sync_entries}
use hyper_fast_path.Kernel.Serve.{Serving, served, body_len_of}
use hyper_fast_path.Kernel.Completion.{serve_route-served}
use hyper_fast_path.Kernel.HandOver.{Conn, Passing}
use hyper_fast_path.Kernel.Verdict.{
  Env, H1Parsed, H2Parsed, Processed, answered, after_serving, try_serve_route, is_positive,
  has_request, handshaken, h2_handshaked, servable_path, h2_len, hand_to_user, verdict_frame,
  left_alone, verdict_request, msg_verdict,
}
use hyper_fast_path.Kernel.Answering.{row, IsLoaded}
use hyper_fast_path.Deployment.Frames.{IsFull, h2-is_servable}

try_serve_route-served_h2 :
    (env : Env) (fc : Flow) (path a b : Bytes) (sid idx : ℕ)
    → IsDocumented env.h
    → IsWilling env.h
    → IsLoaded env
    → env.readable ≡ true
    → 0 < length path
    → length path ≤ max_route_path
    → env.route_idx (padded path) ≡ some idx
    → IsFull fc (row env idx)
    → (sid == 0) ≡ false
    → 0 < length a
    → length (a ++ b) < 2 ^ 31
    → (try_serve_route env (some fc) path sid (length a) (a ++ b)).outcome ≡ served
unfolding try_serve_route
try_serve_route-served_h2 env fc path a b sid idx d y i re n l e full z s u =
    let checked : (length path == 0 || (ltb max_route_path (length path) || not env.readable))
        ≡ false =
      ground (arith, re) in
    let sized : 0 < body_len_of (row env idx) sid = rw z full.some_len in
    rw (try_serve_route, checked, e)
      (serve_route-served env.h env.arena (some fc) (row env idx) sid a b d y u
        (i.low (padded path) idx sid e) (i.within (padded path) idx sid e sized)
        (h2-is_servable fc (row env idx) sid a b z full.some_len full.len_fits full.room s))

-- What a frame has to look like, apart from its path: it is a request on a stream, the handshake is
-- over with it, the table before it can be replayed, and it is all there.
pub record IsRequest (state : ℕ) (f : H2Parsed) (a b : Bytes) : Type 0 where
  pub request : has_request f ≡ true
  pub after_handshake : h2_handshaked ≤ handshaken state f
  pub replayable : f.dt_count_before ≤ max_sync_entries
  pub on_stream : (f.sid == 0) ≡ false
  pub whole : length a ≡ h2_len f
  pub some_bytes : 0 < length a
  pub fits : length (a ++ b) < 2 ^ 31

if_true : (c : Bool) (o : Option Bytes) → c ≡ true → (if c then o else none) ≡ o
if_true c o e = rw e refl

IsRequest-servable_path :
    (state : ℕ) (f : H2Parsed) (a b path : Bytes)
    → IsRequest state f a b
    → f.path ≡ some path
    → servable_path (handshaken state f) f ≡ some path
IsRequest-servable_path state f a b path c e =
    if_true
      (has_request f
        && (leb h2_handshaked (handshaken state f) && leb f.dt_count_before max_sync_entries))
      f.path
      (all (has_request f) (handshaken state f) f.dt_count_before c.request c.after_handshake
        c.replayable)
    ∙ e
  where
    all :
        (r : Bool) (m n : ℕ)
        → r ≡ true
        → h2_handshaked ≤ m
        → n ≤ max_sync_entries
        → (r && (leb h2_handshaked m && leb n max_sync_entries)) ≡ true
    all r m n e h l = rw e (ground (arith, h, l))

after_serving-answered :
    (s : Serving) (conn : Conn) (on_its_way : Passing → Processed) (len : ℕ)
    → s.outcome ≡ served
    → (after_serving s conn true on_its_way len).verdict ≡ answered s.applied
after_serving-answered s conn on_its_way len e = rw e refl

positive : (n : ℕ) → 0 < n → n < 2 ^ 31 → is_positive n ≡ true
positive n h l = ground arith

verdict_frame-answered :
    (env : Env) (state : ℕ) (conn : Conn) (f : H2Parsed) (path a b : Bytes)
    → IsRequest state f a b
    → f.path ≡ some path
    → (try_serve_route env conn.flow path f.sid (length a) (a ++ b)).outcome ≡ served
    → (k : ℕ) × ((verdict_frame env state conn f (a ++ b)).verdict ≡ answered k)
unfolding verdict_frame
verdict_frame-answered env state conn f path a b c e s =
    rw
      (
        verdict_frame,
        IsRequest-servable_path state f a b path c e,
        ← c.whole,
        positive (length a) c.some_bytes (omega (arith, c.fits, length-append a b)),
      )
      (
        _,
        after_serving-answered (try_serve_route env conn.flow path f.sid (length a) (a ++ b)) _
            (hand_to_user env f.dt_count_before) (length a) s,
      )

msg_verdict-frame :
    (env : Env) (conn : Conn) (state : ℕ) (h1 : Option H1Parsed) (f : H2Parsed) (msg : Bytes)
    → conn.state ≡ some state
    → msg_verdict env conn h1 (some f) msg ≡ verdict_frame env state conn f msg
unfolding msg_verdict
msg_verdict-frame env conn state h1 f msg e =
    ap
      (λ (o : Option ℕ). elim o [
        | none ↦ elim h1 [ none ↦ left_alone conn msg | some g ↦ verdict_request env conn g msg ]
        | some n ↦ verdict_frame env n conn f msg
      ])
      e

-- A complete request on a connection with an entry of its own is answered, if the index leads from its
-- path to a row that has a response for it.
pub msg_verdict-answered_h2 :
    (env : Env) (conn : Conn) (fc : Flow) (state : ℕ) (h1 : Option H1Parsed) (f : H2Parsed)
    (path a b : Bytes) (idx : ℕ)
    → IsDocumented env.h
    → IsWilling env.h
    → IsLoaded env
    → env.readable ≡ true
    → 0 < length path
    → length path ≤ max_route_path
    → env.route_idx (padded path) ≡ some idx
    → IsFull fc (row env idx)
    → IsRequest state f a b
    → conn.state ≡ some state
    → conn.flow ≡ some fc
    → f.path ≡ some path
    → (k : ℕ) × ((msg_verdict env conn h1 (some f) (a ++ b)).verdict ≡ answered k)
msg_verdict-answered_h2 env conn fc state h1 f path a b idx d y i re n l e full c st fl asked =
    let s =
      try_serve_route-served_h2 env fc path a b f.sid idx d y i re n l e full c.on_stream
        c.some_bytes c.fits in
    let (k, v) = verdict_frame-answered env state conn f path a b c asked (rw (sym fl) at s) in
    (k, ap (λ (r : Processed). r.verdict) (msg_verdict-frame env conn state h1 f (a ++ b) st) ∙ v)
