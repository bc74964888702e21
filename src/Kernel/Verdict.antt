-- ===== src/Kernel/Verdict.antt =====
-- hyper-fast-path/src/fast_path.bpf.c, lines 857 to 876 and 885 to 1132: what becomes of a message
-- that a client sent. What the parsers find in it is a parameter, and so is the route index.
use hyper_fast_path.Prelude.{
  ℕ, ◌+◌, ◌-◌, ◌%◌, ◌^◌, Bool, true, false, not, ◌||◌, ◌&&◌, List, [], Option, none, some, length,
  get_or, min, ltb, leb, ◌==◌, if◌then◌else◌,
}
use hyper_fast_path.Prelude.Bytes.{Bytes}
use hyper_fast_path.FastPath.Attach.{Route, no_route, max_routes, max_route_path, padded}
use hyper_fast_path.Kernel.Message.{Helpers}
use hyper_fast_path.Kernel.Flow.{
  Flow, opening, is_negative, h2_settings_frame, h2_window_update_frame,
}
use hyper_fast_path.Kernel.Sync.{HeaderField, max_sync_entries}
use hyper_fast_path.Kernel.Serve.{Serving, served, declined, broken, serve_route}
use hyper_fast_path.Kernel.HandOver.{Conn, Passing, tracked, hand_over, forward_len}

abbrev pub h2_upgraded : ℕ
h2_upgraded = 1

abbrev pub h2_handshaked : ℕ
h2_handshaked = 2

-- What the program is loaded with and what surrounds it: the helpers, the arena, the table of the
-- routes, the index of their keys, whether a path can be read, the mirror of the dynamic table and
-- the length to which the parser cuts a field.
pub record Env : Type 0 where
  pub h : Helpers
  pub arena : Bytes
  pub routes : List Route
  pub route_idx : Bytes → Option ℕ
  pub readable : Bool
  pub get_dt_entry : ℕ → Option HeaderField
  pub field_maxlen : ℕ

-- What the HTTP/2 parser finds: the length of the header block, the frame's stream, type and flags,
-- the number of entries in the table before it, the number in its content-length and its path.
pub record H2Parsed : Type 0 where
  pub len : ℕ
  pub sid : ℕ
  pub kind : ℕ
  pub flags : ℕ
  pub dt_count_before : ℕ
  pub content_length : Option ℕ
  pub path : Option Bytes

-- What the HTTP/1.1 parser finds: the length of the header block, whether it is the preface of
-- HTTP/2, the number in its Content-Length and its path.
pub record H1Parsed : Type 0 where
  pub len : ℕ
  pub is_preface : Bool
  pub content_length : Option ℕ
  pub path : Option Bytes

-- What the program returns: a drop, a response sent to the client, or so many bytes of the stream
-- for user space.
pub data Verdict : Type 0 where
  dropped : Verdict
  answered : ℕ → Verdict
  handed : ℕ → Verdict

pub record Processed : Type 0 where
  pub verdict : Verdict
  pub conn : Conn
  pub msg : Bytes

-- `parse_content_length`, on the number that `bpf_strtoul` reads: an `int`, -1 if there is none.
abbrev pub parse_content_length : Option ℕ → ℕ
parse_content_length none = 2 ^ 32 - 1
parse_content_length (some n) = if n == 0 then 2 ^ 32 - 1 else n % 2 ^ 32

-- The message's length with the body's, if the result is above 0.
abbrev pub with_body : ℕ → Option ℕ → ℕ
with_body len n =
    let res = parse_content_length n in
    if is_negative res || res == 0 then len else (len + res) % 2 ^ 32

-- A request that no route was found for.
abbrev pub no_route_found : Option Flow → Bytes → Serving
no_route_found fc msg = record { outcome = declined; msg = msg; flow = fc; applied = 0 }

-- `try_serve_route`.
unfoldable pub try_serve_route : Env → Option Flow → Bytes → ℕ → ℕ → Bytes → Serving
try_serve_route env fc path sid req_len msg =
    let found : Serving = elim (env.route_idx (padded path)) [
      | none ↦ no_route_found fc msg
      | some idx ↦
          serve_route env.h env.arena fc (get_or env.routes (min idx (max_routes - 1)) no_route) sid
            req_len msg
    ] in
    if length path == 0 || (ltb max_route_path (length path) || not env.readable)
    then no_route_found fc msg
    else found

-- Whether a frame acknowledges the server's SETTINGS, and the state after it.
abbrev pub handshaken : ℕ → H2Parsed → ℕ
handshaken state f =
    if f.kind == h2_settings_frame && (f.flags % 2 == 1 && ltb state h2_handshaked)
    then h2_handshaked
    else state

abbrev pub has_request : H2Parsed → Bool
has_request f = not (f.kind == h2_settings_frame) && not (f.kind == h2_window_update_frame)

-- The path that a frame asks for, if it may be answered from the fast path.
abbrev pub servable_path : ℕ → H2Parsed → Option Bytes
servable_path state f =
    if has_request f && (leb h2_handshaked state && leb f.dt_count_before max_sync_entries)
    then f.path
    else none

abbrev pub h2_len : H2Parsed → ℕ
h2_len f = if has_request f then with_body f.len f.content_length else f.len

-- The end of `msg_verdict` for HTTP/2: the message goes to user space, or nowhere.
unfoldable pub hand_to_user : Env → ℕ → Passing → Processed
hand_to_user env n p = elim (hand_over env.field_maxlen env.get_dt_entry env.h n p) [
  | none ↦ record {
    verdict = dropped;
    conn = record p.conn { flow = tracked env.h p.msg p.conn.flow };
    msg = [];
  }
  | some q ↦ record { verdict = handed (forward_len q); conn = q.conn; msg = q.msg }
]

-- What `try_serve_route` left, on a connection: dropped, answered or on its way to user space. An
-- answer may have changed the mirrored table.
abbrev pub after_serving : Serving → Conn → Bool → (Passing → Processed) → ℕ → Processed
after_serving s conn is_h2 on_its_way len = elim s.outcome [
  | broken ↦ record { verdict = dropped; conn = conn; msg = [] }
  | served ↦ record {
    verdict = answered s.applied;
    conn = record conn { flow = s.flow; dirty = is_h2 || conn.dirty };
    msg = s.msg;
  }
  | declined ↦ on_its_way (record { conn = conn; msg = s.msg; msg_len = len })
]

-- Whether so many bytes are above 0, as a signed number.
abbrev pub is_positive : ℕ → Bool
is_positive len = not (is_negative len || len == 0)

-- `msg_verdict` on a frame of an HTTP/2 connection that the parser took.
unfoldable pub verdict_frame : Env → ℕ → Conn → H2Parsed → Bytes → Processed
verdict_frame env state conn f msg =
    let after = handshaken state f in
    let conn' = record conn { state = some after } in
    let on_its_way = hand_to_user env f.dt_count_before in
    let straight = on_its_way (record { conn = conn'; msg = msg; msg_len = h2_len f }) in
    elim (servable_path after f) [
      | none ↦ straight
      | some path ↦
          if is_positive (h2_len f)
          then after_serving (try_serve_route env conn.flow path f.sid (h2_len f) msg) conn' true
              on_its_way (h2_len f)
          else straight
    ]

-- A message that no parser took goes to user space, and so does the rest of the stream.
abbrev pub left_alone : Conn → Bytes → Processed
left_alone conn msg = record { verdict = handed 0xFFFFFFFF; conn = conn; msg = msg }

abbrev pub plain_to_user : Passing → Processed
plain_to_user p = record { verdict = handed (forward_len p); conn = p.conn; msg = p.msg }

-- `msg_verdict` on a request of an HTTP/1.1 connection that the parser took.
unfoldable pub verdict_request : Env → Conn → H1Parsed → Bytes → Processed
verdict_request env conn f msg =
    let len = with_body f.len f.content_length in
    let straight = plain_to_user (record { conn = conn; msg = msg; msg_len = len }) in
    let upgraded = record conn { state = some h2_upgraded; flow = some opening } in
    if not (is_positive f.len)
    then plain_to_user (record { conn = conn; msg = msg; msg_len = f.len })
    else if f.is_preface
    then record { verdict = handed 24; conn = upgraded; msg = msg }
    else elim f.path [
      | none ↦ straight
      | some path ↦
          if is_positive len
          then after_serving (try_serve_route env conn.flow path 0 len msg) conn false plain_to_user
              len
          else straight
    ]

-- `msg_verdict` behind the lookup of the connection that its dummy is lent to, on what the parser of
-- the connection's protocol finds in the message. The count of upgraded connections is left out.
unfoldable pub msg_verdict : Env → Conn → Option H1Parsed → Option H2Parsed → Bytes → Processed
msg_verdict env conn h1 h2 msg = elim conn.state [
  | none ↦ elim h1 [ none ↦ left_alone conn msg | some f ↦ verdict_request env conn f msg ]
  | some state ↦ elim h2 [
    | none ↦ left_alone conn msg
    | some f ↦ verdict_frame env state conn f msg
  ]
]
