-- ===== src/Kernel/Serve.antt =====
-- hyper-fast-path/src/fast_path.bpf.c, lines 742 to 855: a request is overwritten with a response
-- and sent to the client.
use hyper_fast_path.Prelude.{
  ℕ, zero, suc, ◌+◌, ◌-◌, ◌*◌, ◌%◌, ◌^◌, Bool, true, false, not, ◌||◌, ◌&&◌, ◌++◌, Option, none,
  some, length, take, drop, min, ltb, leb, ◌==◌, if◌then◌else◌,
}
use hyper_fast_path.Prelude.Bytes.{Bytes}
use hyper_fast_path.FastPath.Attach.{Route, max_sid_offs}
use hyper_fast_path.Kernel.StreamIds.{max_route_body, write_sids}
use hyper_fast_path.Kernel.Message.{Helpers}
use hyper_fast_path.Kernel.Flow.{Flow, is_negative}
use hyper_fast_path.Kernel.Chunk.{chunk, copy_chunk}

abbrev pub max_chunks : ℕ
max_chunks = 14

-- The results 0, -1 and -2 of `serve_route`.
pub data Outcome : Type 0 where
  served : Outcome
  declined : Outcome
  broken : Outcome

-- A step of `serve_route` either goes on with the message or returns, with -1 or -2.
pub data Stage : Type 0 where
  go : Bytes → Stage
  decline : Bytes → Stage
  break_off : Bytes → Stage

abbrev pub then_go : Stage → (Bytes → Stage) → Stage
then_go (go msg) f = f msg
then_go (decline msg) f = decline msg
then_go (break_off msg) f = break_off msg

-- What `serve_route` leaves: its result, the message, and how many bytes the verdict is applied to.
pub record Serving : Type 0 where
  pub outcome : Outcome
  pub msg : Bytes
  pub flow : Option Flow
  pub applied : ℕ

abbrev pub push_at : Bytes → ℕ → Bytes → Bytes
push_at msg off room = take off msg ++ (room ++ drop off msg)

-- The loop that grows the message, with so many turns left.
unfoldable pub grow : Helpers → ℕ → ℕ → ℕ → ℕ → Bool → Bytes → Stage
grow h target orig req_len zero first msg = go msg
grow h target orig req_len (suc turns) first msg =
    let n = min (target - length msg) chunk in
    let end = req_len + (length msg - orig) in
    if leb target (length msg) then go msg else elim (h.pushes end n) [
      | none ↦ if first then decline msg else break_off msg
      | some room ↦ grow h target orig req_len turns false (push_at msg end room)
    ]

-- The request takes up as many bytes as the response needs.
unfoldable pub resize : Helpers → ℕ → ℕ → Bytes → Stage
resize h body_len req_len msg =
    let target = (length msg + (body_len - req_len)) % 2 ^ 32 in
    if ltb req_len body_len
    then then_go (grow h target (length msg) req_len max_chunks true msg)
        (λ m. if length m == target then go m else break_off m)
    else if ltb body_len req_len
    then if h.pops body_len (req_len - body_len)
      then go (take body_len msg ++ drop req_len msg)
      else decline msg
    else go msg

-- The loop that copies the response, with so many turns left.
unfoldable pub copy_response : Helpers → Bytes → ℕ → ℕ → ℕ → ℕ → Bytes → Stage
copy_response h arena src body_len zero c msg = go msg
copy_response h arena src body_len (suc turns) c msg =
    let off = c * chunk in
    let len = min (body_len - off) chunk in
    if leb body_len off then go msg else elim (h.pulls off (off + len)) [
      | none ↦ break_off msg
      | some window ↦ elim (copy_chunk arena ((src + off) % 2 ^ 32) msg off window len) [
        | none ↦ break_off msg
        | some m ↦ copy_response h arena src body_len turns (suc c) m
      ]
    ]

-- Whether a pull makes four bytes addressable.
abbrev pub reaches : Helpers → ℕ → ℕ → Bool
reaches h start end = elim (h.pulls start end) [ none ↦ false | some window ↦ leb 4 window ]

-- The stream's id in the frames of an HTTP/2 response.
unfoldable pub stamp : Helpers → Route → ℕ → Bytes → Stage
stamp h r sid msg =
    if sid == 0
    then go msg
    else elim (write_sids (reaches h) msg (take (min r.h2_sid_count max_sid_offs) r.h2_sid_offs)
        sid) [ none ↦ break_off msg | some m ↦ go m ]

unfoldable pub redirect : Helpers → Bytes → Stage
redirect h msg = if h.redirects then go msg else break_off msg

-- Whether the client has room for a response.
abbrev pub has_room : Flow → ℕ → Bool
has_room fc data_len =
    not
      (is_negative fc.conn_window || (ltb fc.conn_window data_len || ltb fc.stream_window data_len))

-- The client's window is spent, and so is the server's share of it.
abbrev pub spend : Flow → ℕ → Flow
spend fc data_len = record fc {
  conn_window = ((fc.conn_window + 2 ^ 32) - data_len) % 2 ^ 32;
  unreported = (fc.unreported + data_len) % 2 ^ 32;
}

abbrev pub body_len_of : Route → ℕ → ℕ
body_len_of r sid = if sid == 0 then r.body_len else r.h2_body_len

abbrev pub body_off_of : Route → ℕ → ℕ
body_off_of r sid = if sid == 0 then r.body_off else r.h2_body_off

-- The steps of `serve_route` that rewrite the message and send it.
abbrev pub rewrite_and_send : Helpers → Bytes → Route → ℕ → ℕ → Bytes → Stage
rewrite_and_send h arena r sid req_len msg =
    then_go (resize h (body_len_of r sid) req_len msg) (λ m.
      then_go (copy_response h arena (body_off_of r sid) (body_len_of r sid) max_chunks 0 m)
        (λ m. then_go (stamp h r sid m) (redirect h)))

-- The end of `serve_route`: on success, what was sent is taken out of the window.
abbrev pub settle_up : Option Flow → Route → ℕ → Stage → Serving
settle_up fc r body_len (decline msg) = record {
  outcome = declined;
  msg = msg;
  flow = fc;
  applied = 0;
}
settle_up fc r body_len (break_off msg) = record {
  outcome = broken;
  msg = msg;
  flow = fc;
  applied = 0;
}
settle_up none r body_len (go msg) = record {
  outcome = served;
  msg = msg;
  flow = none;
  applied = body_len;
}
settle_up (some fc) r body_len (go msg) = record {
  outcome = served;
  msg = msg;
  flow = some (spend fc r.h2_data_len);
  applied = body_len;
}

-- An HTTP/1.1 response leaves the entry of `flow_ctl` alone.
abbrev pub finish : Bool → Option Flow → Route → ℕ → Stage → Serving
finish true fc r body_len s = record (settle_up none r body_len s) { flow = fc }
finish false fc r body_len s = settle_up fc r body_len s

-- Whether a response is in bounds.
abbrev pub is_sized : ℕ → Bool
is_sized body_len = not (body_len == 0 || ltb max_route_body body_len)

-- Whether the connection's entry is there and has room for a response; that of HTTP/1.1 needs none.
abbrev pub is_open : Option Flow → Route → ℕ → Bool
is_open none r sid = sid == 0
is_open (some fc) r sid = sid == 0 || has_room fc r.h2_data_len

-- Whether the request is all there.
abbrev pub is_whole : ℕ → Bytes → Bool
is_whole req_len msg = not (req_len == 0 || ltb (length msg) req_len)

-- The checks of `serve_route` before it touches the message.
abbrev pub is_servable : Option Flow → Route → ℕ → ℕ → Bytes → Bool
is_servable fc r sid req_len msg =
    is_sized (body_len_of r sid) && (is_open fc r sid && is_whole req_len msg)

-- `serve_route`, on the connection's entry of `flow_ctl`, if it has one.
unfoldable pub serve_route : Helpers → Bytes → Option Flow → Route → ℕ → ℕ → Bytes → Serving
serve_route h arena fc r sid req_len msg =
    if not (is_servable fc r sid req_len msg)
    then record { outcome = declined; msg = msg; flow = fc; applied = 0 }
    else finish (sid == 0) fc r (body_len_of r sid) (rewrite_and_send h arena r sid req_len msg)
