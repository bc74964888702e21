-- ===== src/Listener/Stream.antt =====
-- hyper-fast-path/src/listener.rs, `BeeperStream`: the protocol test and the read side. What the
-- socket returns to successive reads is an argument, a list of outcomes; behind its end the socket
-- has nothing to give. The write side goes straight to the socket.
use hyper_fast_path.Prelude.{
  ℕ, zero, suc, ◌+◌, min, Bool, true, false, not, List, [], ◌∷◌, Option, none, some, length, take,
  drop, if◌then◌else◌,
}
use hyper_fast_path.Prelude.Bytes.{Bytes}
use hyper_fast_path.Listener.FlowHandle
use hyper_fast_path.Listener.SyncHandle
use hyper_fast_path.Listener.Scanner.{State, preface, blind, Scanner, new, scan}

-- A read of the socket: up to `READ_CHUNK` bytes, and none at the end of the stream.
pub data Read : Type 0 where
  arrived : Bytes → Read
  would_block : Read
  broken : ℕ → Read

pub data Protocol : Type 0 where
  http1 http2 : Protocol

-- `Poll<io::Result<()>>`, with the bytes put into the caller's buffer. `woken` is the pending
-- result that has already woken its task, `waiting` the socket's own.
pub data Poll : Type 0 where
  ready : Bytes → Poll
  failed : ℕ → Poll
  woken waiting : Poll

pub record BeeperStream : Type 0 where
  pub inner : List Read
  pub scanner : Scanner

-- `BeeperListener::accept`, on a connection whose socket is `inner`.
abbrev pub accept : List Read → BeeperStream
accept inner = record { inner = inner; scanner = new SyncHandle.empty FlowHandle.empty }

abbrev pub is_empty : Bytes → Bool
is_empty [] = true
is_empty (c ∷ cs) = false

-- How `protocol` reads the scanner's state; `none` means that it reads on.
unfoldable pub protocol_of : State → Option Protocol
protocol_of (preface matched) = none
protocol_of blind = some http1
protocol_of _ = some http2

-- `undecided` is a stream whose socket has no more outcomes.
pub data Verdict : Type 0 where
  decided : Protocol → Verdict
  read_error : ℕ → Verdict
  undecided : Verdict

-- `BeeperStream::protocol`. A socket that would block is awaited.
unfoldable pub protocol_loop : List Read → Scanner → Verdict × BeeperStream
protocol_loop [] s = elim (protocol_of s.state) [
  | some p ↦ (decided p, record { inner = []; scanner = s })
  | none ↦ (undecided, record { inner = []; scanner = s })
]
protocol_loop (r ∷ rs) s = elim (protocol_of s.state) [
  | some p ↦ (decided p, record { inner = r ∷ rs; scanner = s })
  | none ↦ elim r [
    | would_block ↦ protocol_loop rs s
    | broken e ↦ (read_error e, record { inner = rs; scanner = s })
    | arrived chunk ↦ elim chunk [
      | [] ↦ (decided http1, record { inner = rs; scanner = s })
      | c ∷ cs ↦ protocol_loop rs (scan s (c ∷ cs))
    ]
  ]
]

abbrev pub protocol : BeeperStream → Verdict × BeeperStream
protocol me = protocol_loop me.inner me.scanner

-- `drain_into`, on a buffer with `room` left. The two slices of the queue are its front, in turn.
unfoldable pub drain_into : BeeperStream → ℕ → Bytes × BeeperStream
drain_into me room =
    let n = min (length me.scanner.out) room in
    (
      take n me.scanner.out,
      record me { scanner = record me.scanner { out = drop n me.scanner.out } },
    )

-- What one turn of the loop of `poll_read` does.
pub data PollTurn : Type 0 where
  done : Poll → BeeperStream → PollTurn
  again : BeeperStream → PollTurn

-- The turn that reads the socket.
unfoldable pub read_turn : List Read → Scanner → PollTurn
read_turn [] s = done waiting (record { inner = []; scanner = s })
read_turn (would_block ∷ rs) s = done waiting (record { inner = rs; scanner = s })
read_turn (broken e ∷ rs) s = done (failed e) (record { inner = rs; scanner = s })
read_turn (arrived chunk ∷ rs) s =
    if is_empty chunk
    then done (ready []) (record { inner = rs; scanner = s })
    else again (record { inner = rs; scanner = scan s chunk })

unfoldable pub poll_turn : BeeperStream → ℕ → PollTurn
poll_turn me room =
    if not (is_empty me.scanner.out)
    then (let (bytes, me') = drain_into me room in done (ready bytes) me')
    else if SyncHandle.is_pending me.scanner.updates
    then done woken me
    else if not (is_empty me.scanner.hold)
    then again (record me { scanner = scan (record me.scanner { hold = [] }) me.scanner.hold })
    else read_turn me.inner me.scanner

-- `poll_read`, on fuel; `none` means that the fuel ran out.
unfoldable pub poll_loop : ℕ → BeeperStream → ℕ → Option (Poll × BeeperStream)
poll_loop zero me room = none
poll_loop (suc fuel) me room = elim (poll_turn me room) [
  | done p me' ↦ some (p, me')
  | again me' ↦ poll_loop fuel me' room
]

-- A turn for each read, one for the bytes held back, and a last one.
abbrev pub poll_fuel : BeeperStream → ℕ
poll_fuel me = length me.inner + 2

abbrev pub or_waiting : BeeperStream → Option (Poll × BeeperStream) → Poll × BeeperStream
or_waiting me none = (waiting, me)
or_waiting me (some r) = r

unfoldable pub poll_read : BeeperStream → ℕ → Poll × BeeperStream
poll_read me room = or_waiting me (poll_loop (poll_fuel me) me room)
