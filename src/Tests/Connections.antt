-- ===== src/Tests/Connections.antt =====
-- A client's connection of hyper-fast-path/src/listener.rs, on concrete bytes.
use hyper_fast_path.Prelude.{
  ◌%◌, ◌^◌, length, List, [], ◌∷◌, ◌++◌, ◌≡◌, refl, arith, inl, take, drop, some,
}
use hyper_fast_path.Prelude.Bytes.{Bytes, bytes_eq, from_be_bytes, copy_at}
use hyper_fast_path.Http2.Frame.{Frame, encode, encodes}
use hyper_fast_path.Listener.FlowHandle
use hyper_fast_path.Listener.SyncHandle
use hyper_fast_path.Listener.Scanner.{
  Scanner, new, preface_bytes, classify, report, barrier, scan_preface, scan_header, scan_payload,
  scan_flow, scan_sync, scan_turn, scan_loop, scan_fuel, scan,
}
use hyper_fast_path.Listener.Bytewise.{feeds}
use hyper_fast_path.Listener.Turns.{IsWf}
use hyper_fast_path.Listener.Refinement.{scan_loop-scan, scan-feeds, scan-append}
use hyper_fast_path.Listener.View.{start, consumes}
use hyper_fast_path.Listener.Stream.{
  Read, arrived, would_block, accept, drain_into, read_turn, poll_turn, poll_loop, poll_fuel,
  poll_read, protocol,
}
use hyper_fast_path.Listener.Polling.{none_handed, whole, poll_loop-poll_read}
use hyper_fast_path.Listener.Detection.{protocol-whole}
use hyper_fast_path.Listener.Schedule.{
  Action, poll, take_updates, take_served, opened, step, run, run-opened-whole,
}
use hyper_fast_path.Listener.FrameBytes.{AllFrames}
use hyper_fast_path.Listener.Barrier.{AtMost, tags, run-AtMost}
use hyper_fast_path.Listener.Delivery.{run-frames}

-- SETTINGS, an update, a report of 256 bytes, and a request.
abbrev settings : Frame
settings = record { kind = 4; flags = 0; sid = 0; body = [] }

abbrev pub update : Frame
update = record { kind = 0xFB; flags = 0; sid = 0; body = 0x40 ∷ 1 ∷ 97 ∷ 1 ∷ 98 ∷ [] }

abbrev served : Frame
served = record { kind = 0xFA; flags = 0; sid = 0; body = 0 ∷ 0 ∷ 1 ∷ 0 ∷ [] }

abbrev get : Frame
get = record { kind = 1; flags = 5; sid = 3; body = 0x82 ∷ 0x84 ∷ [] }

abbrev frames : List Frame
frames = settings ∷ update ∷ served ∷ get ∷ []

-- The stream, and two reads that cut a frame in half.
abbrev pub stream : Bytes
stream = preface_bytes ++ encodes frames

abbrev pub reads : List Read
reads = arrived (take 50 stream) ∷ would_block ∷ arrived (drop 50 stream) ∷ []

abbrev schedule : List Action
schedule =
    poll 100
    ∷ poll 100
    ∷ poll 5
    ∷ take_updates
    ∷ poll 1000
    ∷ take_served
    ∷ poll 1000
    ∷ poll 1000
    ∷ take_updates
    ∷ poll 1000
    ∷ poll 1000
    ∷ take_served
    ∷ []

frames-AllFrames : AllFrames frames
frames-AllFrames = (
  record {
    len_fits = omega arith;
    report_len = λ e. omega (arith, e);
    update_len = λ e. omega (arith, e);
  },
  (
    record {
      len_fits = omega arith;
      report_len = λ e. omega (arith, e);
      update_len = λ e. omega arith;
    },
    (
      record { len_fits = omega arith; report_len = λ e. refl; update_len = λ e. omega (arith, e) },
      (
        record {
          len_fits = omega arith;
          report_len = λ e. omega (arith, e);
          update_len = λ e. omega (arith, e);
        },
        tt,
      ),
    ),
  ),
)

run-frames_example :
    ((run (opened reads) schedule).handed.bytes ≡ preface_bytes ++ (encode settings ++ encode get))
    × ((run (opened reads) schedule).handed.updates ≡ update.body ∷ [])
    × ((run (opened reads) schedule).handed.served % 2 ^ 32 ≡ 256)
unfolding run step poll_read poll_loop poll_turn read_turn drain_into scan scan_loop scan_turn
    scan_preface scan_header scan_payload scan_flow scan_sync classify report barrier bytes_eq
    copy_at from_be_bytes SyncHandle.take SyncHandle.push SyncHandle.is_pending FlowHandle.take
    FlowHandle.add
run-frames_example =
    run-frames reads schedule frames frames-AllFrames refl refl refl refl refl refl refl

run-opened-whole_example :
    whole (run (opened reads) schedule).handed (run (opened reads) schedule).stream
    ≡ consumes start stream
run-opened-whole_example = run-opened-whole reads schedule

-- A scanner as `Scanner::new` leaves it.
abbrev fresh : Scanner
fresh = new SyncHandle.empty FlowHandle.empty

scan_loop-scan_example : scan_loop (scan_fuel stream) fresh stream ≡ some (scan fresh stream)
unfolding SyncHandle.is_pending
scan_loop-scan_example = scan_loop-scan fresh stream refl (omega arith)

scan-feeds_example : scan fresh stream ≡ feeds fresh stream
scan-feeds_example = scan-feeds fresh stream (omega arith)

scan-append_example :
    scan fresh (preface_bytes ++ encodes frames) ≡ scan (scan fresh preface_bytes) (encodes frames)
scan-append_example = scan-append fresh preface_bytes (encodes frames) (omega arith)

poll_loop-poll_read_example :
    poll_loop (poll_fuel (accept reads)) (accept reads) 16 ≡ some (poll_read (accept reads) 16)
poll_loop-poll_read_example = poll_loop-poll_read (accept reads) 16 (omega arith)

protocol-whole_example :
    (whole none_handed (protocol (accept reads)).1 ≡ whole none_handed (accept reads))
    × IsWf (protocol (accept reads)).1.scanner.state
protocol-whole_example = protocol-whole none_handed (accept reads) (omega arith) (inl refl)

run-AtMost_example :
    AtMost
      (length (run (opened reads) schedule).handed.updates)
      (take (length (run (opened reads) schedule).handed.bytes) (tags start stream))
run-AtMost_example = run-AtMost reads schedule
