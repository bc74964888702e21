-- ===== src/Tests/Programs.antt =====
-- Runs of the eBPF program, hyper-fast-path/src/fast_path.bpf.c, on a small route and message.
use native.Mathlib.Omega.{arith}
use hyper_fast_path.Prelude.{
  ℕ, ◌-◌, true, false, [], ◌∷◌, ◌++◌, Option, none, some, some_eq, length-replicate, replicate, ◌≡◌,
  refl, ◌==◌, if◌then◌else◌,
}
use hyper_fast_path.Prelude.Bytes.{Bytes, codes, to_be_bytes, copy_at}
use hyper_fast_path.Http2.Frame.{Frame, encode}
use hyper_fast_path.FastPath.Attach.{Route}
use hyper_fast_path.Kernel.StreamIds.{on_stream}
use hyper_fast_path.Kernel.Message.{Helpers, IsDocumented}
use hyper_fast_path.Kernel.Sync.{HeaderField, sync_put, sync_put_byte, put_entry, render_dt_sync}
use hyper_fast_path.Kernel.Replay.{entries, read_entries, render_dt_sync-read_entries}
use hyper_fast_path.Kernel.Flow.{Flow, track_flow}
use hyper_fast_path.Kernel.FlowWindows.{IsWf, track_flow-IsWf}
use hyper_fast_path.Kernel.Chunk.{loads, copy_chunk, copy_chunk-copy_at}
use hyper_fast_path.Kernel.Serve.{served, serve_route}
use hyper_fast_path.Kernel.Answers.{answer}
use hyper_fast_path.Kernel.Serving.{serve_route-answer}
use hyper_fast_path.Kernel.Refusals.{passed, serve_route-passed}
use hyper_fast_path.Kernel.Spending.{Spent, serve_route-Spent}
use hyper_fast_path.Kernel.Willing.{IsWilling}
use hyper_fast_path.Kernel.Completion.{serve_route-served}

-- Helpers that never fail, and push zeros.
abbrev pub helpers : Helpers
helpers = record {
  pushes = λ off len. some (replicate len 0);
  pulls = λ start end. some (end - start);
  pops = λ off len. true;
  redirects = true;
}

pub helpers-IsDocumented : IsDocumented helpers
helpers-IsDocumented = record {
  pushes_all = λ off len b e. rw (← some_eq _ _ e) (length-replicate {A = ℕ} len 0);
  pulls_all = λ start end w e. omega (arith, some_eq _ _ e);
}

pub helpers-IsWilling : IsWilling helpers
helpers-IsWilling = record {
  pushes_some = λ off len. (replicate len 0, refl);
  pulls_some = λ start end. (end - start, refl);
  pops_true = λ off len. refl;
  redirects_true = refl;
}

-- A response of one DATA frame, and the route that leads to it.
abbrev pub data_frame : Frame
data_frame = record { kind = 0; flags = 1; sid = 0; body = codes "hi" }

abbrev pub arena : Bytes
arena = encode data_frame

abbrev pub route : Route
route = record {
  body_off = 0;
  body_len = 11;
  h2_body_off = 0;
  h2_body_len = 11;
  h2_sid_offs = 5 ∷ [];
  h2_sid_count = 1;
  h2_data_len = 2;
}

abbrev pub flow : Flow
flow = record { conn_window = 100; stream_window = 50; unreported = 7 }

pub flow-IsWf : IsWf flow
flow-IsWf = record {
  conn_fits = omega arith;
  stream_fits = omega arith;
  unreported_fits = omega arith;
}

-- A request of three bytes, and what follows it.
abbrev pub request : Bytes
request = codes "GET"

abbrev pub behind : Bytes
behind = codes "x"

serve_route-served_example :
    (serve_route helpers arena (some flow) route 7 3 (request ++ behind)).outcome ≡ served
serve_route-served_example =
    serve_route-served helpers arena (some flow) route 7 request behind helpers-IsDocumented
      helpers-IsWilling (omega arith) (omega arith) (omega arith, tt) refl

serve_route-answer_example :
    ((serve_route helpers arena (some flow) route 7 3 (request ++ behind)).msg
      ≡ answer arena route 7 ++ behind)
    × ((serve_route helpers arena (some flow) route 7 3 (request ++ behind)).applied ≡ 11)
serve_route-answer_example =
    serve_route-answer helpers arena (some flow) route 7 request behind helpers-IsDocumented
      (omega arith) (omega arith) (omega arith, tt)
      (serve_route-served helpers arena (some flow) route 7 request behind helpers-IsDocumented
        helpers-IsWilling (omega arith) (omega arith) (omega arith, tt) refl)

-- The answer is the frame on the request's stream.
answer_test : answer arena route 7 ≡ encode (on_stream 7 data_frame)
unfolding loads copy_at to_be_bytes
answer_test = refl

serve_route-Spent_example :
    (after : Flow) × ((serve_route helpers arena (some flow) route 7 3 (request ++ behind)).flow
      ≡ some after)
    × Spent flow 2 after
serve_route-Spent_example =
    serve_route-Spent helpers arena flow route 7 3 (request ++ behind) flow-IsWf refl (
      serve_route-served helpers arena (some flow) route 7 request behind helpers-IsDocumented
        helpers-IsWilling (omega arith) (omega arith) (omega arith, tt) refl)

-- A connection's window that is too small for the response.
abbrev tight : Flow
tight = record flow { conn_window = 1 }

serve_route-passed_example :
    serve_route helpers arena (some tight) route 7 3 (request ++ behind)
    ≡ passed (some tight) (request ++ behind)
unfolding serve_route
serve_route-passed_example =
    serve_route-passed helpers arena (some tight) route 7 3 (request ++ behind) refl

copy_chunk-copy_at_example :
    copy_chunk arena 0 (replicate 300 1) 20 280 270
    ≡ some (copy_at (replicate 300 1) 20 (loads arena 0 270))
copy_chunk-copy_at_example =
    copy_chunk-copy_at arena 0 (replicate 300 1) 20 280 270 (omega arith) (omega arith)

-- A WINDOW_UPDATE of the connection by 16.
abbrev opened : Bytes
opened = encode (record { kind = 8; flags = 0; sid = 0; body = 0 ∷ 0 ∷ 0 ∷ 16 ∷ [] })

track_flow-IsWf_example :
    IsWf (track_flow helpers opened flow) × ((track_flow helpers opened flow).unreported ≡ 7)
track_flow-IsWf_example = track_flow-IsWf helpers opened flow flow-IsWf

-- A table of one entry.
abbrev pub get_dt_entry : ℕ → Option HeaderField
get_dt_entry index =
    if index == 62
    then some (record { key = codes "a"; key_huff = false; val = codes "bc"; val_huff = true })
    else none

abbrev block : Bytes
block = 0x40 ∷ 1 ∷ 97 ∷ 130 ∷ 98 ∷ 99 ∷ []

render_dt_sync-read_entries_example : read_entries 1 block ≡ entries get_dt_entry 1
unfolding render_dt_sync put_entry sync_put sync_put_byte
render_dt_sync-read_entries_example = render_dt_sync-read_entries 128 get_dt_entry 1 block refl
