-- ===== src/Lib.antt =====
-- hyper-fast-path: an HTTP server whose eBPF fast path answers requests for prepared files from
-- the kernel, and tells the user space server in the client's own stream what it did.
--
-- The parts and how they interact:
--   * FastPath.attach (hyper-fast-path/src/fast_path.rs) renders every file as an HTTP/1.1 and an
--     HTTP/2 response, lays the responses out in an arena, and fills a route table and a route
--     index by which the eBPF program finds them.
--   * The eBPF program (hyper-fast-path/src/fast_path.bpf.c) answers a request by copying a response
--     and writing the request's stream id into its frame headers. On HTTP/2 it puts frames of its
--     own in front of what it passes on: dynamic table updates (type 0xFB) and counts of bytes
--     answered (type 0xFA).
--   * The stream of a connection (hyper-fast-path/src/listener.rs) takes those frames out again. An
--     update goes to a queue, and nothing behind it is read until it is taken; a count goes to a
--     counter.
--   * The connection handler (hyper-fast-path/src/server.rs) takes the queue and the counter before
--     every poll of the h2 codec.
--   * The pool of dummy sockets (hyper-fast-path/src/dummies.rs) that the eBPF program runs on.
--
-- The files:
--   * Prelude and its children: library names, Boolean tests, lists by native numbers, byte strings.
--   * Http2/Frame: an HTTP/2 frame on the wire.
--   * Listener/SyncHandle, Listener/FlowHandle: SyncHandle and FlowHandle (listener.rs). The clones
--     of a handle share one value, which is a field of the scanner; push, add and take are one
--     step each, as the lock and the atomic make them.
--   * Listener/Scanner: State, Scanner and Scanner::scan (listener.rs): `scan_turn` is the body of
--     its loop, `scan_preface` to `scan_sync` are the arms of its match.
--   * Listener/Stream: BeeperStream (listener.rs): protocol, drain_into and poll_read, the body of
--     whose loop is `poll_turn`. The socket is the list of what its reads will give.
--   * Listener/Bytewise, Bulk, Opening, Turns, Progress, Refinement: a description of the scanner
--     byte by byte, and that the loop agrees with it. Listener/View, FrameBytes, Frames: what a stream of
--     bytes and of frames means. Listener/Session, Polling, Detection, Schedule, Delivery,
--     Induction, Barrier: sequences of polls and takes.
--   * Server/Turns: serve_connection and serve_h2 (server.rs), on an h2 codec that is a parameter.
--     Server/Responding: respond_to (server.rs), with the application as a parameter.
--     Server/Contract: what the handler relies on in the codec. Server/Delivery: what the codec is
--     given.
--   * FastPath/Render: content_type, render_response, hpack_literal, h2_frame, render_h2_response
--     (fast_path.rs). FastPath/Pieces, Sizes, Headers, Rendering: about those.
--   * FastPath/Attach: the preparation of FastPath::attach (fast_path.rs). FastPath/Layout,
--     Preparation, Arena, Table, Keys, Index, Provenance, Success: about it. FastPath/Loading: its
--     calls that open, size, load and attach the program, each of which may fail. FastPath/Order,
--     Attaching: about their order.
--   * Kernel/StreamIds: write_sid and the loop of serve_route that calls it (fast_path.bpf.c).
--     Kernel/Message: a message and the helpers of the kernel that change it, a parameter.
--     Kernel/Chunk: copy_chunk. Kernel/Serve: serve_route, step by step: `resize`, `copy_response`,
--     `stamp`, `redirect`. Kernel/Responses, Answers, Serving, Refusals, Spending, Willing,
--     Completion, Rendered: about it.
--   * Kernel/Sync: sync_put, sync_put_byte, render_dt_sync, prepend_dt_sync and prepend_fc_sync
--     (fast_path.bpf.c). Kernel/Literals, Replay, SyncFrames: about those. Kernel/Flow: struct
--     h2_flow, track_flow_frame and track_flow. Kernel/FlowWindows: about those.
--   * Kernel/HandOver: the part of msg_verdict that puts an update and a report in front of a
--     message. Kernel/Verdict: try_serve_route, parse_content_length and msg_verdict, with what the
--     parsers find as a parameter. Kernel/Forwarding, Telling, Verdicts, Answering: about those.
--   * Kernel/Lending: skb_verdict, add_conn, remove_conn and monitor_sockets (fast_path.bpf.c) on the
--     maps of the pool of dummies, and what can happen to them. Kernel/Lent, Owned, Taken, Ownership: about
--     those.
--     Kernel/Dispatch: the beginning of msg_verdict, which finds the connection of a dummy.
--   * Dummies/Pool: raise_fd_limit and conn_key (dummies.rs). Dummies/Recycling: DummyPool::new, reset
--     and the inner loop of recycle, on the maps as values. Dummies/Resets, Filling: about those.
--     Dummies/Recycler: the thread, recycle. Dummies/Parsers, Lookups: find_dynamic_table_info. Dummies/Sharing, Interleaving: the thread and the eBPF program's
--     callbacks on the same maps, in any order.
--   * Deployment and its children: what FastPath::attach loads, as the eBPF program runs with it.
--     Deployment/Rows: the rows that the route index leads to. Deployment/Responses: what they lead to
--     in the arena. Deployment/Requests: what is sent. Deployment/Readiness, Listed: which requests of
--     HTTP/1.1 are answered. Deployment/Frames, Streams, ListedStreams: which of HTTP/2 are.
--   * Server/Accepting: serve (server.rs) and BeeperListener::accept (listener.rs).
--   * Example, Example/Startup: fastpath_routes and main (example/src/main.rs). Build: select_clang
--     (hyper-fast-path/build.rs).
--   * Tests and its children: runs on concrete inputs.
--
-- Bounds and fuel: the loop of `scan` runs on fuel of twice the bytes of its input and one more,
-- since a turn takes a byte or ends a frame with no payload; that of `poll_read` on a turn for each
-- read of the socket and two more; both are proved to be enough. Decimal digits run on the number
-- and chunks on the length of the body. A read is any string of bytes, of which the code's reads
-- of at most 16384 bytes are some. Counters of 32 bits and the offsets of the route table are
-- reduced modulo 2 ^ 32. Files below 2 ^ 28 bytes are rendered; a response is loaded only up to
-- 458752 bytes. A route's two renderings are of the same contents of its file.
--
-- In the eBPF program, an `int` or `s32` is its 32 bits, and sums of 32 bits are reduced. The loops
-- over chunks, blocks, bytes, frames and settings run as many turns as the source gives them, which
-- is shown to be enough for every response within bounds.
--
-- Not modelled: the parsers that the eBPF program calls, the write side of a stream, which is the
-- socket's, the drop of the pool of dummies, HTTP/1.1 and the application behind the codec, which are hyper's and axum's, the command
-- line of the example and the build of the eBPF program. The h2 crate, the Huffman encoder, the
-- sockets, the file system, libbpf, the helpers of the kernel and the parsers' mirror of the dynamic
-- table are parameters.
pub mod Prelude
pub mod Http2
pub mod Listener
pub mod FastPath
pub mod Kernel
pub mod Server
pub mod Dummies
pub mod Deployment
pub mod Example
pub mod Build
pub mod Tests
