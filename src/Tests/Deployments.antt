-- ===== src/Tests/Deployments.antt =====
-- Requests through the program that hyper-fast-path/src/fast_path.rs has loaded with two routes.
use native.Mathlib.Omega.{arith}
use hyper_fast_path.Prelude.{ℕ, true, false, List, [], ◌∷◌, ◌++◌, ◌≡◌, refl, some, none, inl}
use hyper_fast_path.Prelude.Bytes.{
  Bytes, codes, to_be_bytes, copy_at, bytes_eq, chunks, chunks_fuel,
}
use hyper_fast_path.FastPath.Render.{
  File, content_type, decimal, decimal_onto, render_body, render_response, hpack_literal, h2_frame,
  render_chunks, render_h2_body, render_h2_response,
}
use hyper_fast_path.FastPath.Attach.{
  padded, index_updates, Prepared, Result, ok, prepare, prepare_routes, prepare_route, lay_out,
  loaded, load_arena, load_route, load_h2, arena_pages, fill_routes, fill_route, fill_h2,
}
use hyper_fast_path.FastPath.Index.{updated}
use hyper_fast_path.Kernel.StreamIds.{write_sid, write_sids}
use hyper_fast_path.Kernel.Chunk.{loads, copy_blocks, copy_bytes, copy_chunk}
use hyper_fast_path.Kernel.Serve.{serve_route, grow, resize, copy_response, stamp, redirect}
use hyper_fast_path.Kernel.HandOver.{Conn}
use hyper_fast_path.Kernel.Verdict.{
  Env, H1Parsed, H2Parsed, answered, try_serve_route, verdict_frame, msg_verdict,
}
use hyper_fast_path.Deployment.Rows.{deployed}
use hyper_fast_path.Deployment.Requests.{
  ServesFile, msg_verdict-ServesFile, msg_verdict-ServesFile_plain,
}
use hyper_fast_path.Deployment.Readiness.{IsComplete, msg_verdict-answered}
use hyper_fast_path.Tests.Programs.{
  helpers, helpers-IsDocumented, helpers-IsWilling, flow, get_dt_entry,
}

abbrev pub file : File
file = record { extension = some (codes "html"); contents = some (codes "hi") }

abbrev pub routes : List (Bytes × File)
routes =
    (codes "/", file)
    ∷ (codes "/a.css", record { extension = none; contents = some (codes "p{}") })
    ∷ []

-- An encoder that leaves its input as it is.
abbrev pub same : Bytes → Bytes
same path = path

abbrev or_empty : Result Prepared → Prepared
or_empty (ok p) = p
or_empty _ = record { routes = []; arena_len = 0 }

abbrev pub prepared : Prepared
prepared = or_empty (prepare same 4 routes)

pub prepared_ok : prepare same 4 routes ≡ ok prepared
unfolding prepare prepare_routes prepare_route lay_out render_body render_response
    render_h2_response render_h2_body render_chunks h2_frame hpack_literal decimal decimal_onto
    content_type bytes_eq chunks chunks_fuel to_be_bytes
prepared_ok = refl

-- A request of HTTP/1.1 for the first route.
abbrev pub get : H1Parsed
get = record { len = 3; is_preface = false; content_length = none; path = some (codes "/") }

pub get-IsComplete : IsComplete get (codes "GET") (codes "x")
get-IsComplete = record {
  parsed = omega arith;
  parsed_fits = omega arith;
  no_preface = refl;
  whole = refl;
  some_bytes = omega arith;
  fits = omega arith;
}

abbrev pub plain : Conn
plain = record { state = none; flow = none; dirty = false }

abbrev pub env : Env
env = deployed helpers true get_dt_entry 128 prepared

answered_plain :
    (k : ℕ) × ((msg_verdict env plain (some get) none (codes "GET" ++ codes "x")).verdict
      ≡ answered k)
    × ServesFile same routes
        (codes "/")
        0
        (codes "x")
        (msg_verdict env plain (some get) none (codes "GET" ++ codes "x")).msg
unfolding prepare prepare_routes prepare_route lay_out render_body render_response
    render_h2_response render_h2_body render_chunks h2_frame hpack_literal decimal decimal_onto
    content_type bytes_eq chunks chunks_fuel to_be_bytes
answered_plain =
    msg_verdict-answered same 4 routes prepared helpers get_dt_entry 128 [] _ _ plain get none
      (codes "/") (codes "GET") (codes "x") prepared_ok refl (inl refl) (omega arith)
      helpers-IsDocumented helpers-IsWilling get-IsComplete refl refl

msg_verdict-ServesFile_plain_example :
    (path : Bytes) × (get.path ≡ some path)
    × ServesFile same routes path 0
        (codes "x")
        (msg_verdict env plain (some get) none (codes "GET" ++ codes "x")).msg
msg_verdict-ServesFile_plain_example =
    msg_verdict-ServesFile_plain same 4 routes prepared prepared_ok helpers true get_dt_entry 128
      plain get none (codes "GET") (codes "x") answered_plain.0 helpers-IsDocumented (omega arith)
      refl refl answered_plain.1

-- A connection of HTTP/2, and a request for the second route on it.
abbrev pub conn : Conn
conn = record { state = some 2; flow = some flow; dirty = true }

abbrev pub get_css : H2Parsed
get_css = record {
  len = 12;
  sid = 5;
  kind = 1;
  flags = 5;
  dt_count_before = 1;
  content_length = none;
  path = some (codes "/a.css");
}

answer_test :
    (msg_verdict env conn none (some get_css) (codes "abcdefghijkl" ++ codes "x")).verdict
    ≡ answered 53
unfolding prepare prepare_routes prepare_route lay_out render_body render_response
    render_h2_response render_h2_body render_chunks h2_frame hpack_literal decimal decimal_onto
    content_type bytes_eq chunks chunks_fuel to_be_bytes msg_verdict verdict_frame try_serve_route
    padded copy_at serve_route resize grow copy_response copy_chunk copy_blocks copy_bytes loads
    stamp redirect write_sids write_sid loaded load_arena load_route load_h2 arena_pages fill_routes
    fill_route fill_h2 index_updates updated
answer_test = refl

msg_verdict-ServesFile_example :
    (path : Bytes) × (get_css.path ≡ some path)
    × ServesFile same routes path 5
        (codes "x")
        (msg_verdict env conn none (some get_css) (codes "abcdefghijkl" ++ codes "x")).msg
msg_verdict-ServesFile_example =
    msg_verdict-ServesFile same 4 routes prepared prepared_ok helpers true get_dt_entry 128 2 conn
      none get_css (codes "abcdefghijkl") (codes "x") 53 helpers-IsDocumented (omega arith) refl
      refl answer_test
