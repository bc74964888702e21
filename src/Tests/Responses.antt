-- ===== src/Tests/Responses.antt =====
-- Responses of hyper-fast-path/src/fast_path.rs, on a small file.
use hyper_fast_path.Prelude.{List, [], ◌∷◌, ◌≡◌, refl, arith, get_or, replicate, some, none}
use hyper_fast_path.Prelude.Bytes.{Bytes, codes, to_be_bytes, bytes_eq, chunks, chunks_fuel}
use hyper_fast_path.Http2.Frame.{encodes}
use hyper_fast_path.FastPath.Render.{
  File, content_type, decimal, decimal_onto, headers, render_body, render_response, hpack_literal,
  h2_frame, render_chunks, render_h2_body, render_h2_response,
}
use hyper_fast_path.FastPath.Pieces.{response_frames, sid_positions}
use hyper_fast_path.FastPath.Headers.{
  parse_onto, read_fields, indexed, literal, read_fields-headers,
}
use hyper_fast_path.FastPath.Rendering.{render_h2_body-frames}
use hyper_fast_path.FastPath.Attach.{
  PreparedRoute, Prepared, Result, ok, prepare, prepare_routes, prepare_route, lay_out, loaded,
  fill_routes, no_route, max_routes,
}
use hyper_fast_path.FastPath.Preparation.{IsPrepared, prepare-IsPrepared}
use hyper_fast_path.FastPath.Table.{Reads, routes-Reads}

abbrev body : Bytes
body = codes "hi"

abbrev file : File
file = record { extension = some (codes "html"); contents = some body }

render_h2_body-frames_example : render_h2_body file body ≡ record {
  resp = encodes (response_frames file body);
  sid_offs = sid_positions 0 (response_frames file body);
}
render_h2_body-frames_example = render_h2_body-frames file body (omega arith)

read_fields-headers_example :
    (read_fields 3 (headers file body)
      ≡ some (indexed 8 ∷ literal 28 (decimal 2) ∷ literal 31 (content_type file) ∷ []))
    × (parse_onto 0 (decimal 2) ≡ 2)
read_fields-headers_example = read_fields-headers file body (omega arith)

-- Two routes.
abbrev routes : List (Bytes × File)
routes =
    (codes "/", file)
    ∷ (codes "/a.css", record { extension = none; contents = some (codes "p{}") })
    ∷ []

-- An encoder that leaves its input as it is.
abbrev plain : Bytes → Bytes
plain path = path

abbrev or_empty : Result Prepared → Prepared
or_empty (ok p) = p
or_empty _ = record { routes = []; arena_len = 0 }

abbrev prepared : Prepared
prepared = or_empty (prepare plain 4 routes)

prepare-IsPrepared_example : IsPrepared max_routes prepared
unfolding prepare prepare_routes prepare_route lay_out render_body render_response
    render_h2_response render_h2_body render_chunks h2_frame hpack_literal decimal decimal_onto
    content_type bytes_eq chunks chunks_fuel to_be_bytes
prepare-IsPrepared_example = prepare-IsPrepared plain 4 routes prepared refl

abbrev no_prepared : PreparedRoute
no_prepared = record { plain_key = []; coded_key = []; body = []; body_off = 0; h2 = none }

routes-Reads_example :
    Reads
      (loaded prepared)
      (get_or (fill_routes 0 prepared.routes (replicate max_routes no_route)) 1 no_route)
      (get_or prepared.routes 1 no_prepared)
unfolding prepare prepare_routes prepare_route lay_out render_body render_response
    render_h2_response render_h2_body render_chunks h2_frame hpack_literal decimal decimal_onto
    content_type bytes_eq chunks chunks_fuel to_be_bytes
routes-Reads_example =
    routes-Reads plain 4 routes prepared (get_or prepared.routes 0 no_prepared ∷ []) []
      (get_or prepared.routes 1 no_prepared) refl refl
