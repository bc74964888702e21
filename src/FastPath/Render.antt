-- ===== src/FastPath/Render.antt =====
-- hyper-fast-path/src/fast_path.rs, lines 25 to 186: a file rendered as an HTTP/1.1 and as an
-- HTTP/2 response. A file is what `std::fs::read` gives for it and what `Path::extension` and
-- `to_str` give for its path.
use hyper_fast_path.Prelude.{
  ℕ, zero, suc, ◌+◌, ◌-◌, ◌/◌, ◌%◌, ◌^◌, List, [], ◌∷◌, ◌++◌, Option, none, some, length, drop, ltb,
  ◌==◌, if◌then◌else◌,
}
use hyper_fast_path.Prelude.Bytes.{Bytes, bytes_eq, codes, to_be_bytes, chunks}

abbrev pub max_frame_size : ℕ
max_frame_size = 16384

pub record File : Type 0 where
  pub extension : Option Bytes
  pub contents : Option Bytes

abbrev by_extension : Bytes → Bytes
by_extension ext =
    if bytes_eq ext (codes "html")
    then codes "text/html; charset=utf-8"
    else if bytes_eq ext (codes "js")
    then codes "application/javascript"
    else if bytes_eq ext (codes "css")
    then codes "text/css"
    else if bytes_eq ext (codes "json")
    then codes "application/json"
    else codes "application/octet-stream"

unfoldable pub content_type : File → Bytes
content_type file = elim file.extension [
  | some ext ↦ by_extension ext
  | none ↦ codes "application/octet-stream"
]

-- The decimal digits of a number, in front of `rest`; `fuel` bounds their number.
unfoldable pub decimal_onto : ℕ → ℕ → Bytes → Bytes
decimal_onto zero n rest = rest
decimal_onto (suc fuel) n rest =
    let more = decimal_onto fuel (n / 10) ((48 + n % 10) ∷ rest) in
    if ltb n 10 then (48 + n) ∷ rest else more

-- `usize::to_string`.
unfoldable pub decimal : ℕ → Bytes
decimal n = decimal_onto (suc n) n []

-- `render_response`, past the read.
unfoldable pub render_body : File → Bytes → Bytes
render_body file body =
    codes "HTTP/1.1 200 OK\r\nContent-Length: "
    ++ (decimal (length body)
        ++ (codes "\r\nContent-Type: "
            ++ (content_type file ++ (codes "\r\nConnection: keep-alive\r\n\r\n" ++ body))))

unfoldable pub render_response : File → Option Bytes
render_response file = elim file.contents [ none ↦ none | some body ↦ some (render_body file body) ]

-- `name_idx - 15` is a byte: the index is at least 15.
unfoldable pub hpack_literal : ℕ → Bytes → Bytes
hpack_literal name_idx value = 0x0F ∷ (name_idx - 15) ∷ (length value % 256) ∷ value

unfoldable pub h2_frame : ℕ → ℕ → Bytes → Bytes
h2_frame kind flags payload =
    drop 1 (to_be_bytes (length payload % 2 ^ 32)) ++ (kind ∷ flags ∷ (to_be_bytes 0 ++ payload))

abbrev pub headers : File → Bytes → Bytes
headers file body =
    (0x88 ∷ []) ++ hpack_literal 28 (decimal (length body)) ++ hpack_literal 31 (content_type file)

abbrev pub body_chunks : Bytes → List Bytes
body_chunks [] = [] ∷ []
body_chunks (c ∷ cs) = chunks max_frame_size (c ∷ cs)

pub record H2Rendering : Type 0 where
  pub resp : Bytes
  pub sid_offs : List ℕ

-- The loop over the chunks, of which `count` are to come from the `i`th on.
unfoldable pub render_chunks : ℕ → ℕ → List Bytes → H2Rendering → H2Rendering
render_chunks i count [] r = r
render_chunks i count (chunk ∷ rest) r = render_chunks (i + 1) count rest (record {
  resp = r.resp ++ h2_frame 0x00 (if i + 1 == count then 0x01 else 0x00) chunk;
  sid_offs = r.sid_offs ++ (length r.resp % 2 ^ 32 + 5) ∷ [];
})

unfoldable pub render_h2_body : File → Bytes → H2Rendering
render_h2_body file body =
    render_chunks 0 (length (body_chunks body)) (body_chunks body)
      (record { resp = h2_frame 0x01 0x04 (headers file body); sid_offs = 5 ∷ [] })

-- `render_h2_response`: the response, the offsets of its stream ids and the body's length.
unfoldable pub render_h2_response : File → Option (H2Rendering × ℕ)
render_h2_response file = elim file.contents [
  | none ↦ none
  | some body ↦ some (render_h2_body file body, length body)
]
