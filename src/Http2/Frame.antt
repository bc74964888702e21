-- ===== src/Http2/Frame.antt =====
-- An HTTP/2 frame on the wire: the 9 byte header that hyper-fast-path/src/listener.rs takes apart
-- and hyper-fast-path/src/fast_path.rs and fast_path.bpf.c put together.
use hyper_fast_path.Prelude.{ℕ, ◌/◌, ◌%◌, List, [], ◌∷◌, ◌++◌, length}
use hyper_fast_path.Prelude.Bytes.{Bytes}

pub record Frame : Type 0 where
  pub kind : ℕ
  pub flags : ℕ
  pub sid : ℕ
  pub body : Bytes

-- A frame header: a 24 bit length, the type, the flags and the stream id.
abbrev pub frame_header : ℕ → ℕ → ℕ → ℕ → Bytes
frame_header len kind flags sid =
    ((len / 65536) % 256)
    ∷ ((len / 256) % 256)
    ∷ (len % 256)
    ∷ kind
    ∷ flags
    ∷ ((sid / 16777216) % 256)
    ∷ ((sid / 65536) % 256)
    ∷ ((sid / 256) % 256)
    ∷ (sid % 256)
    ∷ []

abbrev pub encode : Frame → Bytes
encode f = frame_header (length f.body) f.kind f.flags f.sid ++ f.body

abbrev pub encodes : List Frame → Bytes
encodes [] = []
encodes (f ∷ fs) = encode f ++ encodes fs
