-- ===== src/FastPath/Rendering.antt =====
-- The HTTP/2 response that hyper-fast-path/src/fast_path.rs renders, as frames.
use native.Mathlib.Nat.{zero-add}
use hyper_fast_path.Prelude.{
  ℕ, ◌+◌, ◌%◌, ◌^◌, ◌≤◌, ◌<◌, List, [], ◌∷◌, ◌++◌, ◌≡◌, ◌∙◌, arith, append_assoc, append-nil,
  length, length-append, ◌==◌, if◌then◌else◌,
}
use hyper_fast_path.Prelude.Bytes.{Bytes, to_be_bytes}
use hyper_fast_path.Http2.Frame.{Frame, encode, encodes}
use hyper_fast_path.FastPath.Render.{
  File, H2Rendering, h2_frame, headers, body_chunks, render_chunks, render_h2_body, max_frame_size,
}
use hyper_fast_path.FastPath.Pieces.{
  NoLonger, data_frames, headers_frame, response_frames, sid_positions, body_chunks-NoLonger,
}
use hyper_fast_path.FastPath.Sizes.{length-headers, length-response_frames}

h2_frame-encode :
    (kind flags : ℕ) (body : Bytes)
    → length body < 2 ^ 24
    → h2_frame kind flags body
      ≡ encode (record { kind = kind; flags = flags; sid = 0; body = body })
unfolding h2_frame to_be_bytes
h2_frame-encode kind flags body h = rw (no_wrap h)
  where
    no_wrap : length body < 2 ^ 24 → length body % 2 ^ 32 ≡ length body
    no_wrap l = omega arith

abbrev data_frame : ℕ → Bytes → Frame
data_frame flag c = record { kind = 0x00; flags = flag; sid = 0; body = c }

abbrev appended : H2Rendering → Frame → H2Rendering
appended r f = record {
  resp = r.resp ++ encode f;
  sid_offs = r.sid_offs ++ (length r.resp + 5) ∷ [];
}

render_chunks-cons :
    (c : Bytes) (rest : List Bytes) (i count flag : ℕ) (r : H2Rendering)
    → length c ≤ 16384
    → length r.resp < 2 ^ 32
    → (if i + 1 == count then 0x01 else 0x00) ≡ flag
    → render_chunks i count (c ∷ rest) r
      ≡ render_chunks (i + 1) count rest (appended r (data_frame flag c))
unfolding render_chunks
render_chunks-cons c rest i count flag r l h e =
    rw (e, h2_frame-encode 0x00 flag c (omega arith), no_wrap h)
  where
    no_wrap : length r.resp < 2 ^ 32 → length r.resp % 2 ^ 32 ≡ length r.resp
    no_wrap l = omega arith

render_chunks-frames :
    (cs : List Bytes) (i count : ℕ) (r : H2Rendering)
    → NoLonger max_frame_size cs
    → i + length cs ≡ count
    → length r.resp + length (encodes (data_frames cs)) < 2 ^ 32
    → render_chunks i count cs r ≡ record {
      resp = r.resp ++ encodes (data_frames cs);
      sid_offs = r.sid_offs ++ sid_positions (length r.resp) (data_frames cs);
    }
render_chunks-frames [] i count r l e h = unfold render_chunks in simp append-nil
render_chunks-frames (c ∷ []) i count r l e h =
    render_chunks-cons c [] i count 0x01 r l.0 (omega arith) (ground arith)
    ∙ unfold render_chunks in rw append-nil
render_chunks-frames (c ∷ d ∷ cs) i count r l e h =
    render_chunks-cons c (d ∷ cs) i count 0x00 r l.0 (omega arith) (ground arith)
    ∙ render_chunks-frames (d ∷ cs) (i + 1) count (appended r (data_frame 0x00 c)) l.1 (omega arith)
        (omega (arith, size, h))
    ∙ both
  where
    size :
        length (r.resp ++ encode (data_frame 0x00 c)) + length (encodes (data_frames (d ∷ cs)))
        ≡ length r.resp + length (encodes (data_frames (c ∷ d ∷ cs)))
    size = omega (
      arith,
      length-append r.resp (encode (data_frame 0x00 c)),
      length-append c (encodes (data_frames (d ∷ cs))),
    )

    both :
        ◌≡◌ {A = H2Rendering}
          (record {
            resp = r.resp ++ encode (data_frame 0x00 c) ++ encodes (data_frames (d ∷ cs));
            sid_offs =
                r.sid_offs
                ++ (length r.resp + 5) ∷ []
                ++ sid_positions
                    (length (r.resp ++ encode (data_frame 0x00 c)))
                    (data_frames (d ∷ cs));
          })
          (record {
            resp = r.resp ++ encodes (data_frames (c ∷ d ∷ cs));
            sid_offs = r.sid_offs ++ sid_positions (length r.resp) (data_frames (c ∷ d ∷ cs));
          })
    both = rw (
      length-append r.resp (encode (data_frame 0x00 c)),
      append_assoc r.resp,
      append_assoc r.sid_offs,
    )

-- The HTTP/2 rendering of a file below 2 ^ 28 bytes is a HEADERS frame and DATA frames that carry
-- the file's pieces, and the offsets are those of the stream ids in the frames' headers.
pub render_h2_body-frames :
    (file : File) (body : Bytes)
    → length body < 2 ^ 28
    → render_h2_body file body ≡ record {
      resp = encodes (response_frames file body);
      sid_offs = sid_positions 0 (response_frames file body);
    }
unfolding render_h2_body
render_h2_body-frames file body h =
    rw
      (
        h2_frame-encode 0x01 0x04 (headers file body) (omega (arith, length-headers file body h)),
        zero-add (length (encode (headers_frame file body))),
      )
      (render_chunks-frames (body_chunks body) 0 (length (body_chunks body))
        (record { resp = encode (headers_frame file body); sid_offs = 5 ∷ [] })
        (body_chunks-NoLonger body) (omega arith)
        (omega (
          arith,
          length-response_frames file body h,
          length-append (headers file body) (encodes (data_frames (body_chunks body))),
        )))
