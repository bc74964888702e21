-- ===== src/Kernel/Rendered.antt =====
-- About the answers of hyper-fast-path/src/fast_path.bpf.c with the responses that
-- hyper-fast-path/src/fast_path.rs renders.
use native.Mathlib.Nat.{zero-add}
use hyper_fast_path.Prelude.{
  ℕ, ◌+◌, ◌^◌, ◌≤◌, ◌<◌, true, false, List, [], ◌∷◌, ◌++◌, map, some, length, length-append, ◌==◌,
  ◌≡◌, refl, sym, ◌∙◌, arith, append-nil, Yields-some,
}
use hyper_fast_path.Prelude.Bytes.{Bytes}
use hyper_fast_path.Http2.Frame.{Frame, encode, encodes}
use hyper_fast_path.FastPath.Attach.{Route}
use hyper_fast_path.FastPath.Render.{File, render_h2_body}
use hyper_fast_path.FastPath.Pieces.{sid_positions, response_frames}
use hyper_fast_path.FastPath.Rendering.{render_h2_body-frames}
use hyper_fast_path.Kernel.StreamIds.{
  max_route_body, write_sids, on_stream, write_sids-render_h2_body,
}
use hyper_fast_path.Kernel.Chunk.{loads}
use hyper_fast_path.Kernel.Answers.{AllWithin, stamped, sids_of, answer, write_sids-stamped}

pub AllWithin-sid_positions :
    (fs : List Frame) (at n : ℕ) → at + length (encodes fs) ≤ n → AllWithin (sid_positions at fs) n
AllWithin-sid_positions [] at n h = tt
AllWithin-sid_positions (f ∷ fs) at n h = (
  omega (arith, h, length-append (encode f) (encodes fs)),
  AllWithin-sid_positions fs (at + length (encode f)) n
      (omega (arith, h, length-append (encode f) (encodes fs))),
)

-- A file below 2 ^ 28 bytes whose HTTP/2 response fits the program's bound: if a route's row leads to
-- that response in the arena and to its offsets, then the answer on a stream is the encoding of the
-- response's frames, all on that stream.
pub answer-response_frames :
    (file : File) (body arena : Bytes) (r : Route) (sid : ℕ)
    → length body < 2 ^ 28
    → length (render_h2_body file body).resp ≤ max_route_body
    → loads arena r.h2_body_off r.h2_body_len ≡ (render_h2_body file body).resp
    → sids_of r ≡ (render_h2_body file body).sid_offs
    → (sid == 0) ≡ false
    → answer arena r sid ≡ encodes (map (on_stream sid) (response_frames file body))
answer-response_frames file body arena r sid b l e o z =
    rw (z, e, o)
      (sym (append-nil _)
        ∙ sym (
            Yields-some
              (λ m.
                m
                ≡ stamped (render_h2_body file body).sid_offs sid (render_h2_body file body).resp
                  ++ [])
              _ _
              (write_sids-stamped (λ a c. true) sid [] (render_h2_body file body).sid_offs
                (render_h2_body file body).resp within)
              stamped_all))
  where
    within : AllWithin (render_h2_body file body).sid_offs (length (render_h2_body file body).resp)
    within =
        rw (render_h2_body-frames file body b)
          (AllWithin-sid_positions (response_frames file body) 0 _ (rw zero-add (omega arith)))

    stamped_all :
        write_sids
          (λ a c. true)
          ((render_h2_body file body).resp ++ [])
          (render_h2_body file body).sid_offs
          sid
        ≡ some (encodes (map (on_stream sid) (response_frames file body)))
    stamped_all =
        rw append-nil (write_sids-render_h2_body (λ a c. true) sid file body (λ a c. refl) b l)
