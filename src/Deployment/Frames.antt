-- ===== src/Deployment/Frames.antt =====
-- When the program that hyper-fast-path/src/fast_path.rs, `FastPath::attach`, has loaded answers a
-- request of HTTP/2, through `msg_verdict` of hyper-fast-path/src/fast_path.bpf.c.
use hyper_fast_path.Prelude.{
  ℕ, zero, suc, ◌^◌, ◌≤◌, ◌<◌, true, false, ◌&&◌, List, [], ◌∷◌, ◌++◌, ◌≡◌, ap, arith, some,
  some_eq, none-some, length, length-append, get_elem?, leb, ◌==◌, Option-cases, inl, inr,
}
use hyper_fast_path.Prelude.Bytes.{Bytes}
use hyper_fast_path.Http2.Frame.{encode, encodes}
use hyper_fast_path.FastPath.Render.{File, render_h2_body, body_chunks}
use hyper_fast_path.FastPath.Pieces.{headers_frame, data_frames}
use hyper_fast_path.FastPath.Rendering.{render_h2_body-frames}
use hyper_fast_path.FastPath.Sizes.{render_body-length}
use hyper_fast_path.FastPath.Attach.{Route, max_route_body, max_sid_offs, u32}
use hyper_fast_path.Kernel.Flow.{Flow}
use hyper_fast_path.Kernel.Serve.{is_servable, has_room}
use hyper_fast_path.Deployment.Rows.{Leads}

-- A file whose HTTP/2 response is in bounds, and for which a client has room.
pub record IsReady (fc : Flow) (file : File) : Type 0 where
  pub resp_fits :
      (contents : Bytes)
      → file.contents ≡ some contents
      → length (render_h2_body file contents).resp ≤ max_route_body
  pub sids_fit :
      (contents : Bytes)
      → file.contents ≡ some contents
      → length (render_h2_body file contents).sid_offs ≤ max_sid_offs
  pub room :
      (contents : Bytes) → file.contents ≡ some contents → has_room fc (length contents) ≡ true

abbrev pub AllReady : Flow → List (Bytes × File) → Type 0
AllReady fc [] = Unit {0}
AllReady fc ((path, file) ∷ rest) = IsReady fc file × AllReady fc rest

pub AllReady-at :
    (fc : Flow) (routes : List (Bytes × File)) (i : ℕ) (path : Bytes) (file : File)
    → AllReady fc routes
    → get_elem? routes i ≡ some (path, file)
    → IsReady fc file
AllReady-at fc [] i path file a e = absurd (none-some (path, file) e)
AllReady-at fc ((q, g) ∷ routes) zero path file a e =
    rw (ap (λ (r : Bytes × File). r.1) (some_eq (q, g) (path, file) e)) at a.0
AllReady-at fc ((q, g) ∷ routes) (suc i) path file a e = AllReady-at fc routes i path file a.1 e

pub h2-is_servable :
    (fc : Flow) (r : Route) (sid : ℕ) (a b : Bytes)
    → (sid == 0) ≡ false
    → 0 < r.h2_body_len
    → r.h2_body_len ≤ max_route_body
    → has_room fc r.h2_data_len ≡ true
    → 0 < length a
    → is_servable (some fc) r sid (length a) (a ++ b) ≡ true
h2-is_servable fc r sid a b z n l room s = rw (z, room, length-append a b) (ground arith)

render_h2_body-some :
    (file : File) (contents : Bytes)
    → length contents < 2 ^ 28
    → 0 < length (render_h2_body file contents).resp
render_h2_body-some file contents h = omega (
  arith,
  ap (λ r. length r.resp) (render_h2_body-frames file contents h),
  length-append (encode (headers_frame file contents))
      (encodes (data_frames (body_chunks contents))),
)

fits_not : (a b m n : ℕ) → a ≤ m → b ≤ n → (leb a m && leb b n) ≡ false → ⊥
fits_not a b m n h k e = ground (arith, h, k, e)

-- What a row needs for an answer of HTTP/2.
pub record IsFull (fc : Flow) (q : Route) : Type 0 where
  pub some_len : 0 < q.h2_body_len
  pub len_fits : q.h2_body_len ≤ max_route_body
  pub room : has_room fc q.h2_data_len ≡ true

pub Leads-IsFull :
    (huffman_encode : Bytes → Bytes) (routes : List (Bytes × File)) (arena : Bytes) (q : Route)
    (key : Bytes) (fc : Flow) (l : Leads huffman_encode routes arena q key)
    → IsReady fc l.from.file
    → IsFull fc q
Leads-IsFull huffman_encode routes arena q key fc l d = elim (Option-cases l.route.h2) [
  | inl e ↦ absurd (
      fits_not (length (render_h2_body l.from.file l.from.contents).resp)
        (length (render_h2_body l.from.file l.from.contents).sid_offs) max_route_body max_sid_offs
        (d.resp_fits l.from.contents l.from.readable) (d.sids_fit l.from.contents l.from.readable)
        (rw e at l.from.h2_rendered))
  | inr (h, e) ↦
      let from = rw e at l.from.h2_rendered in
      let len = rw e at l.bounded.h2_len in
      let flow_len = rw e at l.bounded.h2_data in
      record {
        some_len =
            omega
              (arith, len, ap length from.0, render_h2_body-some l.from.file l.from.contents small);
        len_fits = omega (arith, len, from.2);
        room = rw (data_eq h.data_len from.4 flow_len) (d.room l.from.contents l.from.readable);
      }
]
  where
    small : length l.from.contents < 2 ^ 28
    small = omega (
      arith,
      render_body-length l.from.file l.from.contents,
      ap length l.from.rendered,
      l.from.fits,
    )

    data_eq :
        (n : ℕ)
        → n ≡ length l.from.contents
        → q.h2_data_len ≡ u32 n
        → q.h2_data_len ≡ length l.from.contents
    data_eq n e f = omega (arith, e, f, small)
