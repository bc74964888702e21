-- ===== src/Deployment/Responses.antt =====
-- The responses that a row of the loaded table leads to: those which hyper-fast-path/src/fast_path.rs
-- rendered, as hyper-fast-path/src/fast_path.bpf.c reads them.
use hyper_fast_path.Prelude.{
  ℕ, zero, suc, ◌+◌, ◌^◌, ◌≤◌, ◌<◌, List, [], ◌∷◌, map, ◌≡◌, refl, ap, ◌∙◌, arith, false, some,
  length, length-take, take, drop, min, get_or, ◌==◌, if◌then◌else◌, Bool-cases, Option-cases, inl,
  inr,
}
use hyper_fast_path.Prelude.Bytes.{Bytes}
use hyper_fast_path.Http2.Frame.{encodes}
use hyper_fast_path.FastPath.Render.{File, render_body, render_h2_body}
use hyper_fast_path.FastPath.Attach.{H2Response, Route, max_sid_offs, max_route_body}
use hyper_fast_path.FastPath.Layout.{h2_bytes}
use hyper_fast_path.FastPath.Pieces.{response_frames}
use hyper_fast_path.FastPath.Sizes.{render_body-length}
use hyper_fast_path.FastPath.Rendering.{render_h2_body-frames}
use hyper_fast_path.FastPath.Table.{slice}
use hyper_fast_path.Kernel.StreamIds.{on_stream}
use hyper_fast_path.Kernel.Chunk.{loads, length-loads}
use hyper_fast_path.Kernel.Serve.{body_len_of, body_off_of}
use hyper_fast_path.Kernel.Answers.{AllWithin, sids_of, sids_for, stamped, answer}
use hyper_fast_path.Kernel.Rendered.{AllWithin-sid_positions, answer-response_frames}
use hyper_fast_path.Deployment.Rows.{Leads}

loads_next : (x : ℕ) (arena : Bytes) (at n : ℕ) → loads (x ∷ arena) (suc at) n ≡ loads arena at n
unfolding loads
loads_next x arena at zero = refl
loads_next x arena at (suc n) = ap (◌∷◌ (get_or arena at 0)) (loads_next x arena (suc at) n)

loads-take :
    (arena : Bytes) (at n : ℕ)
    → n ≤ length (drop at arena)
    → loads arena at n ≡ take n (drop at arena)
unfolding loads
loads-take arena at zero h = refl
loads-take [] zero (suc n) h = absurd (omega (arith, h))
loads-take [] (suc at) (suc n) h = absurd (omega (arith, h))
loads-take (x ∷ arena) zero (suc n) h =
    ap (◌∷◌ x) (loads_next x arena zero n ∙ loads-take arena zero n (omega (arith, h)))
loads-take (x ∷ arena) (suc at) (suc n) h =
    loads_next x arena at (suc n) ∙ loads-take arena at (suc n) h

loads-slice :
    (arena : Bytes) (off n : ℕ) (xs : Bytes)
    → slice off n arena ≡ xs
    → n ≡ length xs
    → loads arena off n ≡ xs
loads-slice arena off n xs e l =
    loads-take arena off n (omega (arith, l, ap length e, length-take n (drop off arena))) ∙ e

-- The response to a request on a stream, rendered from a file: frames on that stream for HTTP/2, whose
-- streams are not 0, and the text for HTTP/1.1.
abbrev pub response_of : File → Bytes → ℕ → Bytes
response_of file contents sid =
    if sid == 0
    then render_body file contents
    else encodes (map (on_stream sid) (response_frames file contents))

min_small : (n : ℕ) → n ≤ max_sid_offs → min n max_sid_offs ≡ n
min_small n h = omega (arith, h)

module _ (huffman_encode : Bytes → Bytes) (routes : List (Bytes × File)) (arena : Bytes) (q : Route)
    (key : Bytes) (l : Leads huffman_encode routes arena q key) where
  abbrev contents : Bytes
  contents = l.from.contents

  contents_small : length contents < 2 ^ 28
  contents_small =
      omega (arith, render_body-length l.from.file contents, ap length l.from.rendered, l.from.fits)

  -- What a row says of a rendered HTTP/2 response.
  abbrev ReadsRendering : Type 0
  ReadsRendering =
      (loads arena q.h2_body_off q.h2_body_len ≡ (render_h2_body l.from.file contents).resp)
      × (sids_of q ≡ (render_h2_body l.from.file contents).sid_offs)
      × (length (render_h2_body l.from.file contents).resp ≤ max_route_body)

  reads_rendering : (h : H2Response) → l.route.h2 ≡ some h → ReadsRendering
  reads_rendering h e =
      let from = rw e at l.from.h2_rendered in
      let reads = rw e at l.reads.1 in
      (
        loads-slice arena q.h2_body_off q.h2_body_len _ (reads.0 ∙ from.0)
            ((rw e at l.bounded.h2_len) ∙ ap length from.0),
        rw (min_small q.h2_sid_count l.bounded.sid_count) (reads.1 ∙ from.1),
        omega (arith, from.2, ap length from.0),
      )

  -- A row without an HTTP/2 response has no length for it.
  h2_rendered : 0 < q.h2_body_len → ReadsRendering
  h2_rendered n = elim (Option-cases l.route.h2) [
    | inl e ↦ absurd (omega (arith, n, l.bounded.h2_len, ap (λ o. length (h2_bytes o)) e))
    | inr (h, e) ↦ reads_rendering h e
  ]

  plain_response : loads arena q.body_off q.body_len ≡ render_body l.from.file contents
  plain_response =
      loads-slice arena q.body_off q.body_len _ (l.reads.0 ∙ l.from.rendered)
        (l.bounded.plain_len ∙ ap length l.from.rendered)

  -- The answer on a stream from a row that has one is the response rendered from the file.
  pub answer-response_of :
      (sid : ℕ) → 0 < body_len_of q sid → answer arena q sid ≡ response_of l.from.file contents sid
  answer-response_of sid = elim (Bool-cases (sid == 0)) [
    | inl e ↦ rw e (λ n. plain_response)
    | inr e ↦ rw e (λ n. h2_answer sid e (h2_rendered n))
  ]
    where
      h2_answer :
          (s : ℕ)
          → (s == 0) ≡ false
          → ReadsRendering
          → stamped (sids_of q) s (loads arena q.h2_body_off q.h2_body_len)
            ≡ encodes (map (on_stream s) (response_frames l.from.file contents))
      h2_answer s e r =
          rw e at
            (answer-response_frames l.from.file contents arena q s contents_small r.2 r.0 r.1 e)

  -- A row leads into the arena's first 14 MiB.
  pub body_low : (sid : ℕ) → body_off_of q sid + body_len_of q sid < 2 ^ 32
  body_low sid = elim (Bool-cases (sid == 0)) [
    | inl e ↦ rw e (omega (arith, l.bounded.plain_low))
    | inr e ↦ rw e (omega (arith, l.bounded.h2_low))
  ]

  -- The offsets of a row lie within its response.
  pub sids-AllWithin :
      (sid : ℕ) → 0 < body_len_of q sid → AllWithin (sids_for q sid) (body_len_of q sid)
  sids-AllWithin sid = elim (Bool-cases (sid == 0)) [
    | inl e ↦ rw e (λ n. tt)
    | inr e ↦ rw e (λ n. within (h2_rendered n) n)
  ]
    where
      within : ReadsRendering → 0 < q.h2_body_len → AllWithin (sids_of q) q.h2_body_len
      within r n =
          let frames = render_h2_body-frames l.from.file contents contents_small in
          rw (r.1, frames)
            (AllWithin-sid_positions (response_frames l.from.file contents) 0 q.h2_body_len (
              omega (
                arith,
                ap length r.0,
                length-loads arena q.h2_body_off q.h2_body_len,
                ap (λ x. length x.resp) frames,
              )))
