-- ===== src/Kernel/Answers.antt =====
-- About what `serve_route` of hyper-fast-path/src/fast_path.bpf.c does: the answer that it sends and
-- the client's window.
use hyper_fast_path.Prelude.{
  ℕ, zero, suc, ◌+◌, ◌%◌, ◌^◌, ◌≤◌, ◌<◌, Bool, true, false, List, [], ◌∷◌, ◌++◌, length, take, min,
  set, ltb, ◌==◌, if◌then◌else◌, ◌≡◌, refl, sym, ap, ◌∙◌, arith, Bool-cases, Option-cases, ◌⊎◌, inl,
  inr, length-set, Yields, Yields-some,
}
use hyper_fast_path.Prelude.Bytes.{Bytes, copy_at, to_be_bytes, length-copy_at}
use hyper_fast_path.FastPath.Attach.{Route, max_sid_offs}
use hyper_fast_path.Kernel.StreamIds.{max_route_body, write_sid, write_sids}
use hyper_fast_path.Kernel.Message.{Helpers, IsDocumented, copy_at-over}
use hyper_fast_path.Kernel.Chunk.{loads, length-loads}
use hyper_fast_path.Kernel.Serve.{
  Stage, then_go, stamp, reaches, redirect, resize, copy_response, max_chunks, rewrite_and_send,
  body_len_of, body_off_of,
}
use hyper_fast_path.Kernel.Responses.{
  Goes, Goes-then_go, IsResized, resize-IsResized, copy_response-all,
}

-- The id of a stream at each of the offsets.
abbrev pub stamped : List ℕ → ℕ → Bytes → Bytes
stamped [] sid resp = resp
stamped (off ∷ offs) sid resp = stamped offs sid (copy_at resp off (to_be_bytes sid))

-- Each offset has room for an id in front of the end.
abbrev pub AllWithin : List ℕ → ℕ → Type 0
AllWithin [] n = Unit {0}
AllWithin (off ∷ offs) n = (off + 4 ≤ n) × AllWithin offs n

set-within : (xs ys : Bytes) (i v : ℕ) → i < length xs → set (xs ++ ys) i v ≡ set xs i v ++ ys
set-within [] ys i v h = absurd (omega (arith, h))
set-within (x ∷ xs) ys zero v h = refl
set-within (x ∷ xs) ys (suc i) v h = ap (◌∷◌ x) (set-within xs ys i v (omega (arith, h)))

copy_at-within :
    (src xs ys : Bytes) (i : ℕ)
    → i + length src ≤ length xs
    → copy_at (xs ++ ys) i src ≡ copy_at xs i src ++ ys
unfolding copy_at
copy_at-within [] xs ys i h = refl
copy_at-within (c ∷ cs) xs ys i h =
    ap (λ m. copy_at m (suc i) cs) (set-within xs ys i c (omega (arith, h)))
    ∙ copy_at-within cs (set xs i c) ys (suc i) (omega (arith, h, length-set xs i c))

write_sid-copy_at :
    (pulls : ℕ → ℕ → Bool) (msg : Bytes) (off sid : ℕ)
    → Yields (λ m. m ≡ copy_at msg off (to_be_bytes sid)) (write_sid pulls msg off sid)
unfolding write_sid
write_sid-copy_at pulls msg off sid = elim (Bool-cases (ltb max_route_body ((off + 4) % 2 ^ 32))) [
  | inl e ↦ rw e tt
  | inr e ↦ elim (Bool-cases (ltb (length msg) ((off + 4) % 2 ^ 32))) [
    | inl l ↦ rw (e, l) tt
    | inr l ↦ elim (Bool-cases (pulls off ((off + 4) % 2 ^ 32))) [
      | inl p ↦ rw (e, l, p) refl
      | inr p ↦ rw (e, l, p) tt
    ]
  ]
]

pub write_sids-stamped :
    (pulls : ℕ → ℕ → Bool) (sid : ℕ) (b : Bytes) (offs : List ℕ) (resp : Bytes)
    → AllWithin offs (length resp)
    → Yields (λ m. m ≡ stamped offs sid resp ++ b) (write_sids pulls (resp ++ b) offs sid)
unfolding write_sids to_be_bytes
write_sids-stamped pulls sid b [] resp w = refl
write_sids-stamped pulls sid b (off ∷ offs) resp w =
    elim (Option-cases (write_sid pulls (resp ++ b) off sid)) [
      | inl e ↦ rw (write_sids, e) tt
      | inr (m, e) ↦
          rw
            (
              write_sids,
              e,
              Yields-some _ _ m (write_sid-copy_at pulls (resp ++ b) off sid) e,
              copy_at-within (to_be_bytes sid) resp b off (omega (arith, w.0)),
            )
            (write_sids-stamped pulls sid b offs (copy_at resp off (to_be_bytes sid))
              (rw (length-copy_at resp off (to_be_bytes sid)) w.1))
    ]

-- The offsets of the stream ids, as far as `serve_route` reads them.
abbrev pub sids_of : Route → List ℕ
sids_of r = take (min r.h2_sid_count max_sid_offs) r.h2_sid_offs

-- The offsets that are written for a request on this stream: none for HTTP/1.1.
abbrev pub sids_for : Route → ℕ → List ℕ
sids_for r sid = if sid == 0 then [] else sids_of r

-- The response that a route answers a request on this stream with.
abbrev pub answer : Bytes → Route → ℕ → Bytes
answer arena r sid =
    let resp = loads arena (body_off_of r sid) (body_len_of r sid) in
    if sid == 0 then resp else stamped (sids_of r) sid resp

stamp-stamped :
    (h : Helpers) (r : Route) (sid : ℕ) (resp b : Bytes)
    → AllWithin (sids_for r sid) (length resp)
    → Goes
        (λ m. m ≡ (if sid == 0 then resp else stamped (sids_of r) sid resp) ++ b)
        (stamp h r sid (resp ++ b))
unfolding stamp
stamp-stamped h r sid resp b w = elim (Bool-cases (sid == 0)) [
  | inl e ↦ rw e refl
  | inr e ↦ elim (Option-cases (write_sids (reaches h) (resp ++ b) (sids_of r) sid)) [
    | inl n ↦ rw (e, n) tt
    | inr (m, n) ↦
        rw (e, n)
          (Yields-some _ _ m (write_sids-stamped (reaches h) sid b (sids_of r) resp (rw e at w)) n)
  ]
]

module _ (h : Helpers) (d : IsDocumented h) (arena : Bytes) (r : Route) (sid : ℕ) where
  pub copy_response-over :
      (b front : Bytes)
      → body_off_of r sid + body_len_of r sid < 2 ^ 32
      → body_len_of r sid ≤ max_route_body
      → length front ≡ body_len_of r sid
      → Goes
          (λ m. m ≡ loads arena (body_off_of r sid) (body_len_of r sid) ++ b)
          (copy_response h arena (body_off_of r sid) (body_len_of r sid) max_chunks 0 (front ++ b))
  copy_response-over b front low u f =
      rw
        (copy_at-over (loads arena (body_off_of r sid) (body_len_of r sid)) front b
          (f ∙ sym (length-loads arena (body_off_of r sid) (body_len_of r sid))))
        at (copy_response-all h d arena (body_off_of r sid) (body_len_of r sid) low (front ++ b) u)

  pub rewrite_and_send-answer :
      (a b : Bytes)
      → length (a ++ b) < 2 ^ 31
      → body_off_of r sid + body_len_of r sid < 2 ^ 32
      → body_len_of r sid ≤ max_route_body
      → AllWithin (sids_for r sid) (body_len_of r sid)
      → Goes (λ m. m ≡ answer arena r sid ++ b) (rewrite_and_send h arena r sid (length a) (a ++ b))
  unfolding redirect
  rewrite_and_send-answer a b l low u w =
      Goes-then_go (IsResized h (body_len_of r sid) b) (λ m. m ≡ answer arena r sid ++ b)
        (resize h (body_len_of r sid) (length a) (a ++ b)) copy_stamp_send
        (resize-IsResized h (body_len_of r sid) a b l u)
        (λ m f.
          Goes-then_go (λ m'. m' ≡ loads arena (body_off_of r sid) (body_len_of r sid) ++ b)
            (λ m'. m' ≡ answer arena r sid ++ b)
            (copy_response h arena (body_off_of r sid) (body_len_of r sid) max_chunks 0 m)
            stamp_send (rw f.eq (copy_response-over b f.front low u f.fits))
            (λ m' g.
              Goes-then_go (λ n. n ≡ answer arena r sid ++ b) (λ n. n ≡ answer arena r sid ++ b)
                (stamp h r sid m') (redirect h)
                (rw g (
                  stamp-stamped h r sid _ b
                    (rw (length-loads arena (body_off_of r sid) (body_len_of r sid)) w)))
                (λ n k. sent n k (Bool-cases h.redirects))))
    where
      stamp_send : Bytes → Stage
      stamp_send m = then_go (stamp h r sid m) (redirect h)

      copy_stamp_send : Bytes → Stage
      copy_stamp_send m =
          then_go (copy_response h arena (body_off_of r sid) (body_len_of r sid) max_chunks 0 m)
            stamp_send

      sent :
          (n : Bytes)
          → n ≡ answer arena r sid ++ b
          → (h.redirects ≡ true) ⊎ (h.redirects ≡ false)
          → Goes (λ m. m ≡ answer arena r sid ++ b) (redirect h n)
      sent n k (inl e) = rw e k
      sent n k (inr e) = rw e tt
