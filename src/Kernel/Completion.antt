-- ===== src/Kernel/Completion.antt =====
-- About when `serve_route` of hyper-fast-path/src/fast_path.bpf.c answers.
use hyper_fast_path.Prelude.{
  ℕ, ◌+◌, ◌^◌, ◌≤◌, ◌<◌, Bool, true, false, ◌++◌, Option, none, some, length, ◌==◌, ◌≡◌, refl, ap,
  arith, Bool-cases, inl, inr, length-append,
}
use hyper_fast_path.Prelude.Bytes.{Bytes}
use hyper_fast_path.FastPath.Attach.{Route}
use hyper_fast_path.Kernel.StreamIds.{max_route_body}
use hyper_fast_path.Kernel.Message.{Helpers, IsDocumented}
use hyper_fast_path.Kernel.Chunk.{loads, length-loads}
use hyper_fast_path.Kernel.Flow.{Flow}
use hyper_fast_path.Kernel.Serve.{
  Stage, go, decline, break_off, served, then_go, resize, copy_response, max_chunks, stamp,
  redirect, rewrite_and_send, serve_route, is_servable, body_len_of, body_off_of, finish,
}
use hyper_fast_path.Kernel.Responses.{IsResized, resize-IsResized}
use hyper_fast_path.Kernel.Answers.{sids_of, sids_for, AllWithin, copy_response-over}
use hyper_fast_path.Kernel.Serving.{servable_len}
use hyper_fast_path.Kernel.Willing.{
  IsGoing, IsWilling, IsGoing-Proceeds, then_go-Proceeds, resize-IsGoing, copy_response-IsGoing,
  write_sids-some,
}

module _ (h : Helpers) (d : IsDocumented h) (y : IsWilling h) where
  stamp-IsGoing :
      (r : Route) (sid n : ℕ) (m : Bytes)
      → AllWithin (sids_for r sid) n
      → n ≤ length m
      → n ≤ max_route_body
      → IsGoing (stamp h r sid m)
  unfolding stamp
  stamp-IsGoing r sid n m w l u = elim (Bool-cases (sid == 0)) [
    | inl e ↦ rw e tt
    | inr e ↦ rw (e, (write_sids-some h d y sid n (sids_of r) m (rw e at w) l u).1) tt
  ]

  module _ (arena : Bytes) (r : Route) (sid : ℕ) where
    rewrite_and_send-IsGoing :
        (a b : Bytes)
        → length (a ++ b) < 2 ^ 31
        → body_off_of r sid + body_len_of r sid < 2 ^ 32
        → body_len_of r sid ≤ max_route_body
        → AllWithin (sids_for r sid) (body_len_of r sid)
        → IsGoing (rewrite_and_send h arena r sid (length a) (a ++ b))
    unfolding redirect
    rewrite_and_send-IsGoing a b l low u w =
        then_go-Proceeds (IsResized h (body_len_of r sid) b) (λ m. Unit {0})
          (resize h (body_len_of r sid) (length a) (a ++ b)) copy_stamp_send
          (IsGoing-Proceeds _ _ (resize-IsGoing h d y (body_len_of r sid) (length a) (a ++ b) l u)
            (resize-IsResized h (body_len_of r sid) a b l u))
          (λ m f.
            then_go-Proceeds (λ m'. m' ≡ loads arena (body_off_of r sid) (body_len_of r sid) ++ b)
              (λ m'. Unit {0})
              (copy_response h arena (body_off_of r sid) (body_len_of r sid) max_chunks 0 m)
              stamp_send
              (IsGoing-Proceeds _ _
                (copy_response-IsGoing h d y arena (body_off_of r sid) (body_len_of r sid)
                  max_chunks 0 m)
                (rw f.eq (copy_response-over h d arena r sid b f.front low u f.fits)))
              (λ m' g.
                then_go-Proceeds (λ n. Unit {0}) (λ n. Unit {0}) (stamp h r sid m') (redirect h)
                  (stamp-IsGoing r sid (body_len_of r sid) m' w (long m' g) u)
                  (λ n k. rw y.redirects_true tt)))
      where
        stamp_send : Bytes → Stage
        stamp_send m = then_go (stamp h r sid m) (redirect h)

        copy_stamp_send : Bytes → Stage
        copy_stamp_send m =
            then_go (copy_response h arena (body_off_of r sid) (body_len_of r sid) max_chunks 0 m)
              stamp_send

        long :
            (m : Bytes)
            → m ≡ loads arena (body_off_of r sid) (body_len_of r sid) ++ b
            → body_len_of r sid ≤ length m
        long m g = omega (
          arith,
          ap length g,
          length-append (loads arena (body_off_of r sid) (body_len_of r sid)) b,
          length-loads arena (body_off_of r sid) (body_len_of r sid),
        )

finish-served :
    (plain : Bool) (fc : Option Flow) (r : Route) (n : ℕ) (s : Stage)
    → IsGoing s
    → (finish plain fc r n s).outcome ≡ served
finish-served true fc r n (go m) i = refl
finish-served false none r n (go m) i = refl
finish-served false (some f) r n (go m) i = refl
finish-served plain fc r n (decline m) i = absurd i
finish-served plain fc r n (break_off m) i = absurd i

-- A request that passes the checks is served, if no helper fails: growing the message takes no more
-- pushes, and copying the response no more windows, than the program makes. The message is below
-- 2 ^ 31 bytes, the response lies below 4 GiB in the arena and the offsets of the stream's id lie
-- within it; the helpers behave as documented.
pub serve_route-served :
    (h : Helpers) (arena : Bytes) (fc : Option Flow) (r : Route) (sid : ℕ) (a b : Bytes)
    → IsDocumented h
    → IsWilling h
    → length (a ++ b) < 2 ^ 31
    → body_off_of r sid + body_len_of r sid < 2 ^ 32
    → AllWithin (sids_for r sid) (body_len_of r sid)
    → is_servable fc r sid (length a) (a ++ b) ≡ true
    → (serve_route h arena fc r sid (length a) (a ++ b)).outcome ≡ served
unfolding serve_route
serve_route-served h arena fc r sid a b d y l low w n =
    rw (serve_route, n)
      (finish-served (sid == 0) fc r (body_len_of r sid) _ (
        rewrite_and_send-IsGoing h d y arena r sid a b l low
          (servable_len fc r sid (length a) (a ++ b) n) w))
