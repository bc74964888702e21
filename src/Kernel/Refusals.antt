-- ===== src/Kernel/Refusals.antt =====
-- About the requests that `serve_route` of hyper-fast-path/src/fast_path.bpf.c does not answer, and
-- what the ones that it answers take out of the client's window.
use hyper_fast_path.Prelude.{
  ℕ, zero, suc, ◌+◌, ◌-◌, ◌*◌, ◌%◌, ◌^◌, Bool, true, false, Option, none, some, length, take, min,
  ltb, leb, ◌==◌, if◌then◌else◌, ◌≡◌, refl, ap, Bool-cases, Option-cases, ◌⊎◌, inl, inr,
}
use hyper_fast_path.Prelude.Bytes.{Bytes}
use hyper_fast_path.FastPath.Attach.{Route, max_sid_offs}
use hyper_fast_path.Kernel.StreamIds.{write_sids}
use hyper_fast_path.Kernel.Message.{Helpers}
use hyper_fast_path.Kernel.Chunk.{chunk, copy_chunk}
use hyper_fast_path.Kernel.Flow.{Flow}
use hyper_fast_path.Kernel.Serve.{
  Stage, go, decline, break_off, declined, then_go, grow, resize, copy_response, max_chunks, stamp,
  reaches, redirect, rewrite_and_send, serve_route, Serving, is_servable, body_len_of, body_off_of,
  finish,
}
use hyper_fast_path.Kernel.Serving.{not_declined}

-- A step that declines leaves the message as it was.
abbrev LeavesAlone : Bytes → Stage → Type 0
LeavesAlone msg (go m) = Unit {0}
LeavesAlone msg (decline m) = m ≡ msg
LeavesAlone msg (break_off m) = Unit {0}

-- A step that does not decline.
abbrev IsCommitted : Stage → Type 0
IsCommitted (go m) = Unit {0}
IsCommitted (decline m) = ⊥
IsCommitted (break_off m) = Unit {0}

IsCommitted-LeavesAlone : (msg : Bytes) (s : Stage) → IsCommitted s → LeavesAlone msg s
IsCommitted-LeavesAlone msg (go m) c = tt
IsCommitted-LeavesAlone msg (decline m) c = absurd c
IsCommitted-LeavesAlone msg (break_off m) c = tt

then_go-LeavesAlone :
    (msg : Bytes) (s : Stage) (f : Bytes → Stage)
    → LeavesAlone msg s
    → ((m : Bytes) → IsCommitted (f m))
    → LeavesAlone msg (then_go s f)
then_go-LeavesAlone msg (go m) f l k = IsCommitted-LeavesAlone msg (f m) (k m)
then_go-LeavesAlone msg (decline m) f l k = l
then_go-LeavesAlone msg (break_off m) f l k = tt

then_go-IsCommitted :
    (s : Stage) (f : Bytes → Stage)
    → IsCommitted s
    → ((m : Bytes) → IsCommitted (f m))
    → IsCommitted (then_go s f)
then_go-IsCommitted (go m) f l k = k m
then_go-IsCommitted (decline m) f l k = l
then_go-IsCommitted (break_off m) f l k = tt

module _ (h : Helpers) where
  grow-IsCommitted :
      (target orig req_len turns : ℕ) (msg : Bytes)
      → IsCommitted (grow h target orig req_len turns false msg)
  unfolding grow
  grow-IsCommitted target orig req_len zero msg = tt
  grow-IsCommitted target orig req_len (suc turns) msg =
      elim (Bool-cases (leb target (length msg))) [
        | inl e ↦ rw e tt
        | inr e ↦
            elim (Option-cases
              (h.pushes (req_len + (length msg - orig)) (min (target - length msg) chunk))) [
                | inl n ↦ rw (e, n) tt
                | inr (room, n) ↦ rw (e, n) (grow-IsCommitted target orig req_len turns _)
              ]
      ]

  grow-LeavesAlone :
      (target orig req_len turns : ℕ) (msg : Bytes)
      → LeavesAlone msg (grow h target orig req_len turns true msg)
  unfolding grow
  grow-LeavesAlone target orig req_len zero msg = tt
  grow-LeavesAlone target orig req_len (suc turns) msg =
      elim (Bool-cases (leb target (length msg))) [
        | inl e ↦ rw e tt
        | inr e ↦
            elim (Option-cases
              (h.pushes (req_len + (length msg - orig)) (min (target - length msg) chunk))) [
                | inl n ↦ rw (e, n) refl
                | inr (room, n) ↦
                    rw (e, n)
                      (IsCommitted-LeavesAlone msg _ (grow-IsCommitted target orig req_len turns _))
              ]
      ]

  resize-LeavesAlone :
      (body_len req_len : ℕ) (msg : Bytes) → LeavesAlone msg (resize h body_len req_len msg)
  unfolding resize
  resize-LeavesAlone body_len req_len msg = elim (Bool-cases (ltb req_len body_len)) [
    | inl e ↦ rw e (
        then_go-LeavesAlone msg _ _ (grow-LeavesAlone _ (length msg) req_len max_chunks msg)
          (λ m. checked m (Bool-cases _)))
    | inr e ↦ elim (Bool-cases (ltb body_len req_len)) [
      | inl s ↦ elim (Bool-cases (h.pops body_len (req_len - body_len))) [
        | inl k ↦ rw (e, s, k) tt
        | inr k ↦ rw (e, s, k) refl
      ]
      | inr s ↦ rw (e, s) tt
    ]
  ]
    where
      checked :
          {c : Bool} (m : Bytes)
          → (c ≡ true) ⊎ (c ≡ false)
          → IsCommitted (if c then go m else break_off m)
      checked m (inl e) = rw e tt
      checked m (inr e) = rw e tt

  copy_response-IsCommitted :
      (arena : Bytes) (src body_len turns c : ℕ) (m : Bytes)
      → IsCommitted (copy_response h arena src body_len turns c m)
  unfolding copy_response
  copy_response-IsCommitted arena src body_len zero c m = tt
  copy_response-IsCommitted arena src body_len (suc turns) c m =
      elim (Bool-cases (leb body_len (c * chunk))) [
        | inl e ↦ rw e tt
        | inr e ↦
            elim (Option-cases
              (h.pulls (c * chunk) (c * chunk + min (body_len - c * chunk) chunk))) [
                | inl n ↦ rw (e, n) tt
                | inr (window, n) ↦
                    elim (Option-cases (
                      copy_chunk arena ((src + c * chunk) % 2 ^ 32) m (c * chunk) window
                        (min (body_len - c * chunk) chunk))) [
                          | inl k ↦ rw (e, n, k) tt
                          | inr (m', k) ↦
                              rw (e, n, k)
                                (copy_response-IsCommitted arena src body_len turns (suc c) m')
                        ]
              ]
      ]

  stamp-IsCommitted : (r : Route) (sid : ℕ) (m : Bytes) → IsCommitted (stamp h r sid m)
  unfolding stamp
  stamp-IsCommitted r sid m = elim (Bool-cases (sid == 0)) [
    | inl e ↦ rw e tt
    | inr e ↦
        elim (Option-cases
          (write_sids (reaches h) m (take (min r.h2_sid_count max_sid_offs) r.h2_sid_offs) sid)) [
            | inl n ↦ rw (e, n) tt
            | inr (m', n) ↦ rw (e, n) tt
          ]
  ]

  redirect-IsCommitted : (m : Bytes) → IsCommitted (redirect h m)
  unfolding redirect
  redirect-IsCommitted m = elim (Bool-cases h.redirects) [ inl e ↦ rw e tt | inr e ↦ rw e tt ]

  rewrite_and_send-LeavesAlone :
      (arena : Bytes) (r : Route) (sid req_len : ℕ) (msg : Bytes)
      → LeavesAlone msg (rewrite_and_send h arena r sid req_len msg)
  rewrite_and_send-LeavesAlone arena r sid req_len msg =
      then_go-LeavesAlone msg _ _ (resize-LeavesAlone (body_len_of r sid) req_len msg) (λ m.
        then_go-IsCommitted _ _
          (copy_response-IsCommitted arena (body_off_of r sid) (body_len_of r sid) max_chunks 0 m)
          (λ m'.
            then_go-IsCommitted _ _ (stamp-IsCommitted r sid m') (λ n. redirect-IsCommitted n)))

-- A request that was not taken up.
abbrev pub passed : Option Flow → Bytes → Serving
passed fc msg = record { outcome = declined; msg = msg; flow = fc; applied = 0 }

finish-passed :
    (msg : Bytes) (plain : Bool) (fc : Option Flow) (r : Route) (n : ℕ) (s : Stage)
    → LeavesAlone msg s
    → (finish plain fc r n s).outcome ≡ declined
    → finish plain fc r n s ≡ passed fc msg
finish-passed msg true fc r n (go m) l e = absurd (not_declined e refl)
finish-passed msg true fc r n (decline m) l e = ap (passed fc) l
finish-passed msg true fc r n (break_off m) l e = absurd (not_declined e refl)
finish-passed msg false none r n (go m) l e = absurd (not_declined e refl)
finish-passed msg false (some f) r n (go m) l e = absurd (not_declined e refl)
finish-passed msg false fc r n (decline m) l e = ap (passed fc) l
finish-passed msg false fc r n (break_off m) l e = absurd (not_declined e refl)

-- If the route is declined, then whichever helper failed, the message, the connection's windows and
-- its count are what they were, and the verdict is applied to nothing.
pub serve_route-passed :
    (h : Helpers) (arena : Bytes) (fc : Option Flow) (r : Route) (sid req_len : ℕ) (msg : Bytes)
    → (serve_route h arena fc r sid req_len msg).outcome ≡ declined
    → serve_route h arena fc r sid req_len msg ≡ passed fc msg
unfolding serve_route
serve_route-passed h arena fc r sid req_len msg =
    elim (Bool-cases (is_servable fc r sid req_len msg)) [
      | inr n ↦ rw (serve_route, n) (λ e. refl)
      | inl n ↦
          rw (serve_route, n)
            (finish-passed msg (sid == 0) fc r (body_len_of r sid) _
              (rewrite_and_send-LeavesAlone h arena r sid req_len msg))
    ]
