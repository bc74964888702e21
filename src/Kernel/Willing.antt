-- ===== src/Kernel/Willing.antt =====
-- About the steps of `serve_route` of hyper-fast-path/src/fast_path.bpf.c, when no helper fails.
use hyper_fast_path.Prelude.{
  ℕ, zero, suc, ◌+◌, ◌-◌, ◌*◌, ◌%◌, ◌^◌, ◌≤◌, ◌<◌, Bool, true, false, List, [], ◌∷◌, ◌++◌, some,
  length, take, drop, min, ltb, ltb-false, leb, ==_iff, ◌≡◌, refl, ap, ◌∙◌, arith, Bool-cases, inl,
  inr, length-append, length-take, length-drop,
}
use hyper_fast_path.Prelude.Bytes.{Bytes, copy_at, to_be_bytes, length-copy_at}
use hyper_fast_path.Kernel.StreamIds.{max_route_body, write_sid, write_sids}
use hyper_fast_path.Kernel.Message.{Helpers, IsDocumented}
use hyper_fast_path.Kernel.Chunk.{chunk, copy_chunk-copy_at}
use hyper_fast_path.Kernel.Serve.{
  Stage, go, decline, break_off, then_go, push_at, grow, resize, copy_response, max_chunks, reaches,
}
use hyper_fast_path.Kernel.Responses.{Goes}
use hyper_fast_path.Kernel.Answers.{AllWithin}

-- A step that goes on, with a message that satisfies this.
abbrev pub Proceeds : (Bytes → Type 0) → Stage → Type 0
Proceeds P (go m) = P m
Proceeds P (decline m) = ⊥
Proceeds P (break_off m) = ⊥

abbrev pub IsGoing : Stage → Type 0
IsGoing = Proceeds (λ m. Unit {0})

pub IsGoing-Proceeds : (P : Bytes → Type 0) (s : Stage) → IsGoing s → Goes P s → Proceeds P s
IsGoing-Proceeds P (go m) i g = g
IsGoing-Proceeds P (decline m) i g = absurd i
IsGoing-Proceeds P (break_off m) i g = absurd i

pub then_go-Proceeds :
    (P Q : Bytes → Type 0) (s : Stage) (f : Bytes → Stage)
    → Proceeds P s
    → ((m : Bytes) → P m → Proceeds Q (f m))
    → Proceeds Q (then_go s f)
then_go-Proceeds P Q (go m) f p k = k m p
then_go-Proceeds P Q (decline m) f p k = absurd p
then_go-Proceeds P Q (break_off m) f p k = absurd p

-- No call of a helper fails.
pub record IsWilling (h : Helpers) : Type 0 where
  pub pushes_some : (off len : ℕ) → (b : Bytes) × (h.pushes off len ≡ some b)
  pub pulls_some : (start end : ℕ) → (w : ℕ) × (h.pulls start end ≡ some w)
  pub pops_true : (off len : ℕ) → h.pops off len ≡ true
  pub redirects_true : h.redirects ≡ true

length-push_at :
    (msg : Bytes) (off : ℕ) (room : Bytes)
    → length (push_at msg off room) ≡ length msg + length room
length-push_at msg off room = omega (
  arith,
  length-append (take off msg) (room ++ drop off msg),
  length-append room (drop off msg),
  length-take off msg,
  length-drop off msg,
)

module _ (h : Helpers) (d : IsDocumented h) (y : IsWilling h) where
  grow-target :
      (target orig req_len turns : ℕ) (first : Bool) (msg : Bytes)
      → length msg ≤ target
      → target ≤ length msg + turns * chunk
      → Proceeds (λ m. length m ≡ target) (grow h target orig req_len turns first msg)
  unfolding grow
  grow-target target orig req_len zero first msg l u = omega (arith, l, u)
  grow-target target orig req_len (suc turns) first msg l u =
      elim (Bool-cases (leb target (length msg))) [
        | inl e ↦ rw e (ground (arith, e, l))
        | inr e ↦
            rw
              (
                e,
                (y.pushes_some (req_len + (length msg - orig)) (min (target - length msg) chunk)).1,
              )
              (grow-target target orig req_len turns false _ (omega (arith, grown, l))
                (omega (arith, grown, u)))
      ]
    where
      grown :
          length (
            push_at msg
              (req_len + (length msg - orig))
              (y.pushes_some (req_len + (length msg - orig)) (min (target - length msg) chunk)).0)
          ≡ length msg + min (target - length msg) chunk
      grown =
          length-push_at msg _ _
          ∙ ap (λ n. length msg + n)
              (d.pushes_all _ _ _
                (y.pushes_some (req_len + (length msg - orig)) (min (target - length msg) chunk)).1)

  pub resize-IsGoing :
      (body_len req_len : ℕ) (msg : Bytes)
      → length msg < 2 ^ 31
      → body_len ≤ max_route_body
      → IsGoing (resize h body_len req_len msg)
  unfolding resize
  resize-IsGoing body_len req_len msg l u = elim (Bool-cases (ltb req_len body_len)) [
    | inl e ↦ rw e (
        then_go-Proceeds (λ m. length m ≡ (length msg + (body_len - req_len)) % 2 ^ 32) _ _ _
          (grow-target _ (length msg) req_len max_chunks true msg (omega (arith, l, u))
            (omega (arith, l, u)))
          (λ m g. rw ((==_iff (length m) ((length msg + (body_len - req_len)) % 2 ^ 32)).1 g) tt))
    | inr e ↦ elim (Bool-cases (ltb body_len req_len)) [
      | inl s ↦ rw (e, s, y.pops_true body_len (req_len - body_len)) tt
      | inr s ↦ rw (e, s) tt
    ]
  ]

  pub copy_response-IsGoing :
      (arena : Bytes) (src body_len turns c : ℕ) (m : Bytes)
      → IsGoing (copy_response h arena src body_len turns c m)
  unfolding copy_response
  copy_response-IsGoing arena src body_len zero c m = tt
  copy_response-IsGoing arena src body_len (suc turns) c m =
      elim (Bool-cases (leb body_len (c * chunk))) [
        | inl e ↦ rw e tt
        | inr e ↦
            let pull = y.pulls_some (c * chunk) (c * chunk + min (body_len - c * chunk) chunk) in
            rw
              (
                e,
                pull.1,
                copy_chunk-copy_at arena ((src + c * chunk) % 2 ^ 32) m (c * chunk) pull.0
                    (min (body_len - c * chunk) chunk)
                    (omega (arith, d.pulls_all _ _ pull.0 pull.1)) (omega arith),
              )
              (copy_response-IsGoing arena src body_len turns (suc c) _)
      ]

  reached : (off : ℕ) → reaches h off (off + 4) ≡ true
  reached off =
      let pull = y.pulls_some off (off + 4) in
      rw (reaches, pull.1) (wide pull.0 (d.pulls_all _ _ pull.0 pull.1))
    where
      wide : (w : ℕ) → (off + 4) - off ≤ w → leb 4 w ≡ true
      wide w a = ground (arith, a)

  write_sid-some :
      (msg : Bytes) (off sid n : ℕ)
      → off + 4 ≤ n
      → n ≤ length msg
      → n ≤ max_route_body
      → write_sid (reaches h) msg off sid ≡ some (copy_at msg off (to_be_bytes sid))
  unfolding write_sid
  write_sid-some msg off sid n o l u =
      rw
        (
          no_wrap o u,
          ltb-false max_route_body (off + 4) (omega (arith, o, u)),
          ltb-false (length msg) (off + 4) (omega (arith, o, l)),
          reached off,
        )
        refl
    where
      no_wrap : off + 4 ≤ n → n ≤ max_route_body → (off + 4) % 2 ^ 32 ≡ off + 4
      no_wrap a b = omega (arith, a, b)

  pub write_sids-some :
      (sid n : ℕ) (offs : List ℕ) (msg : Bytes)
      → AllWithin offs n
      → n ≤ length msg
      → n ≤ max_route_body
      → (m : Bytes) × (write_sids (reaches h) msg offs sid ≡ some m)
  unfolding write_sids
  write_sids-some sid n [] msg w l u = (msg, refl)
  write_sids-some sid n (off ∷ offs) msg w l u =
      rw (write_sids, write_sid-some msg off sid n w.0 l u)
        (write_sids-some sid n offs (copy_at msg off (to_be_bytes sid)) w.1
          (rw (length-copy_at msg off (to_be_bytes sid)) l) u)
