-- ===== src/Kernel/Responses.antt =====
-- About the messages that `serve_route` of hyper-fast-path/src/fast_path.bpf.c sends.
use native.Mathlib.Nat.{zero-add}
use hyper_fast_path.Prelude.{
  ℕ, zero, suc, ◌+◌, ◌-◌, ◌*◌, ◌%◌, ◌^◌, ◌≤◌, ◌<◌, Bool, true, false, [], ◌++◌, length, take, min,
  ltb, leb, ◌==◌, if◌then◌else◌, ◌≡◌, refl, sym, ap, ◌∙◌, arith, Bool-cases, Option-cases, ◌⊎◌, inl,
  inr, append_assoc, length-append, length-take, take-append, drop-append,
}
use hyper_fast_path.Prelude.Bytes.{Bytes, copy_at}
use hyper_fast_path.Kernel.StreamIds.{max_route_body}
use hyper_fast_path.Kernel.Message.{Helpers, IsDocumented}
use hyper_fast_path.Kernel.Chunk.{chunk, copy_chunk-copy_at, loads, written, written-add}
use hyper_fast_path.Kernel.Serve.{
  Stage, go, decline, break_off, then_go, push_at, grow, resize, copy_response, max_chunks,
}

-- What the message satisfies, if the step goes on.
abbrev pub Goes : (Bytes → Type 0) → Stage → Type 0
Goes P (go msg) = P msg
Goes P (decline msg) = Unit {0}
Goes P (break_off msg) = Unit {0}

pub Goes-then_go :
    (P Q : Bytes → Type 0) (s : Stage) (f : Bytes → Stage)
    → Goes P s
    → ((m : Bytes) → P m → Goes Q (f m))
    → Goes Q (then_go s f)
Goes-then_go P Q (go m) f p k = k m p
Goes-then_go P Q (decline m) f p k = tt
Goes-then_go P Q (break_off m) f p k = tt

push_at-here : (x room b : Bytes) → push_at (x ++ b) (length x) room ≡ x ++ (room ++ b)
push_at-here x room b = rw (take-append x b, drop-append x b) refl

push_at-append :
    (a p room b : Bytes)
    → push_at (a ++ (p ++ b)) (length a + length p) room ≡ a ++ (p ++ room ++ b)
push_at-append a p room b =
    rw (← append_assoc a p b, ← length-append a p)
      (push_at-here (a ++ p) room b ∙ simp append_assoc refl)

-- The request with so many bytes put in behind it, and what followed it.
record IsGrown (a b m : Bytes) : Type 0 where
  room : Bytes
  eq : m ≡ a ++ (room ++ b)

module _ (h : Helpers) where
  grow-IsGrown :
      (target : ℕ) (a b : Bytes) (turns : ℕ) (first : Bool) (p : Bytes)
      → Goes (IsGrown a b) (grow h target (length (a ++ b)) (length a) turns first (a ++ (p ++ b)))
  unfolding grow
  grow-IsGrown target a b zero first p = record { room = p; eq = refl }
  grow-IsGrown target a b (suc turns) first p =
      elim (Bool-cases (leb target (length (a ++ (p ++ b))))) [
        | inl e ↦ rw e (record { room = p; eq = refl })
        | inr e ↦
            elim (Option-cases (
              h.pushes (length a + (length (a ++ (p ++ b)) - length (a ++ b)))
                (min (target - length (a ++ (p ++ b))) chunk))) [
                  | inl n ↦ rw (e, n) (halted first)
                  | inr (room, n) ↦
                      rw (e, n, at_end, push_at-append a p room b)
                        (grow-IsGrown target a b turns false (p ++ room))
                ]
      ]
    where
      at_end : length a + (length (a ++ (p ++ b)) - length (a ++ b)) ≡ length a + length p
      at_end = omega (arith, length-append a (p ++ b), length-append p b, length-append a b)

      halted :
          (c : Bool)
          → Goes (IsGrown a b) (if c then decline (a ++ (p ++ b)) else break_off (a ++ (p ++ b)))
      halted true = tt
      halted false = tt

  -- A message that holds a response's worth of bytes, and what followed the request.
  pub record IsResized (body_len : ℕ) (b m : Bytes) : Type 0 where
    pub front : Bytes
    pub fits : length front ≡ body_len
    pub eq : m ≡ front ++ b

  pub resize-IsResized :
      (body_len : ℕ) (a b : Bytes)
      → length (a ++ b) < 2 ^ 31
      → body_len ≤ max_route_body
      → Goes (IsResized body_len b) (resize h body_len (length a) (a ++ b))
  unfolding resize
  resize-IsResized body_len a b l u = elim (Bool-cases (ltb (length a) body_len)) [
    | inl e ↦ rw e (
        Goes-then_go (IsGrown a b) _ _ _ (grow-IsGrown _ a b max_chunks true [])
          (λ m g. grown e m g (Bool-cases _)))
    | inr e ↦ elim (Bool-cases (ltb body_len (length a))) [
      | inl s ↦ elim (Bool-cases (h.pops body_len (length a - body_len))) [
        | inl k ↦
            rw (e, s, k)
              (record {
                front = take body_len (a ++ b);
                fits = ground (arith, s, length-take body_len (a ++ b), length-append a b);
                eq = rw (drop-append a b) refl;
              })
        | inr k ↦ rw (e, s, k) tt
      ]
      | inr s ↦ rw (e, s) (record { front = a; fits = ground (arith, e, s); eq = refl })
    ]
  ]
    where
      grown :
          ltb (length a) body_len ≡ true
          → (m : Bytes) → IsGrown a b m
          → ((length m == ((length (a ++ b) + (body_len - length a)) % 2 ^ 32)) ≡ true)
            ⊎ ((length m == ((length (a ++ b) + (body_len - length a)) % 2 ^ 32)) ≡ false)
          → Goes (IsResized body_len b) (
              if length m == ((length (a ++ b) + (body_len - length a)) % 2 ^ 32)
              then go m
              else break_off m)
      grown e m g (inr n) = rw n tt
      grown e m g (inl n) = rw n (record {
        front = a ++ g.room;
        fits = ground (
          arith,
          l,
          u,
          e,
          n,
          ap length g.eq,
          length-append a (g.room ++ b),
          length-append g.room b,
          length-append a g.room,
          length-append a b,
        );
        eq = g.eq ∙ sym (append_assoc a g.room b);
      })

  module _ (d : IsDocumented h) (arena : Bytes) (src body_len : ℕ)
      (low : src + body_len < 2 ^ 32) where
    -- The message once so many chunks are copied.
    abbrev filled : Bytes → ℕ → Bytes
    filled m c = written arena src m 0 (min (c * chunk) body_len)

    no_wrap : (c : ℕ) → c * chunk < body_len → (src + c * chunk) % 2 ^ 32 ≡ src + c * chunk
    no_wrap c l = omega (arith, low)

    filled-next :
        (m : Bytes) (c : ℕ)
        → c * chunk < body_len
        → copy_at
            (filled m c)
            (c * chunk)
            (loads arena ((src + c * chunk) % 2 ^ 32) (min (body_len - c * chunk) chunk))
          ≡ filled m (suc c)
    filled-next m c l =
        rw (no_wrap c l, all_of c l)
          (rw zero-add at (written-add arena src m 0 (c * chunk) (min (body_len - c * chunk) chunk))
            ∙ ap (written arena src m 0) (next c l))
      where
        all_of : (i : ℕ) → i * chunk < body_len → min (i * chunk) body_len ≡ i * chunk
        all_of i k = omega arith

        next :
            (i : ℕ)
            → i * chunk < body_len
            → i * chunk + min (body_len - i * chunk) chunk ≡ min (suc i * chunk) body_len
        next i k = omega arith

    copy_response-loads :
        (turns c : ℕ) (m : Bytes)
        → body_len ≤ (c + turns) * chunk
        → Goes
            (λ m'. m' ≡ written arena src m 0 body_len)
            (copy_response h arena src body_len turns c (filled m c))
    unfolding copy_response
    copy_response-loads zero c m u =
        ap (written arena src m 0) {x = min (c * chunk) body_len} {y = body_len} (omega (arith, u))
    copy_response-loads (suc turns) c m u = elim (Bool-cases (leb body_len (c * chunk))) [
      | inl e ↦ rw e (
          ap (written arena src m 0) {x = min (c * chunk) body_len} {y = body_len}
            (ground (arith, e)))
      | inr e ↦
          elim (Option-cases (h.pulls (c * chunk) (c * chunk + min (body_len - c * chunk) chunk))) [
            | inl n ↦ rw (e, n) tt
            | inr (window, p) ↦
                rw
                  (
                    e,
                    p,
                    copy_chunk-copy_at arena ((src + c * chunk) % 2 ^ 32) (filled m c) (c * chunk)
                        window (min (body_len - c * chunk) chunk)
                        (omega (arith, d.pulls_all _ _ window p)) (omega arith),
                    filled-next m c (ground (arith, e)),
                  )
                  (copy_response-loads turns (suc c) m (omega (arith, u)))
          ]
    ]

    filled-none : (m : Bytes) → filled m 0 ≡ m
    unfolding loads copy_at
    filled-none m = ap (written arena src m 0) {x = min (0 * chunk) body_len} {y = 0} (omega arith)

    pub copy_response-all :
        (m : Bytes)
        → body_len ≤ max_route_body
        → Goes
            (λ m'. m' ≡ copy_at m 0 (loads arena src body_len))
            (copy_response h arena src body_len max_chunks 0 m)
    copy_response-all m u =
        rw (filled-none m) at (copy_response-loads max_chunks 0 m (omega (arith, u)))
