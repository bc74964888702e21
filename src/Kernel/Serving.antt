-- ===== src/Kernel/Serving.antt =====
-- About `serve_route` of hyper-fast-path/src/fast_path.bpf.c as a whole: what it sends, what it
-- leaves of the client's window, and what it does to a request that it does not answer.
use hyper_fast_path.Prelude.{
  ℕ, ◌+◌, ◌^◌, ◌≤◌, ◌<◌, Bool, true, false, ◌&&◌, ◌++◌, Option, none, some, length, ◌==◌, ◌≡◌, refl,
  arith, Bool-cases, inl, inr,
}
use hyper_fast_path.Prelude.Bytes.{Bytes}
use hyper_fast_path.FastPath.Attach.{Route}
use hyper_fast_path.Kernel.StreamIds.{max_route_body}
use hyper_fast_path.Kernel.Message.{Helpers, IsDocumented}
use hyper_fast_path.Kernel.Flow.{Flow}
use hyper_fast_path.Kernel.Serve.{
  Stage, go, decline, break_off, Outcome, served, declined, broken, rewrite_and_send, serve_route,
  is_servable, is_sized, is_open, is_whole, body_len_of, body_off_of, settle_up, finish,
}
use hyper_fast_path.Kernel.Responses.{Goes}
use hyper_fast_path.Kernel.Answers.{sids_for, AllWithin, answer, rewrite_and_send-answer}

-- What the results are told apart by.
abbrev pub is_served : Outcome → Bool
is_served served = true
is_served declined = false
is_served broken = false

abbrev pub is_declined : Outcome → Bool
is_declined served = false
is_declined declined = true
is_declined broken = false

pub not_served : {o : Outcome} → o ≡ served → is_served o ≡ false → ⊥
not_served e f = absurd (ground (arith, rw e at f))

pub not_declined : {o : Outcome} → o ≡ declined → is_declined o ≡ false → ⊥
not_declined e f = absurd (ground (arith, rw e at f))

pub both : (a b : Bool) → (a && b) ≡ true → (a ≡ true) × (b ≡ true)
both true b e = (refl, e)
both false b e = absurd (ground arith)

settle_up-msg :
    (P : Bytes → Type 0) (fc : Option Flow) (r : Route) (n : ℕ) (s : Stage)
    → Goes P s
    → (settle_up fc r n s).outcome ≡ served
    → P (settle_up fc r n s).msg × ((settle_up fc r n s).applied ≡ n)
settle_up-msg P none r n (go m) p e = (p, refl)
settle_up-msg P (some fc) r n (go m) p e = (p, refl)
settle_up-msg P fc r n (decline m) p e = absurd (not_served e refl)
settle_up-msg P fc r n (break_off m) p e = absurd (not_served e refl)

finish-msg :
    (P : Bytes → Type 0) (plain : Bool) (fc : Option Flow) (r : Route) (n : ℕ) (s : Stage)
    → Goes P s
    → (finish plain fc r n s).outcome ≡ served
    → P (finish plain fc r n s).msg × ((finish plain fc r n s).applied ≡ n)
finish-msg P true fc r n s p e = settle_up-msg P none r n s p e
finish-msg P false fc r n s p e = settle_up-msg P fc r n s p e

sized_len : (n : ℕ) → is_sized n ≡ true → n ≤ max_route_body
sized_len n e = ground arith

pub servable_len :
    (fc : Option Flow) (r : Route) (sid req_len : ℕ) (msg : Bytes)
    → is_servable fc r sid req_len msg ≡ true
    → body_len_of r sid ≤ max_route_body
servable_len fc r sid req_len msg e =
    sized_len (body_len_of r sid)
      (both (is_sized (body_len_of r sid)) (is_open fc r sid && is_whole req_len msg) e).0

sized_some : (n : ℕ) → is_sized n ≡ true → 0 < n
sized_some n e = ground arith

-- A route is served only if it has a response on the stream.
pub serve_route-sized :
    (h : Helpers) (arena : Bytes) (fc : Option Flow) (r : Route) (sid req_len : ℕ) (msg : Bytes)
    → (serve_route h arena fc r sid req_len msg).outcome ≡ served
    → 0 < body_len_of r sid
unfolding serve_route
serve_route-sized h arena fc r sid req_len msg =
    elim (Bool-cases (is_servable fc r sid req_len msg)) [
      | inr n ↦ rw (serve_route, n) (λ e. absurd (not_served e refl))
      | inl n ↦ λ e.
          sized_some (body_len_of r sid)
            (both (is_sized (body_len_of r sid)) (is_open fc r sid && is_whole req_len msg) n).0
    ]

-- A request of a message below 2 ^ 31 bytes and what follows it. If the route is served, then the
-- message is the route's response with the stream's id at each of its offsets, and what followed the
-- request, and the verdict is applied to the response alone. The response lies below 4 GiB in the
-- arena and the offsets lie within it; the helpers behave as documented.
pub serve_route-answer :
    (h : Helpers) (arena : Bytes) (fc : Option Flow) (r : Route) (sid : ℕ) (a b : Bytes)
    → IsDocumented h
    → length (a ++ b) < 2 ^ 31
    → body_off_of r sid + body_len_of r sid < 2 ^ 32
    → AllWithin (sids_for r sid) (body_len_of r sid)
    → (serve_route h arena fc r sid (length a) (a ++ b)).outcome ≡ served
    → ((serve_route h arena fc r sid (length a) (a ++ b)).msg ≡ answer arena r sid ++ b)
      × ((serve_route h arena fc r sid (length a) (a ++ b)).applied ≡ body_len_of r sid)
unfolding serve_route
serve_route-answer h arena fc r sid a b d l low w =
    elim (Bool-cases (is_servable fc r sid (length a) (a ++ b))) [
      | inr n ↦ rw (serve_route, n) (λ e. absurd (not_served e refl))
      | inl n ↦
          rw (serve_route, n)
            (finish-msg (λ m. m ≡ answer arena r sid ++ b) (sid == 0) fc r (body_len_of r sid) _
              (sent n))
    ]
  where
    sent :
        is_servable fc r sid (length a) (a ++ b) ≡ true
        → Goes
            (λ m. m ≡ answer arena r sid ++ b)
            (rewrite_and_send h arena r sid (length a) (a ++ b))
    sent n =
        rewrite_and_send-answer h d arena r sid a b l low
          (servable_len fc r sid (length a) (a ++ b) n) w
