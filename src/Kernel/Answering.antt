-- ===== src/Kernel/Answering.antt =====
-- About the requests of an HTTP/2 connection that `msg_verdict` of
-- hyper-fast-path/src/fast_path.bpf.c answers.
use hyper_fast_path.Prelude.{
  ℕ, ◌+◌, ◌-◌, ◌^◌, ◌≤◌, ◌<◌, Bool, true, false, not, ◌||◌, ◌&&◌, ◌++◌, Option, none, some,
  none-some, length, ltb, leb, leb→le, ◌==◌, min, get_or, if◌then◌else◌, ◌≡◌, refl, arith,
  Bool-cases, Option-cases, inl, inr,
}
use hyper_fast_path.Prelude.Bytes.{Bytes}
use hyper_fast_path.FastPath.Attach.{Route, no_route, max_routes, max_route_path, padded}
use hyper_fast_path.Kernel.Message.{IsDocumented}
use hyper_fast_path.Kernel.Flow.{Flow}
use hyper_fast_path.Kernel.Sync.{max_sync_entries}
use hyper_fast_path.Kernel.Serve.{
  Serving, Outcome, served, declined, broken, body_len_of, body_off_of,
}
use hyper_fast_path.Kernel.Serving.{not_served, both, serve_route-sized, serve_route-answer}
use hyper_fast_path.Kernel.Answers.{answer, sids_for, AllWithin}
use hyper_fast_path.Kernel.HandOver.{Conn, Passing, hand_over}
use hyper_fast_path.Kernel.Verdict.{
  Env, H1Parsed, H2Parsed, Verdict, dropped, answered, handed, Processed, try_serve_route,
  handshaken, has_request, servable_path, h2_handshaked, h2_len, is_positive, hand_to_user,
  after_serving, verdict_frame, msg_verdict,
}

abbrev pub is_answered : Verdict → Bool
is_answered dropped = false
is_answered (answered n) = true
is_answered (handed n) = false

pub not_answered : {v : Verdict} {n : ℕ} → v ≡ answered n → is_answered v ≡ false → ⊥
not_answered e f = absurd (ground (arith, rw e at f))

if_some :
    (c : Bool) (o : Option Bytes) (p : Bytes)
    → (if c then o else none) ≡ some p
    → (c ≡ true) × (o ≡ some p)
if_some true o p e = (refl, e)
if_some false o p e = absurd (none-some p e)

-- The row of the table that an index leads to.
abbrev pub row : Env → ℕ → Route
row env idx = get_or env.routes (min idx (max_routes - 1)) no_route

-- The rows that the index leads to lead into the first 4 GiB of the arena, and their offsets into
-- the response.
pub record IsLoaded (env : Env) : Type 0 where
  pub low :
      (key : Bytes) (idx sid : ℕ)
      → env.route_idx key ≡ some idx
      → body_off_of (row env idx) sid + body_len_of (row env idx) sid < 2 ^ 32
  pub within :
      (key : Bytes) (idx sid : ℕ)
      → env.route_idx key ≡ some idx
      → 0 < body_len_of (row env idx) sid
      → AllWithin (sids_for (row env idx) sid) (body_len_of (row env idx) sid)

-- A request for this path, and what follows it, was answered.
pub record Found (env : Env) (path : Bytes) (sid : ℕ) (b m : Bytes) : Type 0 where
  pub idx : ℕ
  pub indexed : env.route_idx (padded path) ≡ some idx
  pub sized : 0 < body_len_of (row env idx) sid
  pub sent : m ≡ answer env.arena (row env idx) sid ++ b

pub try_serve_route-Found :
    (env : Env) (fc : Option Flow) (path : Bytes) (sid : ℕ) (a b : Bytes)
    → IsDocumented env.h
    → IsLoaded env
    → length (a ++ b) < 2 ^ 31
    → (try_serve_route env fc path sid (length a) (a ++ b)).outcome ≡ served
    → Found env path sid b (try_serve_route env fc path sid (length a) (a ++ b)).msg
unfolding try_serve_route
try_serve_route-Found env fc path sid a b d i l =
    elim (Bool-cases (length path == 0 || (ltb max_route_path (length path) || not env.readable))) [
      | inl e ↦ rw (try_serve_route, e) (λ k. absurd (not_served k refl))
      | inr e ↦ elim (Option-cases (env.route_idx (padded path))) [
        | inl n ↦ rw (try_serve_route, e, n) (λ k. absurd (not_served k refl))
        | inr (idx, n) ↦
            rw (try_serve_route, e, n)
              (λ k.
                let sized =
                  serve_route-sized env.h env.arena fc (row env idx) sid (length a) (a ++ b) k in
                record {
                  idx = idx;
                  indexed = n;
                  sized = sized;
                  sent =
                      (serve_route-answer env.h env.arena fc (row env idx) sid a b d l
                        (i.low (padded path) idx sid n) (i.within (padded path) idx sid n sized)
                        k).0;
                })
      ]
    ]

-- What an answer on an HTTP/2 connection means.
pub record Answered (env : Env) (state : ℕ) (f : H2Parsed) (b : Bytes) (r : Processed)
    : Type 0 where
  pub path : Bytes
  pub asked : f.path ≡ some path
  pub found : Found env path f.sid b r.msg
  pub after_handshake : h2_handshaked ≤ handshaken state f
  pub replayable : f.dt_count_before ≤ max_sync_entries
  pub marked : r.conn.dirty ≡ true

after_serving-Answered :
    (env : Env) (state : ℕ) (f : H2Parsed) (b path : Bytes) (conn : Conn)
    (on_its_way : Passing → Processed) (len k : ℕ) (o : Outcome) (s : Serving)
    → s.outcome ≡ o
    → (servable_path (handshaken state f) f ≡ some path)
    → (s.outcome ≡ served → Found env path f.sid b s.msg)
    → ((p : Passing) → is_answered (on_its_way p).verdict ≡ false)
    → (after_serving s conn true on_its_way len).verdict ≡ answered k
    → Answered env state f b (after_serving s conn true on_its_way len)
after_serving-Answered env state f b path conn on_its_way len k served s e c p n =
    rw (after_serving, e)
      (λ u.
        let i =
          if_some
            (has_request f
              && (leb h2_handshaked (handshaken state f) && leb f.dt_count_before max_sync_entries))
            f.path path c in
        let j =
          both (leb h2_handshaked (handshaken state f)) (leb f.dt_count_before max_sync_entries)
            (both (has_request f) _ i.0).1 in
        record {
          path = path;
          asked = i.1;
          found = p e;
          after_handshake = leb→le _ _ j.0;
          replayable = leb→le _ _ j.1;
          marked = refl;
        })
after_serving-Answered env state f b path conn on_its_way len k declined s e c p n =
    rw (after_serving, e) (λ u. absurd (not_answered u (n _)))
after_serving-Answered env state f b path conn on_its_way len k broken s e c p n =
    rw (after_serving, e) (λ u. absurd (not_answered u refl))

hand_to_user-quiet :
    (env : Env) (n : ℕ) (p : Passing) → is_answered (hand_to_user env n p).verdict ≡ false
unfolding hand_to_user
hand_to_user-quiet env n p =
    elim (Option-cases (hand_over env.field_maxlen env.get_dt_entry env.h n p)) [
      | inl e ↦ rw (hand_to_user, e) refl
      | inr (q, e) ↦ rw (hand_to_user, e) refl
    ]

verdict_frame-Answered :
    (env : Env) (state : ℕ) (conn : Conn) (f : H2Parsed) (a b : Bytes) (k : ℕ)
    → IsDocumented env.h
    → IsLoaded env
    → length (a ++ b) < 2 ^ 31
    → length a ≡ h2_len f
    → (verdict_frame env state conn f (a ++ b)).verdict ≡ answered k
    → Answered env state f b (verdict_frame env state conn f (a ++ b))
unfolding verdict_frame
verdict_frame-Answered env state conn f a b k d i l m =
    elim (Option-cases (servable_path (handshaken state f) f)) [
      | inl e ↦
          rw (verdict_frame, e)
            (λ u.
              absurd (
                not_answered u (quiet (record { conn = moved; msg = a ++ b; msg_len = h2_len f }))))
      | inr (path, e) ↦ elim (Bool-cases (is_positive (h2_len f))) [
        | inr g ↦
            rw (verdict_frame, e, g)
              (λ u. absurd (
                not_answered u (quiet (record { conn = moved; msg = a ++ b; msg_len = h2_len f }))))
        | inl g ↦
            rw (verdict_frame, e, g)
              (after_serving-Answered env state f b path moved (hand_to_user env f.dt_count_before)
                (h2_len f) k _ (try_serve_route env conn.flow path f.sid (h2_len f) (a ++ b)) refl e
                (rw m at (try_serve_route-Found env conn.flow path f.sid a b d i l)) quiet)
      ]
    ]
  where
    moved : Conn
    moved = record conn { state = some (handshaken state f) }

    quiet : (p : Passing) → is_answered (hand_to_user env f.dt_count_before p).verdict ≡ false
    quiet p = hand_to_user-quiet env f.dt_count_before p

-- A frame of an HTTP/2 connection, and what follows it in the message: if the verdict answers it,
-- then the handshake was complete, the table before it could be replayed, the route index leads from
-- the path that it asks for to a route whose response on the frame's stream is what the message now
-- holds in its place, and the connection is marked as one whose tables may have drifted apart. The
-- indexed routes lead into the first 4 GiB of the arena; the helpers behave as documented.
pub msg_verdict-Answered :
    (env : Env) (state : ℕ) (conn : Conn) (h1 : Option H1Parsed) (f : H2Parsed) (a b : Bytes)
    (k : ℕ)
    → IsDocumented env.h
    → IsLoaded env
    → length (a ++ b) < 2 ^ 31
    → length a ≡ h2_len f
    → conn.state ≡ some state
    → (msg_verdict env conn h1 (some f) (a ++ b)).verdict ≡ answered k
    → Answered env state f b (msg_verdict env conn h1 (some f) (a ++ b))
unfolding msg_verdict
msg_verdict-Answered env state conn h1 f a b k d i l m e =
    rw (msg_verdict, e) (verdict_frame-Answered env state conn f a b k d i l m)
