-- ===== src/Server/Delivery.antt =====
-- What the handler of hyper-fast-path/src/server.rs gives the h2 codec, end to end.
use native.Mathlib.Nat.{add-zero}
use hyper_fast_path.Prelude.{
  some_eq, none-some, ℕ, zero, suc, ◌+◌, sym, ap, List, [], ◌∷◌, ◌++◌, Option, some, ◌≡◌, refl, ◌∙◌,
  Option-cases, ◌⊎◌, inl, inr, append-nil, arith, map,
}
use hyper_fast_path.Prelude.Bytes.{Bytes}
use hyper_fast_path.Listener.SyncHandle
use hyper_fast_path.Listener.FlowHandle
use hyper_fast_path.Listener.View.{View, start, consumes}
use hyper_fast_path.Listener.Turns.{IsWf}
use hyper_fast_path.Listener.Stream.{
  BeeperStream, Read, http1, http2, Verdict, decided, read_error, undecided, protocol, accept,
}
use hyper_fast_path.Listener.Session.{Handed}
use hyper_fast_path.Listener.Polling.{none_handed, arrivals, whole}
use hyper_fast_path.Listener.Detection.{protocol-whole}
use hyper_fast_path.Listener.Schedule.{
  poll, take_updates, take_served, Action, Session, step, run, Keeps, run-Keeps,
}
use hyper_fast_path.Server.Contract.{Documented, account_seen, prime_seen}
use hyper_fast_path.Server.Turns.{
  Codec, Accepted, account, prime, after_prime, accept_turn, serve_h2, Ended, finished, failed,
  running, dropped, waiting, over, broken, request, carry_on, dispatch, serve_connection,
}

inl-inr : {C D : Type 0} (a : C) (b : D) → inl a ≡ inr b → ⊥
inl-inr a b e = cc

inr_eq : {C D : Type 0} (a b : D) → ◌≡◌ {A = C ⊎ D} (inr a) (inr b) → a ≡ b
inr_eq a b e = cc

module _ {C R : Type 0} (h2 : Codec C R) (doc : Documented h2) where
  -- The session of the codec and its stream.
  abbrev pub session : C → BeeperStream → Session
  session c me = record { handed = doc.seen c; stream = me }

  -- What was taken for the codec and not given to it counts as well.
  abbrev pub credited : Handed → Ended → Handed
  credited h finished = h
  credited h failed = h
  credited h running = h
  credited h (dropped sent blocks) = record h {
    served = h.served + sent;
    updates = h.updates ++ blocks;
  }

  -- What `serve_h2` returns, as a session.
  abbrev pub left : List R × (Ended × C × BeeperStream) → Session
  left (requests, (ended, c, me)) = record { handed = credited (doc.seen c) ended; stream = me }

  abbrev counted : BeeperStream → BeeperStream
  counted me = record me {
    scanner = record me.scanner { spent = (FlowHandle.take me.scanner.spent).1 };
  }

  abbrev taken : BeeperStream → BeeperStream
  taken me = record me {
    scanner = record me.scanner {
      spent = (FlowHandle.take me.scanner.spent).1;
      updates = (SyncHandle.take me.scanner.updates).1;
    };
  }

  -- The codec once both handles are taken.
  abbrev given : C → BeeperStream → Handed
  given c me = record (doc.seen c) {
    served = (doc.seen c).served + (FlowHandle.take me.scanner.spent).0;
    updates = (doc.seen c).updates ++ (SyncHandle.take me.scanner.updates).0;
  }

  -- How the updates end a turn, or not.
  abbrev Turned :
      C → BeeperStream → (Ended × C × BeeperStream) ⊎ (Accepted R × C × BeeperStream) → Type 0
  Turned c me (inl ended) =
      (actions : List Action) × (run (session c me) actions ≡ left ([], ended))
  Turned c me (inr (a, c', me')) =
      (rooms : List ℕ) × (run (session c me) (take_served ∷ take_updates ∷ map poll rooms)
        ≡ session c' me')

  after_prime-Turned :
      (c : C) (me : BeeperStream) (p : List Bytes × C)
      → record (doc.seen p.1) { updates = (doc.seen p.1).updates ++ p.0 } ≡ given c me
      → Turned c me (after_prime h2 p (taken me))
  unfolding run step
  after_prime-Turned c me ([], g) e =
      let (rooms, r) = doc.polls g (taken me) in
      let seen_eq : doc.seen g ≡ given c me =
        ap (λ bs. record (doc.seen g) { updates = bs }) (sym (append-nil (doc.seen g).updates))
        ∙ e in
      (rooms, rw seen_eq at r)
  after_prime-Turned c me (b ∷ bs, g) e = (
    take_served ∷ take_updates ∷ [],
    ap (λ (h : Handed). record { handed = h; stream = taken me }) (sym (e' c me (b ∷ bs) g e)),
  )
    where
      e' :
          (c : C) (me : BeeperStream) (bs : List Bytes) (g : C)
          → record (doc.seen g) { updates = (doc.seen g).updates ++ bs } ≡ given c me
          → credited (doc.seen g) (dropped 0 bs) ≡ given c me
      e' c me bs g e =
          ap (λ n. record (doc.seen g) { updates = (doc.seen g).updates ++ bs; served = n })
            (add-zero (doc.seen g).served)
          ∙ e

  accept_turn-Turned : (c : C) (me : BeeperStream) → Turned c me (accept_turn h2 c me)
  unfolding accept_turn run step
  accept_turn-Turned c me =
      elim (Option-cases (account h2 (FlowHandle.take me.scanner.spent).0 c)) [
        | inl n ↦
            rw (accept_turn, n)
              (
                take_served ∷ [],
                ap
                    (λ (bs : List Bytes). record {
                      handed = record (doc.seen c) {
                        served = (doc.seen c).served + (FlowHandle.take me.scanner.spent).0;
                        updates = bs;
                      };
                      stream = counted me;
                    })
                    (sym (append-nil (doc.seen c).updates)),
              )
        | inr (d, f) ↦
            rw (accept_turn, f)
              (after_prime-Turned c me (prime h2 (SyncHandle.take me.scanner.updates).0 d) (
                prime_seen h2 doc (SyncHandle.take me.scanner.updates).0 d
                ∙ ap
                    (λ (h : Handed). record h {
                      updates = h.updates ++ (SyncHandle.take me.scanner.updates).0;
                    })
                    (account_seen h2 doc (FlowHandle.take me.scanner.spent).0 c d f)))
      ]

  -- With an h2 codec that behaves as `Documented` says, a turn that makes no error is a schedule:
  -- both handles are taken, then the stream is polled some times, and the codec has been given just
  -- what they yield.
  pub accept_turn-run :
      (c c' : C) (me me' : BeeperStream) (a : Accepted R)
      → accept_turn h2 c me ≡ inr (a, c', me')
      → (rooms : List ℕ) × (run (session c me) (take_served ∷ take_updates ∷ map poll rooms)
          ≡ session c' me')
  accept_turn-run c c' me me' a e = rw e at (accept_turn-Turned c me)

  carry_on-Keeps :
      (a : Accepted R) (c : C) (me : BeeperStream) (rest : List R × (Ended × C × BeeperStream))
      (v : View)
      → Keeps v (session c me)
      → Keeps v (left rest)
      → Keeps v (left (carry_on h2 a c me rest))
  carry_on-Keeps waiting c me rest v k l = l
  carry_on-Keeps over c me rest v k l = k
  carry_on-Keeps broken c me rest v k l = k
  carry_on-Keeps (request r) c me rest v k l = l

  serve_h2-Keeps :
      (turns : ℕ) (c : C) (me : BeeperStream)
      → IsWf me.scanner.state
      → Keeps (whole (doc.seen c) me) (left (serve_h2 h2 turns c me))
  unfolding serve_h2
  serve_h2-Keeps zero c me w = (refl, w)
  serve_h2-Keeps (suc turns) c me w =
      turned (λ c' me' v. serve_h2-Keeps turns c' me' v) (accept_turn h2 c me)
        (accept_turn-Turned c me)
    where
      turned :
          ((c' : C) (me' : BeeperStream)
            → IsWf me'.scanner.state
            → Keeps (whole (doc.seen c') me') (left (serve_h2 h2 turns c' me')))
          → (t : (Ended × C × BeeperStream) ⊎ (Accepted R × C × BeeperStream)) → Turned c me t
          → Keeps (whole (doc.seen c) me) (
              left (elim t [
                | inl ended ↦ ([], ended)
                | inr (a, c', me') ↦ carry_on h2 a c' me' (serve_h2 h2 turns c' me')
              ]))
      turned keeps (inl ended) (actions, r) = rw r at (run-Keeps actions (session c me) w)
      turned keeps (inr (a, c', me')) (rooms, r) =
          let k =
            rw r at (run-Keeps (take_served ∷ take_updates ∷ map poll rooms) (session c me) w) in
          let rest = keeps c' me' k.1 in
          carry_on-Keeps a c' me' (serve_h2 h2 turns c' me') (whole (doc.seen c) me) k
            (rest.0 ∙ k.0, rest.1)

  dispatch-whole :
      (turns : ℕ) (handshake : BeeperStream → Option (C × BeeperStream)) (v : Verdict)
      (me : BeeperStream) (r : List R × (Ended × C × BeeperStream))
      → ((me me' : BeeperStream) (c : C)
          → handshake me ≡ some (c, me')
          → (rooms : List ℕ) × (run (record { handed = none_handed; stream = me }) (map poll rooms)
              ≡ session c me'))
      → IsWf me.scanner.state
      → dispatch h2 turns handshake v me ≡ some (inr r)
      → whole (left r).handed (left r).stream ≡ whole none_handed me
  unfolding dispatch
  dispatch-whole turns handshake (decided http1) me r shakes w e =
      absurd (inl-inr me r (some_eq _ _ e))
  dispatch-whole turns handshake (read_error n) me r shakes w e = absurd (none-some _ e)
  dispatch-whole turns handshake undecided me r shakes w e = absurd (none-some _ e)
  dispatch-whole turns handshake (decided http2) me r shakes w e =
      elim (Option-cases (handshake me)) [
        | inl n ↦ absurd (none-some _ (rw (dispatch, n) at e))
        | inr ((c, me'), h) ↦
            let (rooms, g) = shakes me me' c h in
            let k =
              rw g at
                (run-Keeps (map poll rooms) (record { handed = none_handed; stream = me }) w) in
            rw (← inr_eq _ r (some_eq _ _ (rw (dispatch, h) at e)))
              ((serve_h2-Keeps turns c me' k.1).0 ∙ k.0)
      ]

  -- With an h2 codec that behaves as `Documented` says and a handshake that only polls: a
  -- connection that speaks HTTP/2, after so many turns of its handler. What its codec was given
  -- by calls that succeeded, what a turn that failed had taken out of the handles for it, what waits in
  -- the stream and its handles, what is held back and what the socket has yet to give come to what the
  -- client's bytes mean.
  pub serve_connection-whole :
      (turns : ℕ) (handshake : BeeperStream → Option (C × BeeperStream)) (inner : List Read)
      (r : List R × (Ended × C × BeeperStream))
      → ((me me' : BeeperStream) (c : C)
          → handshake me ≡ some (c, me')
          → (rooms : List ℕ) × (run (record { handed = none_handed; stream = me }) (map poll rooms)
              ≡ session c me'))
      → serve_connection h2 turns handshake (accept inner) ≡ some (inr r)
      → whole (left r).handed (left r).stream ≡ consumes start (arrivals inner)
  unfolding serve_connection
  serve_connection-whole turns handshake inner r shakes e =
      let p = protocol-whole none_handed (accept inner) (omega arith) (inl refl) in
      dispatch-whole turns handshake (protocol (accept inner)).0 (protocol (accept inner)).1 r
        shakes p.1 e
      ∙ p.0
      ∙ unfold consumes in refl
