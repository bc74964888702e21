-- ===== src/Listener/Schedule.antt =====
-- A connection of hyper-fast-path/src/listener.rs as its users see it: polls of the stream, and
-- takes of the two handles, in any order.
use hyper_fast_path.Prelude.{
  ℕ, ◌+◌, ◌%◌, ◌^◌, List, [], ◌∷◌, ◌++◌, ◌≡◌, refl, sym, ◌∙◌, arith, append-nil,
}
use hyper_fast_path.Listener.FlowHandle
use hyper_fast_path.Listener.SyncHandle
use hyper_fast_path.Listener.Turns.{IsWf}
use hyper_fast_path.Listener.View.{View, start, consumes}
use hyper_fast_path.Listener.Stream.{BeeperStream, Read, Poll, poll_read, accept}
use hyper_fast_path.Listener.Session.{Handed, core}
use hyper_fast_path.Listener.Polling.{arrivals, whole, deliver, none_handed, poll_read-whole}

pub data Action : Type 0 where
  -- `poll_read`, on a buffer with so much room
  poll : ℕ → Action
  -- `SyncHandle::take` and `FlowHandle::take`
  take_updates take_served : Action

pub record Session : Type 0 where
  pub handed : Handed
  pub stream : BeeperStream

abbrev pub opened : List Read → Session
opened inner = record { handed = none_handed; stream = accept inner }

abbrev polled : Handed → Poll × BeeperStream → Session
polled h (p, me) = record { handed = deliver h p; stream = me }

unfoldable pub step : Session → Action → Session
step c (poll room) = polled c.handed (poll_read c.stream room)
step c take_updates =
    let s = c.stream.scanner in
    let (blocks, left) = SyncHandle.take s.updates in
    record {
      handed = record c.handed { updates = c.handed.updates ++ blocks };
      stream = record c.stream { scanner = record s { updates = left } };
    }
step c take_served =
    let s = c.stream.scanner in
    let (sent, left) = FlowHandle.take s.spent in
    record {
      handed = record c.handed { served = c.handed.served + sent };
      stream = record c.stream { scanner = record s { spent = left } };
    }

unfoldable pub run : Session → List Action → Session
unfolding step
run c [] = c
run c (a ∷ as') = run (step c a) as'

abbrev pub Keeps : View → Session → Type 0
Keeps v c = (whole c.handed c.stream ≡ v) × IsWf c.stream.scanner.state

pub add-add-zero : (a b : ℕ) → (a + b + 0) % 2 ^ 32 ≡ (a + b) % 2 ^ 32
add-add-zero a b = omega arith

step-Keeps :
    (c : Session) (a : Action)
    → IsWf c.stream.scanner.state
    → Keeps (whole c.handed c.stream) (step c a)
unfolding step
step-Keeps c (poll room) w = poll_read-whole c.handed c.stream room w
step-Keeps c take_updates w = (unfold SyncHandle.take in rw append-nil, unfold SyncHandle.take in w)
step-Keeps c take_served w =
    (unfold FlowHandle.take in rw add-add-zero, unfold FlowHandle.take in w)

pub run-Keeps :
    (as' : List Action) (c : Session)
    → IsWf c.stream.scanner.state
    → Keeps (whole c.handed c.stream) (run c as')
unfolding run
run-Keeps [] c w = (refl, w)
run-Keeps (a ∷ as') c w =
    let k = step-Keeps c a w in let r = run-Keeps as' (step c a) k.1 in (r.0 ∙ k.0, r.1)

-- On a fresh connection, under any schedule: what was handed over, what waits in the scanner and
-- its handles, what is held back and what the socket has yet to give come to what the client's
-- bytes mean.
pub run-opened-whole :
    (inner : List Read) (as' : List Action)
    → whole (run (opened inner) as').handed (run (opened inner) as').stream
      ≡ consumes start (arrivals inner)
run-opened-whole inner as' =
    (run-Keeps as' (opened inner) (omega arith)).0 ∙ unfold consumes in refl

whole-core :
    (h : Handed) (me : BeeperStream)
    → arrivals me.inner ≡ []
    → me.scanner.hold ≡ []
    → whole h me ≡ core h me.scanner
unfolding consumes
whole-core h me e f = rw (e, f)

-- On a fresh connection, under any schedule that leaves the socket read and nothing held back, what
-- was handed over and what is ready come to just what the client's bytes mean.
pub run-opened-core :
    (inner : List Read) (as' : List Action)
    → arrivals (run (opened inner) as').stream.inner ≡ []
    → (run (opened inner) as').stream.scanner.hold ≡ []
    → core (run (opened inner) as').handed (run (opened inner) as').stream.scanner
      ≡ consumes start (arrivals inner)
run-opened-core inner as' e f =
    sym (whole-core (run (opened inner) as').handed (run (opened inner) as').stream e f)
    ∙ run-opened-whole inner as'
