-- ===== src/Server/Accepting.antt =====
-- hyper-fast-path/src/server.rs, `serve`, and hyper-fast-path/src/listener.rs,
-- `BeeperListener::accept`. The loop does not end; what it does with any number of results of the
-- kernel's accept is modelled. A task that it spawns is what `serve_connection` makes of its
-- stream.
use hyper_fast_path.Prelude.{
  ℕ, Bool, List, [], ◌∷◌, map, Option, none, some, ◌≡◌, refl, ◌⊎◌, inr, Bool-cases, inl,
  if◌then◌else◌,
}
use hyper_fast_path.Listener.Stream.{BeeperStream, Read, accept}
use hyper_fast_path.Listener.View.{start, consumes}
use hyper_fast_path.Listener.Polling.{none_handed, whole, arrivals}
use hyper_fast_path.Listener.Schedule.{poll, run}
use hyper_fast_path.Server.Turns.{Codec, Ended, serve_connection}
use hyper_fast_path.Server.Contract.{Documented}
use hyper_fast_path.Server.Delivery.{session, left, serve_connection-whole}

-- A connection that the kernel accepts: what its socket gives to reads, its peer, and whether
-- `set_nodelay` succeeds.
pub record Incoming : Type 0 where
  pub inner : List Read
  pub peer : ℕ
  pub nodelay : Bool

-- `BeeperListener::accept`: `none` is an error, the kernel's or that of `set_nodelay`.
unfoldable pub accept_next : Option Incoming → Option (BeeperStream × ℕ)
accept_next none = none
accept_next (some i) = if i.nodelay then some (accept i.inner, i.peer) else none

-- The connections of a run that can be served.
abbrev pub usable : List (Option Incoming) → List Incoming
usable [] = []
usable (none ∷ rest) = usable rest
usable (some i ∷ rest) = if i.nodelay then i ∷ usable rest else usable rest

module _ {C R : Type 0} (h2 : Codec C R) (turns : ℕ)
    (handshake : BeeperStream → Option (C × BeeperStream)) where
  -- What becomes of a connection: `inl` is HTTP/1.1, `none` an error before a handler runs.
  abbrev pub Task : Type 0
  Task = Option (BeeperStream ⊎ (List R × (Ended × C × BeeperStream)))

  -- The loop of `serve`, over results of the kernel's accept: the tasks, with their peers.
  unfoldable pub serve : List (Option Incoming) → List (ℕ × Task)
  serve [] = []
  serve (i ∷ rest) = elim (accept_next i) [
    | none ↦ serve rest
    | some (stream, peer) ↦ (peer, serve_connection h2 turns handshake stream) ∷ serve rest
  ]

  module _ (doc : Documented h2) where
    -- A task of a connection: what its codec was given, what was taken for it and what waits come to
    -- what the client's bytes mean.
    abbrev pub IsServed : Incoming → ℕ × Task → Type 0
    IsServed i (peer, task) =
        (peer ≡ i.peer)
        × ((r : List R × (Ended × C × BeeperStream))
            → task ≡ some (inr r)
            → whole (left h2 doc r).handed (left h2 doc r).stream
              ≡ consumes start (arrivals i.inner))

    -- One task for each connection, in order.
    abbrev pub AllServed : List Incoming → List (ℕ × Task) → Type 0
    AllServed [] [] = Unit {0}
    AllServed (i ∷ is) (t ∷ ts) = IsServed i t × AllServed is ts
    AllServed _ _ = ⊥

    -- With an h2 codec that behaves as `Documented` says and a handshake that only polls: whatever
    -- the kernel's accept gives, errors included, `serve` spawns one task for each connection that
    -- was accepted and set up, in order; and if one speaks HTTP/2, what its codec was given by
    -- calls that succeeded, what a turn that failed had taken for it, what waits in its stream and
    -- its handles, what is held back and what its socket has yet to give come to what its client's
    -- bytes mean.
    pub serve-AllServed :
        (incoming : List (Option Incoming))
        → ((me me' : BeeperStream) (c : C)
            → handshake me ≡ some (c, me')
            → (rooms : List ℕ) × (run
                  (record { handed = none_handed; stream = me })
                  (map poll rooms)
                ≡ session h2 doc c me'))
        → AllServed (usable incoming) (serve incoming)
    unfolding serve accept_next
    serve-AllServed [] shakes = tt
    serve-AllServed (none ∷ rest) shakes = serve-AllServed rest shakes
    serve-AllServed (some i ∷ rest) shakes = elim (Bool-cases i.nodelay) [
      | inr n ↦ rw n (serve-AllServed rest shakes)
      | inl y ↦ rw y (
        (refl, λ r e. serve_connection-whole h2 doc turns handshake i.inner r shakes e),
        serve-AllServed rest shakes,
      )
    ]
