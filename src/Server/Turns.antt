-- ===== src/Server/Turns.antt =====
-- hyper-fast-path/src/server.rs, `serve_connection` and `serve_h2`. The h2 crate's server
-- connection is a parameter: a type of codecs with the three calls made of it, of which the last
-- polls the stream. HTTP/1.1, the application and the tasks spawned are left out: a request
-- accepted is put on a list.
use hyper_fast_path.Prelude.{
  ℕ, zero, suc, List, [], ◌∷◌, Option, none, some, ltb, if◌then◌else◌, ◌⊎◌, inl, inr,
}
use hyper_fast_path.Prelude.Bytes.{Bytes}
use hyper_fast_path.Listener.SyncHandle
use hyper_fast_path.Listener.FlowHandle
use hyper_fast_path.Listener.Stream.{BeeperStream, http1, http2, Verdict, decided, protocol}

-- What `poll_accept` gives: nothing yet, the end of the connection, an error, or a request.
pub data Accepted (R : Type 0) : Type 0 where
  waiting over broken : Accepted R
  request : R → Accepted R

-- The h2 crate's server connection: `none` is a call that fails.
pub record Codec (C R : Type 0) : Type 0 where
  pub consume_send_capacity : C → ℕ → Option C
  pub prime_dynamic_table : C → Bytes → Option C
  pub poll_accept : C → BeeperStream → Accepted R × C × BeeperStream

-- How the connection ended: by itself, with an error of the poll, or not yet; or with an error in
-- front of the poll, with the window and the updates that were taken and not given to the codec.
pub data Ended : Type 0 where
  finished failed running : Ended
  dropped : ℕ → List Bytes → Ended

module _ {C R : Type 0} (h2 : Codec C R) where
  -- `if sent > 0 { conn.consume_send_capacity(sent)? }`
  unfoldable pub account : ℕ → C → Option C
  account sent conn = if ltb 0 sent then h2.consume_send_capacity conn sent else some conn

  -- `for block in sync.take() { conn.prime_dynamic_table(&block)? }`: the updates that are left where
  -- a call fails, that call's own in front, and the codec up to there.
  unfoldable pub prime : List Bytes → C → List Bytes × C
  prime [] conn = ([], conn)
  prime (block ∷ blocks) conn = elim (h2.prime_dynamic_table conn block) [
    | none ↦ (block ∷ blocks, conn)
    | some conn' ↦ prime blocks conn'
  ]

  -- The poll, unless updates are left.
  abbrev pub after_prime :
      List Bytes × C → BeeperStream → (Ended × C × BeeperStream) ⊎ (Accepted R × C × BeeperStream)
  after_prime ([], primed) me = inr (h2.poll_accept primed me)
  after_prime (block ∷ blocks, primed) me = inl (dropped 0 (block ∷ blocks), primed, me)

  -- The closure of `poll_fn`: `inl` is the connection's end with an error of its first two calls. The
  -- updates are taken only once the window is accounted for.
  unfoldable pub accept_turn :
      C → BeeperStream → (Ended × C × BeeperStream) ⊎ (Accepted R × C × BeeperStream)
  accept_turn conn me =
      let (sent, spent) = FlowHandle.take me.scanner.spent in
      let (blocks, updates) = SyncHandle.take me.scanner.updates in
      elim (account sent conn) [
        | none ↦
            inl (dropped sent [], conn, record me { scanner = record me.scanner { spent = spent } })
        | some counted ↦
            after_prime (prime blocks counted)
              (record me { scanner = record me.scanner { spent = spent; updates = updates } })
      ]

  -- What the loop of `serve_h2` makes of a result of `poll_accept`; the rest is what the loop
  -- returns when it goes on.
  abbrev pub carry_on :
      Accepted R
      → C
      → BeeperStream
      → List R × (Ended × C × BeeperStream)
      → List R × (Ended × C × BeeperStream)
  carry_on waiting conn me rest = rest
  carry_on over conn me rest = ([], (finished, conn, me))
  carry_on broken conn me rest = ([], (failed, conn, me))
  carry_on (request r) conn me (requests, left) = (r ∷ requests, left)

  -- `serve_h2` behind the handshake, for so many polls: the requests handed to the application,
  -- how the connection ended, the codec up to the call that failed, if one did, and the stream.
  unfoldable pub serve_h2 : ℕ → C → BeeperStream → List R × (Ended × C × BeeperStream)
  serve_h2 zero conn me = ([], (running, conn, me))
  serve_h2 (suc polls) conn me = elim (accept_turn conn me) [
    | inl ended ↦ ([], ended)
    | inr (a, conn', me') ↦ carry_on a conn' me' (serve_h2 polls conn' me')
  ]

  -- What `serve_connection` does with the protocol: `inl` is HTTP/1.1's handler, on the stream,
  -- and `none` an error of the socket or the handshake, or a connection that has not yet said.
  unfoldable pub dispatch :
      ℕ
      → (BeeperStream → Option (C × BeeperStream))
      → Verdict
      → BeeperStream
      → Option (BeeperStream ⊎ (List R × (Ended × C × BeeperStream)))
  dispatch polls handshake (decided http2) me = elim (handshake me) [
    | none ↦ none
    | some (conn, me') ↦ some (inr (serve_h2 polls conn me'))
  ]
  dispatch polls handshake (decided http1) me = some (inl me)
  dispatch polls handshake _ me = none

  unfoldable pub serve_connection :
      ℕ
      → (BeeperStream → Option (C × BeeperStream))
      → BeeperStream
      → Option (BeeperStream ⊎ (List R × (Ended × C × BeeperStream)))
  serve_connection polls handshake stream =
      let (verdict, me) = protocol stream in dispatch polls handshake verdict me
