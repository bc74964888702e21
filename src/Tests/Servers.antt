-- ===== src/Tests/Servers.antt =====
-- The handler of hyper-fast-path/src/server.rs and the dummies, on concrete inputs.
use hyper_fast_path.Prelude.{
  ap, sym, ℕ, ◌+◌, true, List, [], ◌∷◌, ◌++◌, map, ◌⊎◌, inl, inr, ◌≡◌, refl, Option, some, none,
  some_eq, false,
}
use hyper_fast_path.Server.Responding.{Response, IsReply, respond_to, respond_to-IsReply}
use hyper_fast_path.Prelude.Bytes.{Bytes, bytes_eq, copy_at, from_be_bytes}
use hyper_fast_path.Listener.FlowHandle
use hyper_fast_path.Listener.SyncHandle
use hyper_fast_path.Listener.Scanner.{
  classify, report, barrier, scan_preface, scan_header, scan_payload, scan_flow, scan_sync,
  scan_turn, scan_loop, scan,
}
use hyper_fast_path.Listener.View.{start, consumes}
use hyper_fast_path.Listener.Stream.{
  BeeperStream, accept, drain_into, read_turn, poll_turn, poll_loop, poll_read, protocol_loop,
  protocol_of,
}
use hyper_fast_path.Listener.Session.{Handed}
use hyper_fast_path.Listener.Polling.{none_handed, whole, deliver}
use hyper_fast_path.Listener.Schedule.{poll, take_updates, take_served, step, run}
use hyper_fast_path.Server.Turns.{
  Codec, Accepted, waiting, Ended, running, dropped, account, prime, accept_turn, serve_h2,
  dispatch, serve_connection,
}
use hyper_fast_path.Server.Contract.{Documented}
use hyper_fast_path.Server.Delivery.{session, left, accept_turn-run, serve_connection-whole}
use hyper_fast_path.Server.Accepting.{Incoming, usable, serve, AllServed, serve-AllServed}
use hyper_fast_path.Tests.Connections.{reads, stream, update}

-- A codec that keeps what it is given, and polls its stream once at a time.
abbrev keeper : Codec Handed ℕ
keeper = record {
  consume_send_capacity = λ h n. some (record h { served = h.served + n });
  prime_dynamic_table = λ h block. some (record h { updates = h.updates ++ block ∷ [] });
  poll_accept = λ h me. (waiting, deliver h (poll_read me 100).0, (poll_read me 100).1);
}

keeper-Documented : Documented keeper
unfolding run step
keeper-Documented = record {
  seen = λ h. h;
  counts = λ c c' n e. sym (some_eq _ _ e);
  primes = λ c c' block e. sym (some_eq _ _ e);
  polls = λ c me. (100 ∷ [], refl);
}

-- The handshake of the same kind: it polls once.
abbrev shake : BeeperStream → Option (Handed × BeeperStream)
shake me = some (deliver none_handed (poll_read me 24).0, (poll_read me 24).1)

shake-polls :
    (me me' : BeeperStream) (c : Handed)
    → shake me ≡ some (c, me')
    → (rooms : List ℕ) × (run (record { handed = none_handed; stream = me }) (map poll rooms)
        ≡ session keeper keeper-Documented c me')
unfolding run step poll_read keeper-Documented
shake-polls me me' c e = (
  24 ∷ [],
  ap (λ (p : Handed × BeeperStream). session keeper keeper-Documented p.0 p.1) (some_eq _ _ e),
)

abbrev or_none :
    Option (BeeperStream ⊎ (List ℕ × (Ended × Handed × BeeperStream)))
    → List ℕ × (Ended × Handed × BeeperStream)
or_none (some (inr r)) = r
or_none _ = ([], (running, none_handed, accept []))

abbrev served : List ℕ × (Ended × Handed × BeeperStream)
served = or_none (serve_connection keeper 4 shake (accept reads))

serve_connection-whole_example :
    whole
      (left keeper keeper-Documented served).handed
      (left keeper keeper-Documented served).stream
    ≡ consumes start stream
unfolding serve_connection dispatch serve_h2 accept_turn account prime protocol_loop protocol_of
    poll_read poll_loop poll_turn read_turn drain_into scan scan_loop scan_turn scan_preface
    scan_header scan_payload scan_flow scan_sync classify report barrier bytes_eq copy_at
    from_be_bytes SyncHandle.take SyncHandle.push SyncHandle.is_pending FlowHandle.take
    FlowHandle.add run step
serve_connection-whole_example =
    serve_connection-whole keeper keeper-Documented 4 shake reads served shake-polls refl

-- A codec that takes no update: the update of the stream is taken out of its handle, and is in no
-- codec.
abbrev refuser : Codec Handed ℕ
refuser = record keeper { prime_dynamic_table = λ h block. none }

refused_test :
    (or_none (serve_connection refuser 4 shake (accept reads))).1.0 ≡ dropped 0 (update.body ∷ [])
unfolding serve_connection dispatch serve_h2 accept_turn account prime protocol_loop protocol_of
    poll_read poll_loop poll_turn read_turn drain_into scan scan_loop scan_turn scan_preface
    scan_header scan_payload scan_flow scan_sync classify report barrier bytes_eq copy_at
    from_be_bytes SyncHandle.take SyncHandle.push SyncHandle.is_pending FlowHandle.take
    FlowHandle.add run step
refused_test = refl

-- The stream after the turn that finds the update.
abbrev waited : BeeperStream
waited = (poll_read (poll_read (accept reads) 100).1 100).1

abbrev or_turn :
    (Ended × Handed × BeeperStream) ⊎ (Accepted ℕ × Handed × BeeperStream)
    → Accepted ℕ × Handed × BeeperStream
or_turn (inr t) = t
or_turn (inl e) = (waiting, none_handed, accept [])

abbrev turn : Accepted ℕ × Handed × BeeperStream
turn = or_turn (accept_turn keeper none_handed waited)

accept_turn-run_example :
    (rooms : List ℕ) × (run
        (session keeper keeper-Documented none_handed waited)
        (take_served ∷ take_updates ∷ map poll rooms)
      ≡ session keeper keeper-Documented turn.1 turn.2)
unfolding serve_connection dispatch serve_h2 accept_turn account prime protocol_loop protocol_of
    poll_read poll_loop poll_turn read_turn drain_into scan scan_loop scan_turn scan_preface
    scan_header scan_payload scan_flow scan_sync classify report barrier bytes_eq copy_at
    from_be_bytes SyncHandle.take SyncHandle.push SyncHandle.is_pending FlowHandle.take
    FlowHandle.add run step
accept_turn-run_example =
    accept_turn-run keeper keeper-Documented none_handed turn.1 waited turn.2 turn.0 refl

-- An application that sends the body back.
abbrev echo : ℕ → Bytes → Response ℕ
echo parts body = record { head = 200; body = some body }

respond_to-IsReply_example :
    IsReply
      (1 ∷ 2 ∷ 3 ∷ [])
      3
      (respond_to echo false false 0 (some (1 ∷ 2 ∷ []) ∷ some (3 ∷ []) ∷ []))
respond_to-IsReply_example =
    respond_to-IsReply echo 0 ((1 ∷ 2 ∷ []) ∷ (3 ∷ []) ∷ []) (1 ∷ 2 ∷ 3 ∷ []) refl

-- A connection, an error of the kernel, one that cannot be set up, and a connection again.
abbrev incoming : List (Option Incoming)
incoming =
    some (record { inner = reads; peer = 1; nodelay = true })
    ∷ none
    ∷ some (record { inner = reads; peer = 2; nodelay = false })
    ∷ some (record { inner = []; peer = 3; nodelay = true })
    ∷ []

serve-AllServed_example :
    AllServed keeper 4 shake keeper-Documented (usable incoming) (serve keeper 4 shake incoming)
serve-AllServed_example = serve-AllServed keeper 4 shake keeper-Documented incoming shake-polls
