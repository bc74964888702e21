-- ===== src/Listener/Delivery.antt =====
-- What a client's connection is to its users, end to end: hyper-fast-path/src/listener.rs.
use native.Mathlib.Nat.{add-zero}
use hyper_fast_path.Prelude.{◌%◌, ◌^◌, List, [], ◌++◌, append-nil, ◌≡◌, refl, sym, ap, ◌∙◌}
use hyper_fast_path.Http2.Frame.{Frame, encodes}
use hyper_fast_path.Listener.Scanner.{Scanner, fresh_header, preface_bytes}
use hyper_fast_path.Listener.View.{View, start, consumes}
use hyper_fast_path.Listener.Stream.{Read}
use hyper_fast_path.Listener.Session.{Handed, core}
use hyper_fast_path.Listener.Polling.{arrivals}
use hyper_fast_path.Listener.Schedule.{Action, Session, opened, run, run-opened-core}
use hyper_fast_path.Listener.FrameBytes.{AllFrames, settle}
use hyper_fast_path.Listener.Frames.{passed_on, updates_of, served_of, consumes-frames}

-- What a session has made of its stream, an update with no body at its end included.
abbrev made : Session → View
made c = settle (core c.handed c.stream.scanner)

-- What the session has made of its stream once the socket is read and nothing is held back.
run-made :
    (inner : List Read) (actions : List Action) (fs : List Frame)
    → AllFrames fs
    → arrivals inner ≡ preface_bytes ++ encodes fs
    → arrivals (run (opened inner) actions).stream.inner ≡ []
    → (run (opened inner) actions).stream.scanner.hold ≡ []
    → ((made (run (opened inner) actions)).out ≡ preface_bytes ++ passed_on fs)
      × ((made (run (opened inner) actions)).blocks ≡ updates_of fs)
      × ((made (run (opened inner) actions)).sent ≡ served_of fs % 2 ^ 32)
run-made inner actions fs w e read free =
    let m =
      ap settle (run-opened-core inner actions read free ∙ ap (consumes start) e)
      ∙ consumes-frames fs w in
    (ap (λ v. v.out) m, ap (λ v. v.blocks) m, ap (λ v. v.sent) m)

-- Where the scanner stands at a frame's boundary and nothing waits, this is what was handed out.
made-handed :
    (h : Handed) (s : Scanner)
    → s.state ≡ fresh_header
    → s.out ≡ []
    → s.updates.blocks ≡ []
    → s.spent.sent ≡ 0
    → settle (core h s)
      ≡ record { state = fresh_header; out = h.bytes; blocks = h.updates; sent = h.served % 2 ^ 32 }
made-handed h s a b c d = rw (a, b, c, d, append-nil, append-nil, add-zero) refl

-- A client that opens with the preface and sends well formed frames, cut into reads in any way, under
-- any order of polls and takes: once the socket is read, the scanner stands at a frame's boundary and
-- nothing waits in it, held back, on its way out or in a handle, the codec was given the preface and
-- the frames that are not the fast path's own, in order, the updates that were taken are the bodies of
-- its updates, in order, and the counts that were taken add up to its reports, modulo 2 ^ 32.
pub run-frames :
    (inner : List Read) (actions : List Action) (fs : List Frame)
    → AllFrames fs
    → arrivals inner ≡ preface_bytes ++ encodes fs
    → arrivals (run (opened inner) actions).stream.inner ≡ []
    → (run (opened inner) actions).stream.scanner.hold ≡ []
    → (run (opened inner) actions).stream.scanner.state ≡ fresh_header
    → (run (opened inner) actions).stream.scanner.out ≡ []
    → (run (opened inner) actions).stream.scanner.updates.blocks ≡ []
    → (run (opened inner) actions).stream.scanner.spent.sent ≡ 0
    → ((run (opened inner) actions).handed.bytes ≡ preface_bytes ++ passed_on fs)
      × ((run (opened inner) actions).handed.updates ≡ updates_of fs)
      × ((run (opened inner) actions).handed.served % 2 ^ 32 ≡ served_of fs % 2 ^ 32)
run-frames inner actions fs w e read free a b c d =
    let m = run-made inner actions fs w e read free in
    let end = run (opened inner) actions in
    let h = made-handed end.handed end.stream.scanner a b c d in
    (
      ap (λ v. v.out) (sym h) ∙ m.0,
      ap (λ v. v.blocks) (sym h) ∙ m.1,
      ap (λ v. v.sent) (sym h) ∙ m.2,
    )
