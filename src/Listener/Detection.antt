-- ===== src/Listener/Detection.antt =====
-- About hyper-fast-path/src/listener.rs, `BeeperStream::protocol`.
use hyper_fast_path.Prelude.{List, [], ◌∷◌, ◌≡◌, refl, sym, ap, ◌∙◌, inl, Option-cases, inr}
use hyper_fast_path.Listener.Scanner.{Scanner, scan}
use hyper_fast_path.Listener.Turns.{IsWf}
use hyper_fast_path.Listener.Refinement.{scan-IsWf}
use hyper_fast_path.Listener.View.{consumes, consumes-append}
use hyper_fast_path.Listener.Stream.{
  BeeperStream, Read, arrived, would_block, broken, protocol_of, protocol_loop, protocol,
}
use hyper_fast_path.Listener.Session.{Handed, meaning, IsSettled, scan-meaning}
use hyper_fast_path.Listener.Polling.{arrivals, whole}

abbrev KeepsAll : Handed → List Read → Scanner → BeeperStream → Type 0
KeepsAll h rs s me = (whole h me ≡ consumes (meaning h s) (arrivals rs)) × IsWf me.scanner.state

protocol_loop-KeepsAll :
    (rs : List Read) (h : Handed) (s : Scanner)
    → IsWf s.state
    → IsSettled s
    → KeepsAll h rs s (protocol_loop rs s).1
unfolding protocol_loop
protocol_loop-KeepsAll [] h s w e = elim (Option-cases (protocol_of s.state)) [
  | inl n ↦ rw (protocol_loop, n) (refl, w)
  | inr (p, d) ↦ rw (protocol_loop, d) (refl, w)
]
protocol_loop-KeepsAll (would_block ∷ rs) h s w e = elim (Option-cases (protocol_of s.state)) [
  | inr (p, d) ↦ rw (protocol_loop, d) (refl, w)
  | inl n ↦ rw (protocol_loop, n) (protocol_loop-KeepsAll rs h s w e)
]
protocol_loop-KeepsAll (broken x ∷ rs) h s w e = elim (Option-cases (protocol_of s.state)) [
  | inr (p, d) ↦ rw (protocol_loop, d) (refl, w)
  | inl n ↦ rw (protocol_loop, n) (refl, w)
]
protocol_loop-KeepsAll (arrived [] ∷ rs) h s w e = elim (Option-cases (protocol_of s.state)) [
  | inr (p, d) ↦ rw (protocol_loop, d) (refl, w)
  | inl n ↦ rw (protocol_loop, n) (refl, w)
]
protocol_loop-KeepsAll (arrived (c ∷ cs) ∷ rs) h s w e =
    let scanned = scan-meaning h s (c ∷ cs) w e in
    let rest = protocol_loop-KeepsAll rs h (scan s (c ∷ cs)) (scan-IsWf s (c ∷ cs) w) scanned.1 in
    elim (Option-cases (protocol_of s.state)) [
      | inr (p, d) ↦ rw (protocol_loop, d) (refl, w)
      | inl n ↦
          rw (protocol_loop, n)
            (
              rest.0
                  ∙ ap (λ v. consumes v (arrivals rs)) scanned.0
                  ∙ sym (consumes-append (c ∷ cs) (meaning h s) (arrivals rs)),
              rest.1,
            )
    ]

-- From a scanner whose counters are in range and that holds bytes back only behind a pending
-- update, `protocol` keeps what the whole stream comes to and leaves the counters in range.
pub protocol-whole :
    (h : Handed) (me : BeeperStream)
    → IsWf me.scanner.state
    → IsSettled me.scanner
    → (whole h (protocol me).1 ≡ whole h me) × IsWf (protocol me).1.scanner.state
protocol-whole h me w e = protocol_loop-KeepsAll me.inner h me.scanner w e
