-- ===== src/Listener/Polling.antt =====
-- About hyper-fast-path/src/listener.rs, `BeeperStream::poll_read`.
use hyper_fast_path.Prelude.{
  ℕ, zero, suc, ◌+◌, ◌<◌, min, true, List, [], ◌∷◌, ◌++◌, ◌≡◌, refl, sym, ap, ◌∙◌, inl, inr, arith,
  append-nil, append_assoc, length, some, Bool-cases, take-append-drop, if◌then◌else◌,
}
use hyper_fast_path.Prelude.Bytes.{Bytes}
use hyper_fast_path.Listener.SyncHandle
use hyper_fast_path.Listener.Scanner.{Scanner, scan}
use hyper_fast_path.Listener.Turns.{IsWf}
use hyper_fast_path.Listener.Refinement.{scan-IsWf}
use hyper_fast_path.Listener.View.{View, consumes, consumes-append}
use hyper_fast_path.Listener.Stream.{
  BeeperStream, Read, arrived, would_block, broken, Poll, ready, PollTurn, done, again, read_turn,
  poll_turn, poll_loop, poll_fuel, poll_read, drain_into, is_empty,
}
use hyper_fast_path.Listener.Session.{Handed, meaning, IsSettled, scan-meaning}

-- Nothing was handed over yet.
abbrev pub none_handed : Handed
none_handed = record { bytes = []; updates = []; served = 0 }

-- The bytes that the socket still has to give.
abbrev pub arrivals : List Read → Bytes
arrivals [] = []
arrivals (arrived chunk ∷ rs) = chunk ++ arrivals rs
arrivals (_ ∷ rs) = arrivals rs

-- What the whole stream comes to.
abbrev pub whole : Handed → BeeperStream → View
whole h me = consumes (meaning h me.scanner) (arrivals me.inner)

-- What the caller has been handed after a poll.
abbrev pub deliver : Handed → Poll → Handed
deliver h (ready bytes) = record h { bytes = h.bytes ++ bytes }
deliver h _ = h

abbrev IsOk : BeeperStream → Type 0
IsOk me = IsWf me.scanner.state

abbrev Keeps : Handed → View → PollTurn → Type 0
Keeps h v (done p me) = (whole (deliver h p) me ≡ v) × IsOk me
Keeps h v (again me) = (whole h me ≡ v) × IsOk me

is_empty-eq : (xs : Bytes) → is_empty xs ≡ true → xs ≡ []
is_empty-eq [] e = refl
is_empty-eq (x ∷ xs) e = cc

read_turn-Keeps :
    (h : Handed) (rs : List Read) (s : Scanner)
    → IsWf s.state
    → s.hold ≡ []
    → Keeps h (consumes (meaning h s) (arrivals rs)) (read_turn rs s)
unfolding read_turn
read_turn-Keeps h [] s w e = (refl, w)
read_turn-Keeps h (would_block ∷ rs) s w e = (refl, w)
read_turn-Keeps h (broken n ∷ rs) s w e = (refl, w)
read_turn-Keeps h (arrived [] ∷ rs) s w e = (rw append-nil, w)
read_turn-Keeps h (arrived (c ∷ cs) ∷ rs) s w e = (
  ap (λ v. consumes v (arrivals rs)) (scan-meaning h s (c ∷ cs) w (inl e)).0
      ∙ sym (consumes-append (c ∷ cs) (meaning h s) (arrivals rs)),
  scan-IsWf s (c ∷ cs) w,
)

drain-Keeps :
    (h : Handed) (me : BeeperStream) (room : ℕ)
    → whole (deliver h (ready (drain_into me room).0)) (drain_into me room).1 ≡ whole h me
unfolding drain_into
drain-Keeps h me room =
    rw (append_assoc, take-append-drop (min (length me.scanner.out) room) me.scanner.out)

resume-Keeps :
    (h : Handed) (rs : List Read) (s : Scanner)
    → IsWf s.state
    → Keeps h
        (consumes (meaning h s) (arrivals rs))
        (again (record { inner = rs; scanner = scan (record s { hold = [] }) s.hold }))
resume-Keeps h rs s w = (
  ap (λ v. consumes v (arrivals rs))
      ((scan-meaning h (record s { hold = [] }) s.hold w (inl refl)).0 ∙ unfold consumes in refl),
  scan-IsWf (record s { hold = [] }) s.hold w,
)

poll_turn-Keeps :
    (h : Handed) (me : BeeperStream) (room : ℕ) → IsOk me → Keeps h (whole h me) (poll_turn me room)
unfolding poll_turn
poll_turn-Keeps h me room w = elim (Bool-cases (is_empty me.scanner.out)) [
  | inr full ↦ rw full (drain-Keeps h me room, unfold drain_into in w)
  | inl none_out ↦ elim (Bool-cases (SyncHandle.is_pending me.scanner.updates)) [
    | inl p ↦ rw (none_out, p) (refl, w)
    | inr p ↦ elim (Bool-cases (is_empty me.scanner.hold)) [
      | inl e ↦ rw (none_out, p, e) (read_turn-Keeps h me.inner me.scanner w (is_empty-eq _ e))
      | inr e ↦ rw (none_out, p, e) (resume-Keeps h me.inner me.scanner w)
    ]
  ]
]

-- The turns that are left: a read each, and one for what is held back.
abbrev turns : BeeperStream → ℕ
turns me =
    length me.inner
    + (if SyncHandle.is_pending me.scanner.updates
        then 0
        else if is_empty me.scanner.hold
        then 0
        else 1)

abbrev Fewer : ℕ → PollTurn → Type 0
Fewer n (done p me) = Unit {0}
Fewer n (again me) = turns me < n

settled-turns :
    (rs : List Read) (s : Scanner)
    → IsSettled s
    → turns (record { inner = rs; scanner = s }) ≡ length rs
settled-turns rs s (inl e) = rw e (ground arith)
settled-turns rs s (inr e) = rw e (omega arith)

read_turn-Fewer :
    (rs : List Read) (s : Scanner)
    → IsWf s.state
    → s.hold ≡ []
    → Fewer (turns (record { inner = rs; scanner = s })) (read_turn rs s)
unfolding read_turn
read_turn-Fewer [] s w e = tt
read_turn-Fewer (would_block ∷ rs) s w e = tt
read_turn-Fewer (broken n ∷ rs) s w e = tt
read_turn-Fewer (arrived [] ∷ rs) s w e = tt
read_turn-Fewer (arrived (c ∷ cs) ∷ rs) s w e = omega (
  arith,
  settled-turns rs (scan s (c ∷ cs)) (scan-meaning none_handed s (c ∷ cs) w (inl e)).1,
  settled-turns (arrived (c ∷ cs) ∷ rs) s (inl e),
)

poll_turn-Fewer : (me : BeeperStream) (room : ℕ) → IsOk me → Fewer (turns me) (poll_turn me room)
unfolding poll_turn
poll_turn-Fewer me room w = elim (Bool-cases (is_empty me.scanner.out)) [
  | inr full ↦ rw full tt
  | inl none_out ↦ elim (Bool-cases (SyncHandle.is_pending me.scanner.updates)) [
    | inl p ↦ rw (none_out, p) tt
    | inr p ↦ elim (Bool-cases (is_empty me.scanner.hold)) [
      | inl e ↦
          rw (none_out, p, e)
            (rw (p, e) at (read_turn-Fewer me.inner me.scanner w (is_empty-eq _ e)))
      | inr e ↦
          rw (none_out, p, e)
            (omega (
              arith,
              settled-turns me.inner (scan (record me.scanner { hold = [] }) me.scanner.hold)
                  (scan-meaning none_handed (record me.scanner { hold = [] }) me.scanner.hold w
                    (inl refl)).1,
            ))
    ]
  ]
]

-- What holds of a poll and of the stream that it leaves.
abbrev Polled : Type 0
Polled = Poll × BeeperStream

abbrev KeepsPoll : Handed → View → Polled → Type 0
KeepsPoll h v (p, me) = (whole (deliver h p) me ≡ v) × IsOk me

poll_loop-Keeps :
    (fuel : ℕ) (h : Handed) (me : BeeperStream) (room : ℕ)
    → IsOk me
    → turns me < fuel
    → (r : Polled) × (poll_loop fuel me room ≡ some r) × KeepsPoll h (whole h me) r
unfolding poll_loop
poll_loop-Keeps zero h me room w l = absurd (omega arith)
poll_loop-Keeps (suc fuel) h me room w l =
    after (poll_turn me room) (poll_turn-Keeps h me room w) (poll_turn-Fewer me room w)
      (λ me'. poll_loop-Keeps fuel h me' room)
  where
    after :
        (t : PollTurn)
        → Keeps h (whole h me) t
        → Fewer (turns me) t
        → ((me' : BeeperStream)
            → IsOk me'
            → turns me' < fuel
            → (r : Polled) × (poll_loop fuel me' room ≡ some r) × KeepsPoll h (whole h me') r)
        → (r : Polled) × (elim t [
          | done p me' ↦ some (p, me')
          | again me' ↦ poll_loop fuel me' room
        ]
            ≡ some r)
          × KeepsPoll h (whole h me) r
    after (done p me') k f ih = ((p, me'), refl, k)
    after (again me') k f ih = let (r, e, k') = ih me' k.1 (omega arith) in (r, e, rw (← k.0) k')

turns_le : (me : BeeperStream) → turns me < poll_fuel me
turns_le me = ground arith

-- From a state whose counters are in range, the loop of `poll_read` ends within its fuel, with the
-- result of `poll_read`.
pub poll_loop-poll_read :
    (me : BeeperStream) (room : ℕ)
    → IsWf me.scanner.state
    → poll_loop (poll_fuel me) me room ≡ some (poll_read me room)
unfolding poll_read
poll_loop-poll_read me room w =
    let (r, e, k) = poll_loop-Keeps (poll_fuel me) none_handed me room w (turns_le me) in rw e

-- From a state whose counters are in range, a poll keeps what the whole stream comes to, the bytes
-- that it delivers counted as handed over, and leaves the counters in range.
pub poll_read-whole :
    (h : Handed) (me : BeeperStream) (room : ℕ)
    → IsWf me.scanner.state
    → KeepsPoll h (whole h me) (poll_read me room)
unfolding poll_read
poll_read-whole h me room w =
    let (r, e, k) = poll_loop-Keeps (poll_fuel me) h me room w (turns_le me) in rw e k
