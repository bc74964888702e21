-- ===== src/Listener/Induction.antt =====
-- Induction over the runs of a connection of hyper-fast-path/src/listener.rs: what the polls and
-- takes of a schedule keep, from what their parts keep.
use hyper_fast_path.Prelude.{
  ℕ, zero, suc, List, [], ◌∷◌, ◌≡◌, refl, Bool-cases, Option, none, some, true, inl, inr,
  append-nil,
}
use hyper_fast_path.Prelude.Bytes.{Bytes}
use hyper_fast_path.Listener.SyncHandle
use hyper_fast_path.Listener.Scanner.{Scanner, scan}
use hyper_fast_path.Listener.Stream.{
  BeeperStream, Read, arrived, would_block, broken, Poll, ready, PollTurn, done, again, read_turn,
  poll_turn, poll_loop, poll_fuel, poll_read, drain_into, is_empty, or_waiting,
}
use hyper_fast_path.Listener.Session.{Handed}
use hyper_fast_path.Listener.Polling.{arrivals, deliver}
use hyper_fast_path.Listener.Schedule.{Action, poll, take_updates, take_served, Session, step, run}

abbrev pub on : List Read → Scanner → BeeperStream
on rs s = record { inner = rs; scanner = s }

-- What the parts of a poll, and the takes, keep.
pub record IsKept (P : Handed → BeeperStream → Type 0) : Type 0 where
  pub skips :
      (h : Handed) (r : Read) (rs : List Read) (s : Scanner)
      → arrivals (r ∷ rs) ≡ arrivals rs
      → P h (on (r ∷ rs) s)
      → P h (on rs s)
  pub scans :
      (h : Handed) (c : ℕ) (cs : Bytes) (rs : List Read) (s : Scanner)
      → s.hold ≡ []
      → P h (on (arrived (c ∷ cs) ∷ rs) s)
      → P h (on rs (scan s (c ∷ cs)))
  pub resumes :
      (h : Handed) (rs : List Read) (s : Scanner)
      → P h (on rs s)
      → P h (on rs (scan (record s { hold = [] }) s.hold))
  pub drains :
      (h : Handed) (me : BeeperStream) (room : ℕ)
      → P h me
      → P (deliver h (ready (drain_into me room).0)) (drain_into me room).1
  pub takes_updates :
      (c : Session)
      → P c.handed c.stream
      → P (step c take_updates).handed (step c take_updates).stream
  pub takes_served :
      (c : Session)
      → P c.handed c.stream
      → P (step c take_served).handed (step c take_served).stream

module _ {P : Handed → BeeperStream → Type 0} (k : IsKept P) where
  abbrev After : Handed → PollTurn → Type 0
  After h (done p me) = P (deliver h p) me
  After h (again me) = P h me

  is_empty-nil : (xs : Bytes) → is_empty xs ≡ true → xs ≡ []
  is_empty-nil [] e = refl
  is_empty-nil (x ∷ xs) e = cc

  read_turn-After :
      (h : Handed) (rs : List Read) (s : Scanner)
      → s.hold ≡ []
      → P h (on rs s)
      → After h (read_turn rs s)
  unfolding read_turn
  read_turn-After h [] s e p = p
  read_turn-After h (would_block ∷ rs) s e p = k.skips h would_block rs s refl p
  read_turn-After h (broken n ∷ rs) s e p = k.skips h (broken n) rs s refl p
  read_turn-After h (arrived [] ∷ rs) s e p =
      rw (append-nil h.bytes) (k.skips h (arrived []) rs s refl p)
  read_turn-After h (arrived (c ∷ cs) ∷ rs) s e p = k.scans h c cs rs s e p

  poll_turn-After :
      (h : Handed) (me : BeeperStream) (room : ℕ) → P h me → After h (poll_turn me room)
  unfolding poll_turn
  poll_turn-After h me room p = elim (Bool-cases (is_empty me.scanner.out)) [
    | inr full ↦ rw full (k.drains h me room p)
    | inl none_out ↦ elim (Bool-cases (SyncHandle.is_pending me.scanner.updates)) [
      | inl w ↦ rw (none_out, w) p
      | inr w ↦ elim (Bool-cases (is_empty me.scanner.hold)) [
        | inl e ↦
            rw (none_out, w, e)
              (read_turn-After h me.inner me.scanner (is_empty-nil me.scanner.hold e) p)
        | inr e ↦ rw (none_out, w, e) (k.resumes h me.inner me.scanner p)
      ]
    ]
  ]

  abbrev AfterLoop : Handed → Option (Poll × BeeperStream) → Type 0
  AfterLoop h none = Unit {0}
  AfterLoop h (some (p, me)) = P (deliver h p) me

  poll_loop-AfterLoop :
      (fuel : ℕ) (h : Handed) (me : BeeperStream) (room : ℕ)
      → P h me
      → AfterLoop h (poll_loop fuel me room)
  unfolding poll_loop
  poll_loop-AfterLoop zero h me room p = tt
  poll_loop-AfterLoop (suc fuel) h me room p =
      goes_on (poll_turn me room) (poll_turn-After h me room p)
        (λ me'. poll_loop-AfterLoop fuel h me' room)
    where
      goes_on :
          (t : PollTurn)
          → After h t
          → ((me' : BeeperStream) → P h me' → AfterLoop h (poll_loop fuel me' room))
          → AfterLoop h
              (elim t [ done p me' ↦ some (p, me') | again me' ↦ poll_loop fuel me' room ])
      goes_on (done q me') a ih = a
      goes_on (again me') a ih = ih me' a

  poll_read-kept :
      (h : Handed) (me : BeeperStream) (room : ℕ)
      → P h me
      → P (deliver h (poll_read me room).0) (poll_read me room).1
  unfolding poll_read
  poll_read-kept h me room p =
      result (poll_loop (poll_fuel me) me room) (poll_loop-AfterLoop (poll_fuel me) h me room p)
    where
      result :
          (r : Option (Poll × BeeperStream))
          → AfterLoop h r
          → P (deliver h (or_waiting me r).0) (or_waiting me r).1
      result none a = p
      result (some r) a = a

  step-kept :
      (c : Session) (a : Action) → P c.handed c.stream → P (step c a).handed (step c a).stream
  unfolding step
  step-kept c (poll room) p = poll_read-kept c.handed c.stream room p
  step-kept c take_updates p = k.takes_updates c p
  step-kept c take_served p = k.takes_served c p

  pub run-kept :
      (as' : List Action) (c : Session)
      → P c.handed c.stream
      → P (run c as').handed (run c as').stream
  unfolding run
  run-kept [] c p = p
  run-kept (a ∷ as') c p = run-kept as' (step c a) (step-kept c a p)
