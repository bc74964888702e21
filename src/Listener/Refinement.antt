-- ===== src/Listener/Refinement.antt =====
-- The loop of hyper-fast-path/src/listener.rs, `Scanner::scan`, against its bytewise description.
use hyper_fast_path.Prelude.{
  ℕ, zero, suc, ◌≤◌, [], ◌∷◌, ◌++◌, ◌≡◌, refl, sym, ap, ◌∙◌, arith, inl, inr, Bool-cases, length,
  replicate, length-set, some,
}
use hyper_fast_path.Prelude.Bytes.{Bytes}
use hyper_fast_path.Listener.SyncHandle
use hyper_fast_path.Listener.Scanner.{
  State, preface, header, payload, sync, flow, blind, Scanner, Turn, next, leave, scan_turn,
  scan_loop, scan_fuel, scan,
}
use hyper_fast_path.Listener.Bytewise.{
  Reaction, pass, spend, update, update_before, StateAfter, complete, react_header, react,
  carry_out, feed, feeds, feeds-append,
}
use hyper_fast_path.Listener.Bulk.{IsFree, feeds-pending}
use hyper_fast_path.Listener.Turns.{IsWf, finish, turn-feeds}
use hyper_fast_path.Listener.Progress.{work, GoesOn, zero_turns_le, turn-GoesOn}

-- With fuel for the work that is left, the loop ends, where the bytes one by one would.
loop-feeds :
    (fuel : ℕ) (s : Scanner) (rest : Bytes)
    → IsFree s
    → IsWf s.state
    → work s rest ≤ fuel
    → scan_loop fuel s rest ≡ some (feeds s rest)
unfolding scan_loop
loop-feeds fuel s [] p w h = unfold feeds in refl
loop-feeds zero s (c ∷ cs) p w h = absurd (omega arith)
loop-feeds (suc fuel) s (c ∷ cs) p w h =
    after (scan_turn s.state s (c ∷ cs)) (turn-feeds s.state c cs s p w)
      (turn-GoesOn s.state c cs s p w) (λ s' rest. loop-feeds fuel s' rest)
  where
    after :
        (t : Turn)
        → finish t ≡ feeds s (c ∷ cs)
        → GoesOn (work s (c ∷ cs)) t
        → ((s' : Scanner) (rest : Bytes)
            → IsFree s'
            → IsWf s'.state
            → work s' rest ≤ fuel
            → scan_loop fuel s' rest ≡ some (feeds s' rest))
        → elim t [ next s' rest ↦ scan_loop fuel s' rest | leave s' ↦ some s' ]
          ≡ some (feeds s (c ∷ cs))
    after (leave s') e g ih = ap some e
    after (next s' rest) e g ih = ih s' rest g.1 g.0 (omega arith) ∙ ap some e

-- From a state whose counters are in range and with no update pending, the loop of `scan` ends
-- within its fuel, with the result of `scan`.
pub scan_loop-scan :
    (s : Scanner) (input : Bytes)
    → IsFree s
    → IsWf s.state
    → scan_loop (scan_fuel input) s input ≡ some (scan s input)
unfolding scan
scan_loop-scan s input p w =
    let e = loop-feeds (scan_fuel input) s input p w (omega (arith, zero_turns_le s.state)) in
    rw (p, e)

-- From a state whose counters are in range, `scan` leaves the scanner as feeding it the input byte
-- by byte does.
pub scan-feeds : (s : Scanner) (input : Bytes) → IsWf s.state → scan s input ≡ feeds s input
unfolding scan
scan-feeds s input w = elim (Bool-cases (SyncHandle.is_pending s.updates)) [
  | inl p ↦ rw p (sym (feeds-pending s input p))
  | inr p ↦ rw (p, loop-feeds (scan_fuel input) s input p w (omega (arith, zero_turns_le s.state)))
]

react_header-IsWf :
    (buf : Bytes) (got c : ℕ) → length buf ≡ 9 → StateAfter IsWf (react_header buf got c)
unfolding react_header complete
react_header-IsWf buf got c h = ground (arith, length-set buf got c)

react-IsWf : (st : State) (c : ℕ) → IsWf st → StateAfter IsWf (react st c)
unfolding react
react-IsWf blind c w = tt
react-IsWf (preface m) c w = ground arith
react-IsWf (header buf got) c w = react_header-IsWf buf got c w.0
react-IsWf (payload zero) c w = react_header-IsWf (replicate 9 0) 0 c refl
react-IsWf (payload (suc k)) c w = ground arith
react-IsWf (flow buf got) c w = ground (arith, length-set buf got c)
react-IsWf (sync block zero) c w = tt
react-IsWf (sync block (suc k)) c w = ground arith

carry_out-IsWf :
    (s : Scanner) (r : Reaction) (c : ℕ) → StateAfter IsWf r → IsWf (carry_out s r c).state
unfolding carry_out
carry_out-IsWf s (pass st bytes) c w = w
carry_out-IsWf s (spend n) c w = (refl, omega arith)
carry_out-IsWf s (update b) c w = (refl, omega arith)
carry_out-IsWf s (update_before b) c w = (refl, omega arith)

feed-IsWf : (s : Scanner) (c : ℕ) → IsWf s.state → IsWf (feed s c).state
unfolding feed
feed-IsWf s c w = elim (Bool-cases (SyncHandle.is_pending s.updates)) [
  | inl p ↦ rw p w
  | inr p ↦ rw p (carry_out-IsWf s (react s.state c) c (react-IsWf s.state c w))
]

feeds-IsWf : (xs : Bytes) (s : Scanner) → IsWf s.state → IsWf (feeds s xs).state
unfolding feeds
feeds-IsWf [] s w = w
feeds-IsWf (x ∷ xs) s w = feeds-IsWf xs (feed s x) (feed-IsWf s x w)

-- `scan` keeps the counters of the state in range.
pub scan-IsWf : (s : Scanner) (input : Bytes) → IsWf s.state → IsWf (scan s input).state
scan-IsWf s input w = rw (scan-feeds s input w) (feeds-IsWf input s w)

-- From a state whose counters are in range, scanning an input at once or in two parts leaves the
-- same scanner.
pub scan-append :
    (s : Scanner) (xs ys : Bytes) → IsWf s.state → scan s (xs ++ ys) ≡ scan (scan s xs) ys
scan-append s xs ys w =
    scan-feeds s (xs ++ ys) w
    ∙ feeds-append xs s ys
    ∙ ap (λ t. feeds t ys) (sym (scan-feeds s xs w))
    ∙ sym (scan-feeds (scan s xs) ys (scan-IsWf s xs w))
