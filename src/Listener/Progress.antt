-- ===== src/Listener/Progress.antt =====
-- The work that is left to the loop of hyper-fast-path/src/listener.rs, `Scanner::scan`, turn by
-- turn.
use native.Mathlib.Nat.{zero-min}
use hyper_fast_path.Prelude.{
  ℕ, zero, suc, ◌+◌, ◌-◌, ◌*◌, ◌≤◌, ◌<◌, min, ◌∷◌, ◌++◌, ◌≡◌, refl, ◌∙◌, arith, inl, inr,
  Bool-cases, length, take, drop, length-drop, ltb, ◌==◌, if◌then◌else◌,
}
use hyper_fast_path.Prelude.Bytes.{Bytes, bytes_eq, copy_at, length-copy_at}
use hyper_fast_path.Listener.Scanner.{
  State, preface, header, payload, sync, flow, blind, Scanner, fresh_header, preface_bytes,
  classify, report, Turn, next, leave, scan_preface, scan_header, scan_payload, scan_flow,
  scan_sync, scan_turn,
}
use hyper_fast_path.Listener.Bulk.{IsFree}
use hyper_fast_path.Listener.Turns.{IsWf}

-- Twice the bytes left, and one more where a frame with no payload is still to end.
abbrev pub zero_turns : State → ℕ
zero_turns (payload zero) = 1
zero_turns _ = 0

abbrev pub work : Scanner → Bytes → ℕ
work s rest = 2 * length rest + zero_turns s.state

-- A turn that goes on has less to do, from a scanner in order.
abbrev pub GoesOn : ℕ → Turn → Type 0
GoesOn w (next s rest) = IsWf s.state × IsFree s × (work s rest < w)
GoesOn w (leave s) = Unit {0}

classify-IsWf : (s : Scanner) (buf : Bytes) → IsWf (classify s buf).state
unfolding classify
classify-IsWf s buf = ground arith

classify-IsFree : (s : Scanner) (buf : Bytes) → IsFree s → IsFree (classify s buf)
unfolding classify
classify-IsFree s buf p = ground arith

pub zero_turns_le : (st : State) → zero_turns st ≤ 1
zero_turns_le (payload zero) = omega arith
zero_turns_le _ = omega arith

drop-work :
    (n c : ℕ) (cs : Bytes) (s : Scanner) (st : State)
    → 0 < n
    → 2 * length (drop n (c ∷ cs)) + zero_turns st < work s (c ∷ cs)
drop-work n c cs s st h = omega (arith, length-drop n (c ∷ cs), zero_turns_le st)

module _ (c : ℕ) (cs : Bytes) (s : Scanner) (p : IsFree s) (n : ℕ) (pos : 0 < n) where
  preface-GoesOn : (m : ℕ) → m + n ≤ 24 → GoesOn (work s (c ∷ cs)) (scan_preface s m n (c ∷ cs))
  unfolding scan_preface
  preface-GoesOn m h =
      elim (Bool-cases (bytes_eq (take n (c ∷ cs)) (take n (drop m preface_bytes)))) [
        | inl same ↦ rw same (
          ground arith,
          p,
          drop-work n c cs s
              (if m + n == length preface_bytes then fresh_header else preface (m + n)) pos,
        )
        | inr differs ↦ rw differs tt
      ]

  header-GoesOn :
      (buf : Bytes) (got : ℕ)
      → length buf ≡ 9
      → GoesOn (work s (c ∷ cs)) (scan_header s buf got n (c ∷ cs))
  unfolding scan_header
  header-GoesOn buf got h = elim (Bool-cases (ltb (got + n) 9)) [
    | inl more ↦ rw more tt
    | inr full ↦ rw full (
      classify-IsWf s _,
      classify-IsFree s _ p,
      drop-work n c cs s (classify s (copy_at buf got (take n (c ∷ cs)))).state pos,
    )
  ]

  payload-GoesOn : (k : ℕ) → GoesOn (work s (c ∷ cs)) (scan_payload s k n (c ∷ cs))
  unfolding scan_payload
  payload-GoesOn k = (
    ground arith,
    p,
    drop-work n c cs s (if k - n == 0 then fresh_header else payload (k - n)) pos,
  )

  flow-GoesOn :
      (buf : Bytes) (got : ℕ)
      → length buf ≡ 4
      → got + n ≤ 4
      → GoesOn (work s (c ∷ cs)) (scan_flow s buf got n (c ∷ cs))
  unfolding scan_flow report
  flow-GoesOn buf got h l = elim (Bool-cases (got + n == 4)) [
    | inl full ↦ rw full ((refl, omega arith), p, drop-work n c cs s fresh_header pos)
    | inr more ↦ rw more (
      (length-copy_at buf got _ ∙ h, ground arith),
      p,
      drop-work n c cs s (flow (copy_at buf got (take n (c ∷ cs))) (got + n)) pos,
    )
  ]

  sync-GoesOn : (block : Bytes) (k : ℕ) → GoesOn (work s (c ∷ cs)) (scan_sync s block k n (c ∷ cs))
  unfolding scan_sync
  sync-GoesOn block k = elim (Bool-cases (k - n == 0)) [
    | inl full ↦ rw full tt
    | inr more ↦ rw more (tt, p, drop-work n c cs s (sync (block ++ take n (c ∷ cs)) (k - n)) pos)
  ]

payload_zero-GoesOn :
    (c : ℕ) (cs : Bytes) (s : Scanner)
    → IsFree s
    → GoesOn
        (work (record s { state = payload 0 }) (c ∷ cs))
        (scan_payload s 0 (min 0 (suc (length cs))) (c ∷ cs))
unfolding scan_payload
payload_zero-GoesOn c cs s p = rw zero-min ((refl, omega arith), p, omega arith)

sync_zero-GoesOn :
    (block : Bytes) (c : ℕ) (cs : Bytes) (s : Scanner)
    → GoesOn (work s (c ∷ cs)) (scan_sync s block 0 (min 0 (suc (length cs))) (c ∷ cs))
unfolding scan_sync
sync_zero-GoesOn block c cs s = rw zero-min tt

pub turn-GoesOn :
    (st : State) (c : ℕ) (cs : Bytes) (s : Scanner)
    → IsFree s
    → IsWf st
    → GoesOn
        (work (record s { state = st }) (c ∷ cs))
        (scan_turn st (record s { state = st }) (c ∷ cs))
unfolding scan_turn
turn-GoesOn blind c cs s p w = tt
turn-GoesOn (preface m) c cs s p w =
    preface-GoesOn c cs (record s { state = preface m }) p _ (omega arith) m (omega arith)
turn-GoesOn (header buf got) c cs s p w =
    header-GoesOn c cs (record s { state = header buf got }) p _ (omega arith) buf got w.0
turn-GoesOn (payload zero) c cs s p w = payload_zero-GoesOn c cs (record s { state = payload 0 }) p
turn-GoesOn (payload (suc k)) c cs s p w =
    payload-GoesOn c cs (record s { state = payload (suc k) }) p _ (omega arith) (suc k)
turn-GoesOn (flow buf got) c cs s p w =
    flow-GoesOn c cs (record s { state = flow buf got }) p _ (omega arith) buf got w.0 (omega arith)
turn-GoesOn (sync block zero) c cs s p w =
    sync_zero-GoesOn block c cs (record s { state = sync block 0 })
turn-GoesOn (sync block (suc k)) c cs s p w =
    sync-GoesOn c cs (record s { state = sync block (suc k) }) p _ (omega arith) block (suc k)
