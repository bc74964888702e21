-- ===== src/Listener/Turns.antt =====
-- One turn of the loop of `Scanner::scan`, of hyper-fast-path/src/listener.rs, against the bytes
-- that it takes, one by one.
use native.Mathlib.Nat.{zero-min, suc-sub-suc}
use mathlib.Core.Path.{subst₂}
use hyper_fast_path.Prelude.{
  ℕ, zero, suc, ◌+◌, ◌-◌, ◌<◌, min, true, [], ◌∷◌, ◌++◌, ◌≡◌, refl, sym, ap, ◌∙◌, arith, inl, inr,
  Bool-cases, append-nil, length, take, drop, length-take, length-drop, take-append, drop-append,
  take-append-drop, ltb, ◌==◌,
}
use hyper_fast_path.Prelude.Bytes.{Bytes, bytes_eq}
use hyper_fast_path.Listener.Scanner.{
  State, preface, header, payload, sync, flow, blind, Scanner, barrier, Turn, next, leave,
  scan_preface, scan_header, scan_payload, scan_flow, scan_sync, scan_turn,
}
use hyper_fast_path.Listener.Bytewise.{feeds, feeds-append}
use hyper_fast_path.Listener.Bulk.{
  IsFree, at, feeds-barrier, feeds-sync_zero, feeds-payload_zero, feeds-blind, feeds-payload,
  feeds-header, feeds-header_full, feeds-flow, feeds-flow_full, feeds-sync, feeds-sync_full,
}
use hyper_fast_path.Listener.Opening.{
  at-at, after_preface, feeds-preface, feeds-preface_ne, expected,
}

-- The counters of a state lie within what they count.
abbrev pub IsWf : State → Type 0
IsWf (preface m) = m < 24
IsWf (header buf got) = (length buf ≡ 9) × (got < 9)
IsWf (flow buf got) = (length buf ≡ 4) × (got < 4)
IsWf _ = Unit {0}

-- What is left to do after a turn.
abbrev pub finish : Turn → Scanner
finish (next s rest) = feeds s rest
finish (leave s) = s

nil_of_length : (xs : Bytes) → length xs ≡ 0 → xs ≡ []
nil_of_length [] h = refl
nil_of_length (x ∷ xs) h = absurd (omega arith)

-- The input split where a run of at most `k` bytes ends.
by_split {κ} :
    (k : ℕ) (cs : Bytes) (P : ℕ → Bytes → Type κ)
    → 0 < k
    → ((xs ys : Bytes)
        → length xs < k
        → (suc (length xs) < k → ys ≡ [])
        → P (suc (length xs)) (xs ++ ys))
    → P (min k (suc (length cs))) cs
by_split k cs P h cases = subst₂ P counts (take-append-drop n cs) (
    cases (take n cs) (drop n cs) (omega (arith, length-take n cs))
      (λ l. nil_of_length (drop n cs) (omega (arith, length-take n cs, length-drop n cs))))
  where
    n : ℕ
    n = min k (suc (length cs)) - 1

    counts : suc (length (take n cs)) ≡ min k (suc (length cs))
    counts = omega (arith, length-take n cs)

module _ (c : ℕ) (xs ys : Bytes) (s : Scanner) (p : IsFree s) where
  payload-turn :
      (k : ℕ)
      → length xs < suc k
      → finish (scan_payload s (suc k) (suc (length xs)) (c ∷ (xs ++ ys)))
        ≡ feeds (record s { state = payload (suc k) }) (c ∷ (xs ++ ys))
  unfolding scan_payload
  payload-turn k h =
      rw (take-append xs ys, drop-append xs ys, suc-sub-suc)
        (ap (λ t. feeds t ys) (sym (feeds-payload xs c k s p (omega arith)))
          ∙ sym (feeds-append (c ∷ xs) _ ys))

  sync-turn :
      (block : Bytes) (k : ℕ)
      → length xs < suc k
      → finish (scan_sync s block (suc k) (suc (length xs)) (c ∷ (xs ++ ys)))
        ≡ feeds (record s { state = sync block (suc k) }) (c ∷ (xs ++ ys))
  unfolding scan_sync
  sync-turn block k h =
      rw (take-append xs ys, drop-append xs ys, suc-sub-suc)
        (elim (Bool-cases (k - length xs == 0)) [
          | inl done ↦
              rw (done, ← n_eq done)
                (sym (
                  feeds-append (c ∷ xs) _ ys
                  ∙ ap (λ t. feeds t ys) (feeds-sync_full xs block c s p)
                  ∙ feeds-barrier s (block ++ c ∷ xs) ys))
          | inr more ↦ rw more (
              ap (λ n. feeds (record s { state = sync (block ++ c ∷ xs) n }) ys) (omega arith)
              ∙ ap (λ t. feeds t ys) (sym (feeds-sync (c ∷ xs) block k s p (ground arith)))
              ∙ sym (feeds-append (c ∷ xs) _ ys))
        ])
    where
      n_eq : (k - length xs == 0) ≡ true → length xs ≡ k
      n_eq e = ground arith

  header-turn :
      (buf : Bytes) (got : ℕ)
      → got < 9
      → length xs < 9 - got
      → (suc (length xs) < 9 - got → ys ≡ [])
      → finish (scan_header s buf got (suc (length xs)) (c ∷ (xs ++ ys)))
        ≡ feeds (record s { state = header buf got }) (c ∷ (xs ++ ys))
  unfolding scan_header
  header-turn buf got g h all =
      rw (take-append xs ys, drop-append xs ys)
        (elim (Bool-cases (ltb (got + suc (length xs)) 9)) [
          | inl more ↦
              rw (more, all (ground arith), append-nil xs)
                (sym (feeds-header (c ∷ xs) buf got s p (ground arith)))
          | inr full ↦ rw full (
              ap (λ t. feeds t ys) (sym (feeds-header_full xs buf c got s p (ground arith)))
              ∙ sym (feeds-append (c ∷ xs) _ ys))
        ])

  flow-turn :
      (buf : Bytes) (got : ℕ)
      → got < 4
      → length xs < 4 - got
      → finish (scan_flow s buf got (suc (length xs)) (c ∷ (xs ++ ys)))
        ≡ feeds (record s { state = flow buf got }) (c ∷ (xs ++ ys))
  unfolding scan_flow
  flow-turn buf got g h =
      rw (take-append xs ys, drop-append xs ys)
        (elim (Bool-cases (got + suc (length xs) == 4)) [
          | inl full ↦ rw full (
              ap (λ t. feeds t ys) (sym (feeds-flow_full xs buf c got s p (ground arith)))
              ∙ sym (feeds-append (c ∷ xs) _ ys))
          | inr more ↦ rw more (
              ap (λ t. feeds t ys) (sym (feeds-flow (c ∷ xs) buf got s p (ground arith)))
              ∙ sym (feeds-append (c ∷ xs) _ ys))
        ])

  preface-turn :
      (m : ℕ)
      → m < 24
      → length xs < 24 - m
      → finish (scan_preface s m (suc (length xs)) (c ∷ (xs ++ ys)))
        ≡ feeds (record s { state = preface m }) (c ∷ (xs ++ ys))
  unfolding scan_preface
  preface-turn m g h =
      rw (take-append xs ys, drop-append xs ys)
        (elim (Bool-cases (bytes_eq (c ∷ xs) (expected m (c ∷ xs)))) [
          | inl same ↦ rw same (
              ap (λ n. feeds (at s (after_preface n) (c ∷ xs)) ys) (omega arith)
              ∙ ap (λ t. feeds t ys) (sym (feeds-preface xs c m s p (omega arith) same))
              ∙ sym (feeds-append (c ∷ xs) _ ys))
          | inr differs ↦ rw differs (
              sym (
                feeds-append (c ∷ xs) _ ys
                ∙ ap (λ t. feeds t ys) (feeds-preface_ne xs c m s p (omega arith) differs)
                ∙ feeds-blind ys (at s blind (c ∷ xs)) p
                ∙ at-at s blind blind (c ∷ xs) ys))
        ])

payload_zero-turn :
    (c : ℕ) (cs : Bytes) (s : Scanner)
    → IsFree s
    → finish (scan_payload (record s { state = payload 0 }) 0 (min 0 (suc (length cs))) (c ∷ cs))
      ≡ feeds (record s { state = payload 0 }) (c ∷ cs)
unfolding scan_payload
payload_zero-turn c cs s p = rw (zero-min, append-nil) (sym (feeds-payload_zero cs c s p))

sync_zero-turn :
    (block : Bytes) (c : ℕ) (cs : Bytes) (s : Scanner)
    → IsFree s
    → finish
        (scan_sync (record s { state = sync block 0 }) block 0 (min 0 (suc (length cs))) (c ∷ cs))
      ≡ feeds (record s { state = sync block 0 }) (c ∷ cs)
unfolding scan_sync barrier
sync_zero-turn block c cs s p = rw (zero-min, append-nil) (sym (feeds-sync_zero cs block c s p))

pub turn-feeds :
    (st : State) (c : ℕ) (cs : Bytes) (s : Scanner)
    → IsFree s
    → IsWf st
    → finish (scan_turn st (record s { state = st }) (c ∷ cs))
      ≡ feeds (record s { state = st }) (c ∷ cs)
unfolding scan_turn
turn-feeds blind c cs s p w = sym (feeds-blind (c ∷ cs) s p)
turn-feeds (preface m) c cs s p w =
    by_split (24 - m) cs
      (λ n r.
        finish (scan_preface (record s { state = preface m }) m n (c ∷ r))
        ≡ feeds (record s { state = preface m }) (c ∷ r))
      (omega arith) (λ xs ys h all. preface-turn c xs ys (record s { state = preface m }) p m w h)
turn-feeds (header buf got) c cs s p w =
    by_split (9 - got) cs
      (λ n r.
        finish (scan_header (record s { state = header buf got }) buf got n (c ∷ r))
        ≡ feeds (record s { state = header buf got }) (c ∷ r))
      (omega arith)
      (λ xs ys h all. header-turn c xs ys (record s { state = header buf got }) p buf got w.1 h all)
turn-feeds (payload zero) c cs s p w = payload_zero-turn c cs s p
turn-feeds (payload (suc k)) c cs s p w =
    by_split (suc k) cs
      (λ n r.
        finish (scan_payload (record s { state = payload (suc k) }) (suc k) n (c ∷ r))
        ≡ feeds (record s { state = payload (suc k) }) (c ∷ r))
      (omega arith)
      (λ xs ys h all. payload-turn c xs ys (record s { state = payload (suc k) }) p k h)
turn-feeds (flow buf got) c cs s p w =
    by_split (4 - got) cs
      (λ n r.
        finish (scan_flow (record s { state = flow buf got }) buf got n (c ∷ r))
        ≡ feeds (record s { state = flow buf got }) (c ∷ r))
      (omega arith)
      (λ xs ys h all. flow-turn c xs ys (record s { state = flow buf got }) p buf got w.1 h)
turn-feeds (sync block zero) c cs s p w = sync_zero-turn block c cs s p
turn-feeds (sync block (suc k)) c cs s p w =
    by_split (suc k) cs
      (λ n r.
        finish (scan_sync (record s { state = sync block (suc k) }) block (suc k) n (c ∷ r))
        ≡ feeds (record s { state = sync block (suc k) }) (c ∷ r))
      (omega arith)
      (λ xs ys h all. sync-turn c xs ys (record s { state = sync block (suc k) }) p block k h)
