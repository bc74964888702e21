-- ===== src/Listener/Bulk.antt =====
-- Runs of bytes that the scanner of hyper-fast-path/src/listener.rs takes in one go, against the
-- same bytes one by one.
use hyper_fast_path.Prelude.{
  ℕ, zero, suc, ◌+◌, ◌-◌, ◌≤◌, ◌<◌, true, false, List, [], ◌∷◌, ◌++◌, ◌≡◌, refl, ◌∙◌, arith,
  append-nil, append_assoc, length, set, ◌==◌, if◌then◌else◌,
}
use hyper_fast_path.Prelude.Bytes.{Bytes, copy_at}
use hyper_fast_path.Listener.SyncHandle
use hyper_fast_path.Listener.Scanner.{
  State, header, payload, sync, flow, blind, Scanner, fresh_header, classify, report, barrier,
}
use hyper_fast_path.Listener.Bytewise.{react, react_header, complete, carry_out, feed, feeds}

-- A scanner with no update waiting, put into a state.
abbrev pub IsFree : Scanner → Type 0
IsFree s = SyncHandle.is_pending s.updates ≡ false

abbrev pub at : Scanner → State → Bytes → Scanner
at s st bytes = record s { state = st; out = s.out ++ bytes }

pub feeds-pending :
    (s : Scanner) (xs : Bytes)
    → SyncHandle.is_pending s.updates ≡ true
    → feeds s xs ≡ record s { hold = s.hold ++ xs }
unfolding feeds feed
feeds-pending s [] p = rw append-nil
feeds-pending s (c ∷ cs) p = ground (
  arith,
  feeds-pending (record s { hold = s.hold ++ c ∷ [] }) cs p,
  append_assoc s.hold (c ∷ []) cs,
)

pub feeds-cons : (s t : Scanner) (c : ℕ) (cs : Bytes) → feed s c ≡ t → feeds s (c ∷ cs) ≡ feeds t cs
unfolding feeds
feeds-cons s t c cs e = rw e

pub feeds-blind :
    (xs : Bytes) (s : Scanner) → IsFree s → feeds (record s { state = blind }) xs ≡ at s blind xs
unfolding feeds feed react
feeds-blind [] s p = rw append-nil
feeds-blind (c ∷ cs) s p =
    ground (arith, feeds-blind cs (at s blind (c ∷ [])) p, append_assoc s.out (c ∷ []) cs)

pub feeds-payload :
    (xs : Bytes) (c k : ℕ) (s : Scanner)
    → IsFree s
    → length xs ≤ k
    → feeds (record s { state = payload (suc k) }) (c ∷ xs)
      ≡ at s (if k - length xs == 0 then fresh_header else payload (k - length xs)) (c ∷ xs)
unfolding feeds feed react
feeds-payload [] c k s p h = ground arith
feeds-payload (d ∷ xs) c zero s p h = absurd (omega arith)
feeds-payload (d ∷ xs) c (suc k) s p h = ground (
  arith,
  feeds-payload xs d k (at s (payload (suc k)) (c ∷ [])) p,
  append_assoc s.out (c ∷ []) (d ∷ xs),
)

carry_out-complete :
    (s : Scanner) (buf : Bytes) (c : ℕ) → carry_out s (complete buf) c ≡ classify s buf
unfolding carry_out complete classify
carry_out-complete s buf c = ground (arith, append-nil s.out)

classify-any_state :
    (st : State) (s : Scanner) (buf : Bytes)
    → classify (record s { state = st }) buf ≡ classify s buf
unfolding classify
classify-any_state st s buf = ground arith

pub feeds-header :
    (xs buf : Bytes) (got : ℕ) (s : Scanner)
    → IsFree s
    → got + length xs < 9
    → feeds (record s { state = header buf got }) xs
      ≡ record s { state = header (copy_at buf got xs) (got + length xs) }
unfolding feeds feed react copy_at
feeds-header [] buf got s p h = ground arith
feeds-header (c ∷ xs) buf got s p h =
    ground (arith, feeds-header xs (set buf got c) (suc got) s p, append-nil s.out)

pub feeds-header_full :
    (xs buf : Bytes) (c got : ℕ) (s : Scanner)
    → IsFree s
    → got + suc (length xs) ≡ 9
    → feeds (record s { state = header buf got }) (c ∷ xs) ≡ classify s (copy_at buf got (c ∷ xs))
unfolding feeds feed react react_header copy_at
feeds-header_full [] buf c got s p h = ground (
  arith,
  carry_out-complete s (set buf got c) c,
  classify-any_state (header buf got) s (set buf got c),
)
feeds-header_full (d ∷ xs) buf c got s p h =
    ground (arith, feeds-header_full xs (set buf got c) d (suc got) s p, append-nil s.out)

pub feeds-flow :
    (xs buf : Bytes) (got : ℕ) (s : Scanner)
    → IsFree s
    → got + length xs < 4
    → feeds (record s { state = flow buf got }) xs
      ≡ record s { state = flow (copy_at buf got xs) (got + length xs) }
unfolding feeds feed react copy_at
feeds-flow [] buf got s p h = ground arith
feeds-flow (c ∷ xs) buf got s p h =
    ground (arith, feeds-flow xs (set buf got c) (suc got) s p, append-nil s.out)

pub feeds-flow_full :
    (xs buf : Bytes) (c got : ℕ) (s : Scanner)
    → IsFree s
    → got + suc (length xs) ≡ 4
    → feeds (record s { state = flow buf got }) (c ∷ xs) ≡ report s (copy_at buf got (c ∷ xs))
unfolding feeds feed react copy_at report
feeds-flow_full [] buf c got s p h = ground arith
feeds-flow_full (d ∷ xs) buf c got s p h =
    ground (arith, feeds-flow_full xs (set buf got c) d (suc got) s p, append-nil s.out)

pub feeds-sync :
    (xs block : Bytes) (k : ℕ) (s : Scanner)
    → IsFree s
    → length xs ≤ k
    → feeds (record s { state = sync block (suc k) }) xs
      ≡ record s { state = sync (block ++ xs) (suc k - length xs) }
unfolding feeds feed react
feeds-sync [] block k s p h = ground (arith, append-nil block)
feeds-sync (c ∷ xs) block zero s p h = absurd (omega arith)
feeds-sync (c ∷ xs) block (suc k) s p h =
    ground (
      arith,
      feeds-sync xs (block ++ c ∷ []) k s p,
      append-nil s.out,
      append_assoc block (c ∷ []) xs,
    )

pub feeds-sync_full :
    (xs block : Bytes) (c : ℕ) (s : Scanner)
    → IsFree s
    → feeds (record s { state = sync block (suc (length xs)) }) (c ∷ xs)
      ≡ barrier s (block ++ c ∷ xs) []
unfolding feeds feed react barrier
feeds-sync_full [] block c s p = ground (arith, append-nil s.hold)
feeds-sync_full (d ∷ xs) block c s p = ground (
  arith,
  feeds-sync_full xs (block ++ c ∷ []) d s p,
  append-nil s.out,
  append_assoc block (c ∷ []) (d ∷ xs),
)

pending-push :
    (xs : List Bytes) (b : Bytes) → SyncHandle.is_pending (record { blocks = xs ++ b ∷ [] }) ≡ true
unfolding SyncHandle.is_pending
pending-push [] b = refl
pending-push (x ∷ xs) b = refl

-- What follows an update is held back.
pub feeds-barrier :
    (s : Scanner) (block xs : Bytes) → feeds (barrier s block []) xs ≡ barrier s block xs
unfolding barrier SyncHandle.push
feeds-barrier s block xs = feeds-pending _ xs (pending-push s.updates.blocks block) ∙ rw append-nil

feed-sync_zero :
    (block : Bytes) (c : ℕ) (s : Scanner)
    → IsFree s
    → feed (record s { state = sync block 0 }) c ≡ barrier s block (c ∷ [])
unfolding feed react carry_out barrier
feed-sync_zero block c s p = rw p

pub feeds-sync_zero :
    (cs block : Bytes) (c : ℕ) (s : Scanner)
    → IsFree s
    → feeds (record s { state = sync block 0 }) (c ∷ cs) ≡ barrier s block (c ∷ cs)
unfolding barrier SyncHandle.push
feeds-sync_zero cs block c s p =
    feeds-cons (record s { state = sync block 0 }) (barrier s block (c ∷ [])) c cs
      (feed-sync_zero block c s p)
    ∙ feeds-pending _ cs (pending-push s.updates.blocks block)
    ∙ rw append_assoc

pub feeds-payload_zero :
    (cs : Bytes) (c : ℕ) (s : Scanner)
    → IsFree s
    → feeds (record s { state = payload 0 }) (c ∷ cs)
      ≡ feeds (record s { state = fresh_header }) (c ∷ cs)
unfolding feeds feed react
feeds-payload_zero cs c s p = rw p
