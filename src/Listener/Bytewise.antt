-- ===== src/Listener/Bytewise.antt =====
-- What the scanner of hyper-fast-path/src/listener.rs is to do, one byte at a time: a description
-- that knows nothing of chunks. `react` says what a byte does to the state, and `feed` carries it
-- out on a scanner, behind the barrier that a pending update is.
use hyper_fast_path.Prelude.{
  ℕ, zero, suc, ◌≡◌, refl, [], ◌∷◌, ◌++◌, length, replicate, get_or, set, ltb, ◌==◌, if◌then◌else◌,
}
use hyper_fast_path.Prelude.Bytes.{Bytes, from_be_bytes}
use hyper_fast_path.Listener.FlowHandle
use hyper_fast_path.Listener.SyncHandle
use hyper_fast_path.Listener.Scanner.{
  State, preface, header, payload, sync, flow, blind, Scanner, fresh_header, preface_bytes,
  frame_header_len, fc_sync_frame_type, dt_sync_frame_type, fc_sync_body_len, max_sync_frame,
  frame_kind, frame_len,
}

pub data Reaction : Type 0 where
  -- go to a state, and hand these bytes on
  pass : State → Bytes → Reaction
  -- at a frame's end, having been told of so many bytes served
  spend : ℕ → Reaction
  -- the byte completes this update, which ends a frame
  update : Bytes → Reaction
  -- the update was complete before the byte came
  update_before : Bytes → Reaction

-- A predicate at the state that a reaction names.
abbrev pub StateAfter {ℓ} : (State → Type ℓ) → Reaction → Type ℓ
StateAfter P (pass st bytes) = P st
StateAfter P _ = Unit

-- The byte that completes a frame header.
unfoldable pub complete : Bytes → Reaction
unfolding from_be_bytes
complete buf =
    if frame_kind buf == fc_sync_frame_type
    then pass
        (if frame_len buf == fc_sync_body_len then flow (replicate fc_sync_body_len 0) 0 else blind)
        []
    else if frame_kind buf == dt_sync_frame_type
    then pass (if ltb max_sync_frame (frame_len buf) then blind else sync [] (frame_len buf)) []
    else pass (payload (frame_len buf)) buf

unfoldable pub react_header : Bytes → ℕ → ℕ → Reaction
unfolding complete
react_header buf got c =
    if ltb (suc got) frame_header_len
    then pass (header (set buf got c) (suc got)) []
    else complete (set buf got c)

unfoldable pub react : State → ℕ → Reaction
unfolding react_header from_be_bytes
react blind c = pass blind (c ∷ [])
react (preface matched) c =
    if c == get_or preface_bytes matched 0
    then pass (if suc matched == length preface_bytes then fresh_header else preface (suc matched))
        (c ∷ [])
    else pass blind (c ∷ [])
react (header buf got) c = react_header buf got c
react (payload zero) c = react_header (replicate frame_header_len 0) 0 c
react (payload (suc k)) c = pass (if k == 0 then fresh_header else payload k) (c ∷ [])
react (flow buf got) c =
    if suc got == fc_sync_body_len
    then spend (from_be_bytes (set buf got c))
    else pass (flow (set buf got c) (suc got)) []
react (sync block zero) c = update_before block
react (sync block (suc k)) c =
    if k == 0 then update (block ++ c ∷ []) else pass (sync (block ++ c ∷ []) k) []

unfoldable pub carry_out : Scanner → Reaction → ℕ → Scanner
unfolding FlowHandle.add SyncHandle.push
carry_out s (pass st bytes) c = record s { state = st; out = s.out ++ bytes }
carry_out s (spend sent) c = record s { state = fresh_header; spent = FlowHandle.add s.spent sent }
carry_out s (update block) c = record s {
  state = fresh_header;
  updates = SyncHandle.push s.updates block;
}
carry_out s (update_before block) c = record s {
  state = fresh_header;
  updates = SyncHandle.push s.updates block;
  hold = s.hold ++ c ∷ [];
}

unfoldable pub feed : Scanner → ℕ → Scanner
unfolding SyncHandle.is_pending carry_out
feed s c =
    if SyncHandle.is_pending s.updates
    then record s { hold = s.hold ++ c ∷ [] }
    else carry_out s (react s.state c) c

unfoldable pub feeds : Scanner → Bytes → Scanner
feeds s [] = s
feeds s (c ∷ cs) = feeds (feed s c) cs

pub feeds-append :
    (xs : Bytes) (s : Scanner) (ys : Bytes) → feeds s (xs ++ ys) ≡ feeds (feeds s xs) ys
unfolding feeds
feeds-append [] s ys = refl
feeds-append (x ∷ xs) s ys = feeds-append xs (feed s x) ys
