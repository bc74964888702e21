-- ===== src/Listener/Scanner.antt =====
-- hyper-fast-path/src/listener.rs, `State` and `Scanner`. A handle and its clones share one queue
-- or counter, which is a field of the scanner here. Buffers are `Bytes`, a `VecDeque<u8>` is the
-- list of its bytes from the front, and the logging calls are left out.
use hyper_fast_path.Prelude.{
  ℕ, zero, suc, ◌+◌, ◌-◌, ◌*◌, min, not, [], ◌∷◌, ◌++◌, Option, none, some, length, take, drop,
  replicate, get_or, ltb, ◌==◌, if◌then◌else◌,
}
use hyper_fast_path.Listener.FlowHandle
use hyper_fast_path.Listener.FlowHandle.{FlowHandle}
use hyper_fast_path.Listener.SyncHandle
use hyper_fast_path.Listener.SyncHandle.{SyncHandle}
use hyper_fast_path.Prelude.Bytes.{Bytes, bytes_eq, from_be_bytes, copy_at}

abbrev pub dt_sync_frame_type : ℕ
dt_sync_frame_type = 0xFB

abbrev pub fc_sync_frame_type : ℕ
fc_sync_frame_type = 0xFA

abbrev pub fc_sync_body_len : ℕ
fc_sync_body_len = 4

-- `b"PRI * HTTP/2.0\r\n\r\nSM\r\n\r\n"`
abbrev pub preface_bytes : Bytes
preface_bytes =
    80 ∷ 82 ∷ 73 ∷ 32 ∷ 42 ∷ 32 ∷ 72 ∷ 84 ∷ 84 ∷ 80 ∷ 47 ∷ 50 ∷ 46 ∷ 48 ∷ 13 ∷ 10 ∷ 13 ∷ 10 ∷ 83
    ∷ 77 ∷ 13 ∷ 10 ∷ 13 ∷ 10 ∷ []

abbrev pub frame_header_len : ℕ
frame_header_len = 9

abbrev pub max_sync_frame : ℕ
max_sync_frame = 64 * 1024

pub data State : Type 0 where
  preface : ℕ → State
  header : Bytes → ℕ → State
  payload : ℕ → State
  sync : Bytes → ℕ → State
  flow : Bytes → ℕ → State
  blind : State

pub record Scanner : Type 0 where
  pub state : State
  pub out : Bytes
  pub hold : Bytes
  pub updates : SyncHandle
  pub spent : FlowHandle

-- `State::header()`.
abbrev pub fresh_header : State
fresh_header = header (replicate frame_header_len 0) 0

-- `Scanner::new`, on two handles.
abbrev pub new : SyncHandle → FlowHandle → Scanner
new updates spent = record {
  state = preface 0;
  out = [];
  hold = [];
  updates = updates;
  spent = spent;
}

-- The bytes of a frame header that the scanner reads.
abbrev pub frame_len : Bytes → ℕ
frame_len buf = from_be_bytes (0 ∷ get_or buf 0 0 ∷ get_or buf 1 0 ∷ get_or buf 2 0 ∷ [])

abbrev pub frame_kind : Bytes → ℕ
frame_kind buf = get_or buf 3 0

-- What one turn of the loop does: go on with the rest of the input, or leave `scan`.
pub data Turn : Type 0 where
  next : Scanner → Bytes → Turn
  leave : Scanner → Turn

-- `State::Preface`, on the `n` bytes that may still belong to the preface.
unfoldable pub scan_preface : Scanner → ℕ → ℕ → Bytes → Turn
scan_preface s matched n rest =
    if not (bytes_eq (take n rest) (take n (drop matched preface_bytes)))
    then leave (record s { out = s.out ++ rest; state = blind })
    else next
        (record s {
          out = s.out ++ take n rest;
          state =
              if matched + n == length preface_bytes then fresh_header else preface (matched + n);
        })
        (drop n rest)

-- What a complete frame header leads to.
unfoldable pub classify : Scanner → Bytes → Scanner
classify s buf =
    if frame_kind buf == fc_sync_frame_type
    then (if frame_len buf == fc_sync_body_len
        then record s { state = flow (replicate fc_sync_body_len 0) 0 }
        else record s { state = blind })
    else if not (frame_kind buf == dt_sync_frame_type)
    then record s { out = s.out ++ buf; state = payload (frame_len buf) }
    else if ltb max_sync_frame (frame_len buf)
    then record s { state = blind }
    else record s { state = sync [] (frame_len buf) }

-- `State::Header`, with `n` more of its bytes.
unfoldable pub scan_header : Scanner → Bytes → ℕ → ℕ → Bytes → Turn
scan_header s buf got n rest =
    if ltb (got + n) frame_header_len
    then leave (record s { state = header (copy_at buf got (take n rest)) (got + n) })
    else next (classify s (copy_at buf got (take n rest))) (drop n rest)

-- `State::Payload`, with `n` more of its bytes.
unfoldable pub scan_payload : Scanner → ℕ → ℕ → Bytes → Turn
scan_payload s remaining n rest =
    next
      (record s {
        out = s.out ++ take n rest;
        state = if remaining - n == 0 then fresh_header else payload (remaining - n);
      })
      (drop n rest)

-- A complete report of bytes served out of band.
unfoldable pub report : Scanner → Bytes → Scanner
report s buf = record s { spent = FlowHandle.add s.spent (from_be_bytes buf); state = fresh_header }

-- `State::Flow`, with `n` more of its bytes.
unfoldable pub scan_flow : Scanner → Bytes → ℕ → ℕ → Bytes → Turn
scan_flow s buf got n rest =
    if got + n == fc_sync_body_len
    then next (report s (copy_at buf got (take n rest))) (drop n rest)
    else next (record s { state = flow (copy_at buf got (take n rest)) (got + n) }) (drop n rest)

-- A complete update: everything behind it has to wait.
unfoldable pub barrier : Scanner → Bytes → Bytes → Scanner
barrier s block rest = record s {
  updates = SyncHandle.push s.updates block;
  state = fresh_header;
  hold = s.hold ++ rest;
}

-- `State::Sync`, with `n` more of its bytes.
unfoldable pub scan_sync : Scanner → Bytes → ℕ → ℕ → Bytes → Turn
scan_sync s block remaining n rest =
    if remaining - n == 0
    then leave (barrier s (block ++ take n rest) (drop n rest))
    else next (record s { state = sync (block ++ take n rest) (remaining - n) }) (drop n rest)

-- One turn of the loop of `scan`: the `match` on the state.
unfoldable pub scan_turn : State → Scanner → Bytes → Turn
scan_turn blind s rest = leave (record s { out = s.out ++ rest })
scan_turn (preface matched) s rest =
    scan_preface s matched (min (length preface_bytes - matched) (length rest)) rest
scan_turn (header buf got) s rest =
    scan_header s buf got (min (frame_header_len - got) (length rest)) rest
scan_turn (payload remaining) s rest = scan_payload s remaining (min remaining (length rest)) rest
scan_turn (flow buf got) s rest =
    scan_flow s buf got (min (fc_sync_body_len - got) (length rest)) rest
scan_turn (sync block remaining) s rest =
    scan_sync s block remaining (min remaining (length rest)) rest

-- `while !rest.is_empty()`, on fuel; `none` means that the fuel ran out.
unfoldable pub scan_loop : ℕ → Scanner → Bytes → Option Scanner
scan_loop fuel s [] = some s
scan_loop zero s (c ∷ cs) = none
scan_loop (suc fuel) s (c ∷ cs) = elim (scan_turn s.state s (c ∷ cs)) [
  | next s' rest ↦ scan_loop fuel s' rest
  | leave s' ↦ some s'
]

-- A turn that consumes nothing ends a frame with an empty payload, so two turns a byte suffice.
abbrev pub scan_fuel : Bytes → ℕ
scan_fuel input = suc (2 * length input)

abbrev or_self : Scanner → Option Scanner → Scanner
or_self s none = s
or_self s (some s') = s'

-- `Scanner::scan`.
unfoldable pub scan : Scanner → Bytes → Scanner
scan s input =
    if SyncHandle.is_pending s.updates
    then record s { hold = s.hold ++ input }
    else or_self s (scan_loop (scan_fuel input) s input)
