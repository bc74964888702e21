-- ===== src/Kernel/Flow.antt =====
-- hyper-fast-path/src/fast_path.bpf.c, lines 251 to 283 and 530 to 618: the client's flow control, as
-- far as the eBPF program follows it. A signed number of 32 bits is its bits.
use hyper_fast_path.Prelude.{
  ℕ, zero, suc, ◌+◌, ◌*◌, ◌/◌, ◌%◌, ◌^◌, Bool, not, ◌||◌, none, some, length, get_or, min, ltb,
  ◌==◌, if◌then◌else◌,
}
use hyper_fast_path.Prelude.Bytes.{Bytes}
use hyper_fast_path.Kernel.Message.{Helpers}

abbrev pub h2_initial_window : ℕ
h2_initial_window = 65535

abbrev pub h2_max_window : ℕ
h2_max_window = 0x7FFFFFFF

abbrev pub max_settings : ℕ
max_settings = 16

abbrev pub h2_setting_len : ℕ
h2_setting_len = 6

abbrev pub max_flow_frames : ℕ
max_flow_frames = 16

abbrev pub h2_settings_frame : ℕ
h2_settings_frame = 4

abbrev pub h2_window_update_frame : ℕ
h2_window_update_frame = 8

abbrev pub h2_settings_initial_window_size : ℕ
h2_settings_initial_window_size = 4

-- `struct h2_flow`.
pub record Flow : Type 0 where
  pub conn_window : ℕ
  pub stream_window : ℕ
  pub unreported : ℕ

abbrev pub opening : Flow
opening = record {
  conn_window = h2_initial_window;
  stream_window = h2_initial_window;
  unreported = 0;
}

-- The sign of a signed number of 32 bits.
abbrev pub is_negative : ℕ → Bool
is_negative w = ltb h2_max_window w

abbrev pub byte_at : Bytes → ℕ → ℕ
byte_at msg i = get_or msg i 0

abbrev pub u16_at : Bytes → ℕ → ℕ
u16_at msg i = byte_at msg i * 256 + byte_at msg (i + 1)

abbrev pub u24_at : Bytes → ℕ → ℕ
u24_at msg i = byte_at msg i * 65536 + byte_at msg (i + 1) * 256 + byte_at msg (i + 2)

abbrev pub u32_at : Bytes → ℕ → ℕ
u32_at msg i = byte_at msg i * 16777216 + u24_at msg (i + 1)

-- The connection's window, opened by so much: a 64 bit sum, cut off at the largest window.
unfoldable pub open_window : ℕ → ℕ → ℕ
open_window w inc = if not (is_negative w) then min (w + inc) h2_max_window else (w + inc) % 2 ^ 32

-- The turns of `track_flow_frame` over the settings, of which so many are left.
unfoldable pub follow_settings : Bytes → ℕ → ℕ → ℕ → ℕ → Flow → Flow
follow_settings msg off window zero i fc = fc
follow_settings msg off window (suc left) i fc =
    let p = 9 + i * h2_setting_len in
    let skipped = follow_settings msg off window left (suc i) fc in
    let val = u32_at msg (off + p + 2) in
    let followed =
      follow_settings msg off window left (suc i) (record fc { stream_window = val }) in
    if ltb window (p + h2_setting_len)
    then fc
    else if not (u16_at msg (off + p) == h2_settings_initial_window_size)
    then skipped
    else if ltb h2_max_window val
    then fc
    else followed

-- `track_flow_frame` on a WINDOW_UPDATE frame, with `window` bytes addressable behind `off`.
unfoldable pub follow_window_update : Bytes → ℕ → ℕ → ℕ → Flow → Flow
follow_window_update msg off window sid fc =
    if not (sid == 0) || not (u24_at msg off == 4)
    then fc
    else if ltb window 13
    then fc
    else record fc { conn_window = open_window fc.conn_window (u32_at msg (off + 9) % 2 ^ 31) }

-- How far behind `off` a frame is read, up to the end of the message.
abbrev pub frame_end : Bytes → ℕ → ℕ → ℕ
frame_end msg off type =
    let reach = if type == h2_window_update_frame then 13 else 9 + max_settings * h2_setting_len in
    min ((off + reach) % 2 ^ 32) (length msg)

-- What a frame says, with so many bytes addressable behind `off`.
unfoldable pub follow_frame : Bytes → Flow → ℕ → ℕ → ℕ → ℕ → ℕ → Flow
follow_frame msg fc off window type flags sid =
    if ltb window 9
    then fc
    else if type == h2_window_update_frame
    then follow_window_update msg off window sid fc
    else if flags % 2 == 1
    then fc
    else follow_settings msg off window (min (u24_at msg off / h2_setting_len) max_settings) 0 fc

unfoldable pub track_flow_frame : Helpers → Bytes → Flow → ℕ → ℕ → ℕ → ℕ → Flow
track_flow_frame h msg fc off type flags sid = elim (h.pulls off (frame_end msg off type)) [
  | none ↦ fc
  | some window ↦ follow_frame msg fc off window type flags sid
]

-- The loop of `track_flow`, with so many turns left.
unfoldable pub track_frames : Helpers → Bytes → ℕ → ℕ → Flow → Flow
track_frames h msg zero off fc = fc
track_frames h msg (suc turns) off fc =
    let rest = track_frames h msg turns ((off + 9 + u24_at msg off) % 2 ^ 32) in
    let type = byte_at msg (off + 3) in
    let flags = byte_at msg (off + 4) in
    let sid = u32_at msg (off + 5) % 2 ^ 31 in
    if ltb (length msg) ((off + 9) % 2 ^ 32) then fc else elim (h.pulls off ((off + 9) % 2 ^ 32)) [
      | none ↦ fc
      | some window ↦
          if ltb window 9
          then fc
          else if type == h2_settings_frame || type == h2_window_update_frame
          then rest (track_flow_frame h msg fc off type flags sid)
          else rest fc
    ]

-- `track_flow`, on the connection's entry of `flow_ctl`.
abbrev pub track_flow : Helpers → Bytes → Flow → Flow
track_flow h msg fc = track_frames h msg max_flow_frames 0 fc
