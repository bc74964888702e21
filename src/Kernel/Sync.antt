-- ===== src/Kernel/Sync.antt =====
-- hyper-fast-path/src/fast_path.bpf.c: the frames that the eBPF program puts in front of a message
-- on its way to user space. The parser's mirror of the dynamic table is a parameter, and so is the
-- length to which it cuts a name or a value.
use hyper_fast_path.Prelude.{
  ℕ, zero, suc, ◌+◌, ◌-◌, ◌*◌, ◌%◌, ◌^◌, Bool, true, false, ◌||◌, [], ◌∷◌, ◌++◌, Option, none, some,
  and_then, length, take, ltb, ◌==◌, if◌then◌else◌,
}
use hyper_fast_path.Prelude.Bytes.{Bytes, to_be_bytes, copy_at}
use hyper_fast_path.Http2.Frame.{frame_header}
use hyper_fast_path.Kernel.Message.{Helpers}

-- `struct header_field` of the parser: a name and a value, each as the client sent it.
pub record HeaderField : Type 0 where
  pub key : Bytes
  pub key_huff : Bool
  pub val : Bytes
  pub val_huff : Bool

abbrev pub static_table_size : ℕ
static_table_size = 61

abbrev pub dt_sync_frame_type : ℕ
dt_sync_frame_type = 0xFB

abbrev pub fc_sync_frame_type : ℕ
fc_sync_frame_type = 0xFA

abbrev pub max_sync_entries : ℕ
max_sync_entries = 8

abbrev pub max_sync_buf : ℕ
max_sync_buf = 4096

abbrev pub max_sync_field : ℕ
max_sync_field = 126

-- The H bit and the length of a string. The length is below 128, so the two share no bit.
abbrev pub string_head : Bool → Bytes → ℕ
string_head huff str = (if huff then 0x80 else 0) + length str

-- The loop of `prepend_dt_sync` that writes the body, up to the end of what is addressable.
abbrev pub fill_dt_sync : Bytes → ℕ → Bytes → Bool × Bytes
fill_dt_sync body window msg =
    if ltb window (9 + length body)
    then (false, copy_at msg 9 (take (window - 9) body))
    else (true, copy_at msg 9 body)

module _ (field_maxlen : ℕ) where
  abbrev pub max_sync_body : ℕ
  max_sync_body = max_sync_entries * (2 + 2 * field_maxlen)

  -- `sync_put`, on the bytes that the buffer holds.
  unfoldable pub sync_put : Bytes → Bytes → Option Bytes
  sync_put buf src =
      if ltb max_sync_field (length src) || ltb max_sync_body ((length buf + length src) % 2 ^ 32)
      then none
      else some (buf ++ src)

  -- `sync_put_byte`.
  unfoldable pub sync_put_byte : Bytes → ℕ → Option Bytes
  sync_put_byte buf c =
      if ltb max_sync_body ((length buf + 1) % 2 ^ 32) then none else some (buf ++ c ∷ [])

  -- One turn of the loop of `render_dt_sync`, on the entry that was read.
  unfoldable pub put_entry : HeaderField → Bytes → Option Bytes
  put_entry hf buf =
      if length hf.key == 0
        || (ltb max_sync_field (length hf.key) || ltb max_sync_field (length hf.val))
      then none
      else and_then (sync_put_byte buf 0x40) (λ b.
        and_then (sync_put_byte b (string_head hf.key_huff hf.key)) (λ b.
          and_then (sync_put b hf.key) (λ b.
            and_then (sync_put_byte b (string_head hf.val_huff hf.val)) (λ b. sync_put b hf.val))))

  module _ (get_dt_entry : ℕ → Option HeaderField) where
    -- `render_dt_sync`, with so many entries left: the oldest has the highest index.
    unfoldable pub render_dt_sync : ℕ → Bytes → Option Bytes
    render_dt_sync zero buf = some buf
    render_dt_sync (suc left) buf =
        and_then (get_dt_entry (static_table_size + suc left))
          (λ hf. and_then (put_entry hf buf) (λ b. render_dt_sync left b))

    -- `prepend_dt_sync`: whether it succeeded, and the message.
    unfoldable pub prepend_dt_sync : Helpers → Bytes → ℕ → Bool × Bytes
    prepend_dt_sync h msg n = elim (render_dt_sync n []) [
      | none ↦ (false, msg)
      | some body ↦
          if ltb max_sync_body (length body)
          then (false, msg)
          else elim (h.pushes 0 (9 + length body)) [
            | none ↦ (false, msg)
            | some room ↦ elim (h.pulls 0 (9 + length body)) [
              | none ↦ (false, room ++ msg)
              | some window ↦
                  if ltb window 9
                  then (false, room ++ msg)
                  else fill_dt_sync body window
                      (copy_at (room ++ msg) 0 (frame_header (length body) dt_sync_frame_type 0 0))
            ]
          ]
    ]

-- `prepend_fc_sync`: whether it succeeded, and the message.
unfoldable pub prepend_fc_sync : Helpers → Bytes → ℕ → Bool × Bytes
prepend_fc_sync h msg sent = elim (h.pushes 0 13) [
  | none ↦ (false, msg)
  | some room ↦ elim (h.pulls 0 13) [
    | none ↦ (false, room ++ msg)
    | some window ↦ if ltb window 13 then (false, room ++ msg) else (
      true,
      copy_at (room ++ msg) 0 (frame_header 4 fc_sync_frame_type 0 0 ++ to_be_bytes sent),
    )
  ]
]
