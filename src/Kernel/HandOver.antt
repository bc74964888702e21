-- ===== src/Kernel/HandOver.antt =====
-- hyper-fast-path/src/fast_path.bpf.c, lines 1060 to 1098 and 1108 to 1131: a message goes to user
-- space, behind what user space has to be told first.
use hyper_fast_path.Prelude.{
  ℕ, ◌+◌, ◌%◌, ◌^◌, Bool, false, ◌||◌, [], Option, none, some, length, ltb, ◌==◌, if◌then◌else◌,
}
use hyper_fast_path.Prelude.Bytes.{Bytes}
use hyper_fast_path.Kernel.Message.{Helpers}
use hyper_fast_path.Kernel.Flow.{Flow, is_negative, track_flow}
use hyper_fast_path.Kernel.Sync.{HeaderField, render_dt_sync, prepend_dt_sync, prepend_fc_sync}

-- What the maps hold of a connection: how far its handshake is, if it was upgraded to HTTP/2, its
-- flow control, and whether the dynamic tables may have drifted apart.
pub record Conn : Type 0 where
  pub state : Option ℕ
  pub flow : Option Flow
  pub dirty : Bool

-- A message on its way, and how many bytes of the stream are known to belong to it, a signed number
-- of 32 bits.
pub record Passing : Type 0 where
  pub conn : Conn
  pub msg : Bytes
  pub msg_len : ℕ

abbrev u32_add : ℕ → ℕ → ℕ
u32_add a b = (a + b) % 2 ^ 32

-- What `prepend_dt_sync` returns if it succeeds.
abbrev pub frame_len : Option Bytes → ℕ
frame_len none = 0
frame_len (some body) = 9 + length body

-- The windows that the message opens, on the connection's entry of `flow_ctl` if there is one.
abbrev pub tracked : Helpers → Bytes → Option Flow → Option Flow
tracked h msg none = none
tracked h msg (some fc) = some (track_flow h msg fc)

module _ (field_maxlen : ℕ) (get_dt_entry : ℕ → Option HeaderField) (h : Helpers) where
  -- The table is handed over if it may be stale; if that fails, the message is dropped.
  unfoldable pub hand_over_table : ℕ → Passing → Option Passing
  hand_over_table n p =
      let put = prepend_dt_sync field_maxlen get_dt_entry h p.msg n in
      if p.conn.dirty
      then if put.0
        then some (record {
          conn = record p.conn { dirty = false };
          msg = put.1;
          msg_len = u32_add p.msg_len (frame_len (render_dt_sync field_maxlen get_dt_entry n []));
        })
        else none
      else some p

  unfoldable pub report_spent : Flow → Passing → Passing
  report_spent fc p =
      let put = prepend_fc_sync h p.msg fc.unreported in
      if is_negative p.msg_len || fc.unreported == 0
      then p
      else if put.0
      then record {
        conn = record p.conn { flow = some (record fc { unreported = 0 }) };
        msg = put.1;
        msg_len = u32_add p.msg_len 13;
      }
      else record p { msg = put.1 }

  abbrev pub report_flow : Option Flow → Passing → Passing
  report_flow none p = p
  report_flow (some fc) p = report_spent fc p

  -- The bytes served out of band are reported, unless that fails.
  unfoldable pub hand_over_spent : Passing → Passing
  hand_over_spent p = report_flow p.conn.flow p

  -- A message of an HTTP/2 connection that was parsed, with so many entries in the table before it.
  -- One whose length is negative is left alone.
  unfoldable pub hand_over : ℕ → Passing → Option Passing
  hand_over n p =
      let told : Option Passing =
        elim (hand_over_table n
          (record p { conn = record p.conn { flow = tracked h p.msg p.conn.flow } })) [
            | none ↦ none
            | some q ↦ some (hand_over_spent q)
          ] in
      if is_negative p.msg_len then some p else told

-- How many bytes user space is handed.
unfoldable pub forward_len : Passing → ℕ
forward_len p =
    if is_negative p.msg_len || p.msg_len == 0
    then 0xFFFFFFFF
    else if ltb p.msg_len (length p.msg)
    then length p.msg
    else p.msg_len
