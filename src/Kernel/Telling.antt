-- ===== src/Kernel/Telling.antt =====
-- About what user space is told by the messages that hyper-fast-path/src/fast_path.bpf.c hands it.
use hyper_fast_path.Prelude.{
  ℕ, ◌+◌, ◌≤◌, Bool, false, List, [], ◌++◌, Option, none, some, some_eq, none-some, ◌≡◌, refl, ap,
  ◌∙◌, arith, Option-cases, inl, inr, Yields-some,
}
use hyper_fast_path.Prelude.Bytes.{Bytes}
use hyper_fast_path.Http2.Frame.{Frame, encodes}
use hyper_fast_path.Listener.FrameBytes.{AllFrames}
use hyper_fast_path.Listener.Frames.{
  passed_on, updates_of, served_of, passed_on-append, updates_of-append, served_of-append,
  encodes-append, AllFrames-append,
}
use hyper_fast_path.Kernel.Message.{Helpers, IsDocumented}
use hyper_fast_path.Kernel.Flow.{Flow, is_negative}
use hyper_fast_path.Kernel.FlowWindows.{IsWf, track_flow-IsWf}
use hyper_fast_path.Kernel.Sync.{HeaderField, max_sync_buf, max_sync_body, render_dt_sync}
use hyper_fast_path.Kernel.HandOver.{
  Conn, Passing, hand_over_table, hand_over_spent, hand_over, report_flow, tracked,
}
use hyper_fast_path.Kernel.Forwarding.{
  unreported_of, owed, TableTold, SpentTold, SpentTold-same, hand_over_table-TableTold,
  report_spent-SpentTold,
}

abbrev pub AllWf : Option Flow → Type 0
AllWf none = Unit {0}
AllWf (some fc) = IsWf fc

tracked-AllWf :
    (h : Helpers) (msg : Bytes) (fc : Option Flow)
    → AllWf fc
    → AllWf (tracked h msg fc) × (unreported_of (tracked h msg fc) ≡ unreported_of fc)
tracked-AllWf h msg none w = (tt, refl)
tracked-AllWf h msg (some fc) w = track_flow-IsWf h msg fc w

-- What user space makes of a message of these frames as it is handed over, on a connection that was
-- as the first two arguments say and is `after` from then on.
pub record Told (dirty : Bool) (flow : Option Flow) (table : Option Bytes) (fs : List Frame)
    (after : Conn) (msg : Bytes) : Type 0 where
  pub all : List Frame
  pub msg_eq : msg ≡ encodes all
  pub wf : AllFrames all
  pub passes_on : passed_on all ≡ passed_on fs
  pub updates : updates_of all ≡ owed dirty table ++ updates_of fs
  pub counted : served_of all + unreported_of after.flow ≡ unreported_of flow + served_of fs
  pub clean : after.dirty ≡ false

module _ (field_maxlen : ℕ) (get_dt_entry : ℕ → Option HeaderField) (h : Helpers)
    (d : IsDocumented h)
    (pulls_some : (start end : ℕ) → (w : ℕ) × (h.pulls start end ≡ some w)) where
  report_flow-SpentTold :
      (fl : Option Flow) (p : Passing)
      → p.conn.flow ≡ fl
      → AllWf fl
      → SpentTold field_maxlen get_dt_entry h d p (report_flow field_maxlen get_dt_entry h fl p)
  report_flow-SpentTold none p e w = SpentTold-same field_maxlen get_dt_entry h d p
  report_flow-SpentTold (some fc) p e w =
      report_spent-SpentTold field_maxlen get_dt_entry h d pulls_some fc p e w.unreported_fits

  -- A message, once its windows are followed.
  abbrev followed : Passing → Passing
  followed p = record p { conn = record p.conn { flow = tracked h p.msg p.conn.flow } }

  Told-both :
      (n : ℕ) (fs : List Frame) (p t q : Passing)
      → AllFrames fs
      → p.msg ≡ encodes fs
      → unreported_of (tracked h p.msg p.conn.flow) ≡ unreported_of p.conn.flow
      → TableTold field_maxlen get_dt_entry h d n (followed p) t
      → SpentTold field_maxlen get_dt_entry h d t q
      → Told p.conn.dirty p.conn.flow
          (render_dt_sync field_maxlen get_dt_entry n [])
          fs
          q.conn
          q.msg
  Told-both n fs p t q w m u a b = record {
    all = b.own ++ (a.own ++ fs);
    msg_eq =
        b.msg_eq
        ∙ rw (a.msg_eq, m, encodes-append b.own (a.own ++ fs), encodes-append a.own fs) refl;
    wf = AllFrames-append b.own (a.own ++ fs) b.wf (AllFrames-append a.own fs a.wf w);
    passes_on =
        rw
          (
            passed_on-append b.own (a.own ++ fs),
            passed_on-append a.own fs,
            b.nothing_on,
            a.nothing_on,
          )
          refl;
    updates =
        rw
          (
            updates_of-append b.own (a.own ++ fs),
            updates_of-append a.own fs,
            b.no_updates,
            a.updates,
          )
          refl;
    counted = omega (
      arith,
      served_of-append b.own (a.own ++ fs),
      served_of-append a.own fs,
      a.silent,
      b.counted,
      ap unreported_of a.flow_kept,
      u,
    );
    clean = b.dirty_kept ∙ a.clean;
  }

  -- The message of an HTTP/2 connection that holds these frames, once handed over: it holds frames
  -- of which the server's codec gets exactly the client's own; if the tables may have drifted apart,
  -- they bring the update with the table as it was before the message, in front of all updates, and
  -- the flag is clear from then on; what they report and what stays unreported add up to what was
  -- unreported. The updates fit the program's buffer, the length is not negative, the count fits 32
  -- bits and no window is beyond the largest; the helpers behave as documented and no pull fails.
  pub hand_over-Told :
      (n : ℕ) (fs : List Frame) (p q : Passing)
      → max_sync_body field_maxlen ≤ max_sync_buf
      → AllFrames fs
      → p.msg ≡ encodes fs
      → AllWf p.conn.flow
      → is_negative p.msg_len ≡ false
      → hand_over field_maxlen get_dt_entry h n p ≡ some q
      → Told p.conn.dirty p.conn.flow
          (render_dt_sync field_maxlen get_dt_entry n [])
          fs
          q.conn
          q.msg
  unfolding hand_over hand_over_spent
  hand_over-Told n fs p q b w m v l =
      elim (Option-cases (hand_over_table field_maxlen get_dt_entry h n (followed p))) [
        | inl e ↦ rw (hand_over, l, e) (λ k. absurd (none-some q k))
        | inr (t, e) ↦
            rw (hand_over, l, e)
              (λ k. rw (← some_eq _ q k) (
                let a =
                  Yields-some (TableTold field_maxlen get_dt_entry h d n (followed p)) _ t
                    (hand_over_table-TableTold field_maxlen get_dt_entry h d n (followed p) b) e in
                Told-both n fs p t _ w m (tracked-AllWf h p.msg p.conn.flow v).1 a (
                  report_flow-SpentTold t.conn.flow t refl
                    (rw a.flow_kept (tracked-AllWf h p.msg p.conn.flow v).0))))
      ]
