-- ===== src/Kernel/Forwarding.antt =====
-- About the messages that hyper-fast-path/src/fast_path.bpf.c hands to user space, as user space
-- reads them.
use native.Mathlib.Nat.{zero-add}
use hyper_fast_path.Prelude.{
  ℕ, ◌+◌, ◌-◌, ◌^◌, ◌≤◌, ◌<◌, Bool, true, false, ◌||◌, List, [], ◌∷◌, ◌++◌, Option, none, some,
  length, ltb, ltb-false, ◌==◌, ◌≡◌, refl, ◌∙◌, arith, Bool-cases, Option-cases, inl, inr,
  append-nil, Yields,
}
use hyper_fast_path.Prelude.Bytes.{Bytes, from_be_bytes, to_be_bytes}
use hyper_fast_path.Http2.Frame.{Frame, encodes}
use hyper_fast_path.Listener.FrameBytes.{AllFrames}
use hyper_fast_path.Listener.Frames.{passed_on, updates_of, served_of}
use hyper_fast_path.Kernel.Message.{Helpers, IsDocumented}
use hyper_fast_path.Kernel.Flow.{Flow, is_negative}
use hyper_fast_path.Kernel.Sync.{
  HeaderField, max_sync_buf, max_sync_body, render_dt_sync, prepend_dt_sync, prepend_fc_sync,
}
use hyper_fast_path.Kernel.SyncFrames.{
  Prepends, report_frame, update_frame, prepend_fc_sync-encode, prepend_dt_sync-Prepends,
}
use hyper_fast_path.Kernel.HandOver.{Passing, hand_over_table, report_spent}

from_be_bytes-to_be_bytes : (n : ℕ) → n < 2 ^ 32 → from_be_bytes (to_be_bytes n) ≡ n
unfolding from_be_bytes to_be_bytes
from_be_bytes-to_be_bytes n h = omega arith

abbrev pub unreported_of : Option Flow → ℕ
unreported_of none = 0
unreported_of (some fc) = fc.unreported

-- The update that a connection is owed: none if its flag for tables that drifted apart is clear.
abbrev pub owed : Bool → Option Bytes → List Bytes
owed false body = []
owed true none = []
owed true (some b) = b ∷ []

module _ (field_maxlen : ℕ) (get_dt_entry : ℕ → Option HeaderField) (h : Helpers)
    (d : IsDocumented h) where
  -- The table was handed over, if it was owed.
  pub record TableTold (n : ℕ) (p q : Passing) : Type 0 where
    pub own : List Frame
    pub msg_eq : q.msg ≡ encodes own ++ p.msg
    pub wf : AllFrames own
    pub nothing_on : passed_on own ≡ []
    pub updates : updates_of own ≡ owed p.conn.dirty (render_dt_sync field_maxlen get_dt_entry n [])
    pub silent : served_of own ≡ 0
    pub clean : q.conn.dirty ≡ false
    pub flow_kept : q.conn.flow ≡ p.conn.flow

  pub hand_over_table-TableTold :
      (n : ℕ) (p : Passing)
      → max_sync_body field_maxlen ≤ max_sync_buf
      → Yields (TableTold n p) (hand_over_table field_maxlen get_dt_entry h n p)
  unfolding hand_over_table
  hand_over_table-TableTold n p m = elim (Bool-cases p.conn.dirty) [
    | inr e ↦
        rw (hand_over_table, e)
          (record {
            own = [];
            msg_eq = refl;
            wf = tt;
            nothing_on = refl;
            updates = refl;
            silent = refl;
            clean = refl;
            flow_kept = refl;
          })
    | inl e ↦ elim (Bool-cases (prepend_dt_sync field_maxlen get_dt_entry h p.msg n).0) [
      | inr f ↦ rw (hand_over_table, e, f) tt
      | inl f ↦
          rw (hand_over_table, e, f)
            (let u : Prepends field_maxlen get_dt_entry n p.msg
                  (prepend_dt_sync field_maxlen get_dt_entry h p.msg n).1 =
                prepend_dt_sync-Prepends field_maxlen get_dt_entry h p.msg n d f in
              record {
                own = update_frame u.body ∷ [];
                msg_eq = u.encoded ∙ simp append-nil refl;
                wf = (
                  record {
                    len_fits = omega (arith, u.fits, m);
                    report_len = λ k. absurd (omega (arith, k));
                    update_len = λ k. omega (arith, u.fits, m);
                  },
                  tt,
                );
                nothing_on = refl;
                updates = rw u.rendered refl;
                silent = refl;
                clean = refl;
                flow_kept = refl;
              })
    ]
  ]

  -- What was spent was reported, as far as it could be.
  pub record SpentTold (p q : Passing) : Type 0 where
    pub own : List Frame
    pub msg_eq : q.msg ≡ encodes own ++ p.msg
    pub wf : AllFrames own
    pub nothing_on : passed_on own ≡ []
    pub no_updates : updates_of own ≡ []
    pub counted : served_of own + unreported_of q.conn.flow ≡ unreported_of p.conn.flow
    pub dirty_kept : q.conn.dirty ≡ p.conn.dirty

  pub SpentTold-same : (p : Passing) → SpentTold p p
  SpentTold-same p = record {
    own = [];
    msg_eq = refl;
    wf = tt;
    nothing_on = refl;
    no_updates = refl;
    counted = zero-add (unreported_of p.conn.flow);
    dirty_kept = refl;
  }

  module _ (pulls_some : (start end : ℕ) → (w : ℕ) × (h.pulls start end ≡ some w)) where
    -- If no pull fails, a report that is not put in front of a message leaves the message alone.
    prepend_fc_sync-untouched :
        (msg : Bytes) (sent : ℕ)
        → (prepend_fc_sync h msg sent).0 ≡ false
        → (prepend_fc_sync h msg sent).1 ≡ msg
    unfolding prepend_fc_sync
    prepend_fc_sync-untouched msg sent = elim (Option-cases (h.pushes 0 13)) [
      | inl n ↦ rw (prepend_fc_sync, n) (λ e. refl)
      | inr (room, n) ↦
          let pull = pulls_some 0 13 in
          rw (prepend_fc_sync, n, pull.1, wide pull.0 (d.pulls_all 0 13 pull.0 pull.1))
            (λ e. absurd (ground arith))
    ]
      where
        wide : (w : ℕ) → 13 - 0 ≤ w → ltb w 13 ≡ false
        wide w l = ltb-false w 13 (omega (arith, l))

    pub report_spent-SpentTold :
        (fc : Flow) (p : Passing)
        → p.conn.flow ≡ some fc
        → fc.unreported < 2 ^ 32
        → SpentTold p (report_spent field_maxlen get_dt_entry h fc p)
    unfolding report_spent to_be_bytes
    report_spent-SpentTold fc p k l =
        elim (Bool-cases (is_negative p.msg_len || fc.unreported == 0)) [
          | inl e ↦ rw e (SpentTold-same p)
          | inr e ↦ elim (Bool-cases (prepend_fc_sync h p.msg fc.unreported).0) [
            | inr f ↦ rw (e, f, prepend_fc_sync-untouched p.msg fc.unreported f) (SpentTold-same p)
            | inl f ↦
                rw (e, f)
                  (record {
                    own = report_frame fc.unreported ∷ [];
                    msg_eq = prepend_fc_sync-encode h p.msg fc.unreported d f;
                    wf = (
                      record {
                        len_fits = omega (arith, four);
                        report_len = λ u. four;
                        update_len = λ u. absurd (omega (arith, u));
                      },
                      tt,
                    );
                    nothing_on = refl;
                    no_updates = refl;
                    counted = rw (k, from_be_bytes-to_be_bytes fc.unreported l) (omega arith);
                    dirty_kept = refl;
                  })
          ]
        ]
      where
        four : length (to_be_bytes fc.unreported) ≡ 4
        four = refl
