-- ===== src/Kernel/SyncFrames.antt =====
-- About the frames that hyper-fast-path/src/fast_path.bpf.c puts in front of a message, as HTTP/2
-- frames on the wire.
use hyper_fast_path.Prelude.{
  ℕ, ◌+◌, ◌≤◌, true, [], ◌++◌, ◌≡◌, refl, sym, ap, ◌∙◌, arith, Option, some, length, take, drop,
  length-take, length-drop, take-append-drop, ltb, Bool-cases, Option-cases, inl, inr, append_assoc,
}
use hyper_fast_path.Prelude.Bytes.{Bytes, to_be_bytes, copy_at, copy_at-append}
use hyper_fast_path.Http2.Frame.{Frame, frame_header, encode}
use hyper_fast_path.Kernel.Message.{Helpers, IsDocumented, copy_at-over}
use hyper_fast_path.Kernel.Sync.{
  HeaderField, max_sync_body, dt_sync_frame_type, fc_sync_frame_type, fill_dt_sync, render_dt_sync,
  prepend_dt_sync, prepend_fc_sync,
}

-- The report of bytes served out of band, and the update of the decoder's table.
abbrev pub report_frame : ℕ → Frame
report_frame sent = record {
  kind = fc_sync_frame_type;
  flags = 0;
  sid = 0;
  body = to_be_bytes sent;
}

abbrev pub update_frame : Bytes → Frame
update_frame body = record { kind = dt_sync_frame_type; flags = 0; sid = 0; body = body }

copy_at-over_two :
    (a b p q msg : Bytes)
    → length p ≡ length a
    → length q ≡ length b
    → copy_at (copy_at (p ++ q ++ msg) 0 a) (length a) b ≡ a ++ b ++ msg
copy_at-over_two a b p q msg hp hq =
    ap (λ m. copy_at (copy_at m 0 a) (length a) b) (append_assoc p q msg)
    ∙ ap (λ m. copy_at m (length a) b) (copy_at-over a p (q ++ msg) hp)
    ∙ ap (λ i. copy_at (a ++ (q ++ msg)) i b) (here (length a))
    ∙ copy_at-append b a (q ++ msg) 0
    ∙ ap (λ m. a ++ m) (copy_at-over b q msg hq)
    ∙ sym (append_assoc a b msg)
  where
    here : (i : ℕ) → i ≡ i + 0
    here i = omega arith

copy_at-over_both :
    (a b pushed msg : Bytes)
    → length pushed ≡ length a + length b
    → copy_at (copy_at (pushed ++ msg) 0 a) (length a) b ≡ a ++ b ++ msg
copy_at-over_both a b pushed msg h =
    ap (λ m. copy_at (copy_at (m ++ msg) 0 a) (length a) b)
      (sym (take-append-drop (length a) pushed))
    ∙ copy_at-over_two a b (take (length a) pushed) (drop (length a) pushed) msg
        (omega (arith, length-take (length a) pushed))
        (omega (arith, length-drop (length a) pushed))

fill_dt_sync-full :
    (body : Bytes) (window : ℕ) (msg : Bytes)
    → (fill_dt_sync body window msg).0 ≡ true
    → (fill_dt_sync body window msg).1 ≡ copy_at msg 9 body
fill_dt_sync-full body window msg = elim (Bool-cases (ltb window (9 + length body))) [
  | inl n ↦ rw n (λ e. ground arith)
  | inr n ↦ rw n (λ e. refl)
]

-- If the report is put in front of a message, then the message becomes the encoding of a report
-- frame with the count, and what it was. The helpers behave as documented.
pub prepend_fc_sync-encode :
    (h : Helpers) (msg : Bytes) (sent : ℕ)
    → IsDocumented h
    → (prepend_fc_sync h msg sent).0 ≡ true
    → (prepend_fc_sync h msg sent).1 ≡ encode (report_frame sent) ++ msg
unfolding prepend_fc_sync to_be_bytes
prepend_fc_sync-encode h msg sent d = elim (Option-cases (h.pushes 0 13)) [
  | inl n ↦ rw (prepend_fc_sync, n) (λ e. ground arith)
  | inr (room, p) ↦ elim (Option-cases (h.pulls 0 13)) [
    | inl n ↦ rw (prepend_fc_sync, p, n) (λ e. ground arith)
    | inr (window, q) ↦ elim (Bool-cases (ltb window 13)) [
      | inl n ↦ rw (prepend_fc_sync, p, q, n) (λ e. ground arith)
      | inr n ↦
          rw (prepend_fc_sync, p, q, n)
            (λ e.
              copy_at-over (frame_header 4 fc_sync_frame_type 0 0 ++ to_be_bytes sent) room msg
                (d.pushes_all 0 13 room p))
    ]
  ]
]

module _ (field_maxlen : ℕ) (get_dt_entry : ℕ → Option HeaderField) where
  -- What it takes for an update to be put in front of a message.
  pub record Prepends (n : ℕ) (msg m : Bytes) : Type 0 where
    pub body : Bytes
    pub rendered : render_dt_sync field_maxlen get_dt_entry n [] ≡ some body
    pub fits : length body ≤ max_sync_body field_maxlen
    pub encoded : m ≡ encode (update_frame body) ++ msg

  -- If the update is put in front of a message, then the table was rendered within the size of the
  -- buffer, and the message becomes the encoding of an update frame with the rendered table, and
  -- what it was. The helpers behave as documented.
  pub prepend_dt_sync-Prepends :
      (h : Helpers) (msg : Bytes) (n : ℕ)
      → IsDocumented h
      → (prepend_dt_sync field_maxlen get_dt_entry h msg n).0 ≡ true
      → Prepends n msg (prepend_dt_sync field_maxlen get_dt_entry h msg n).1
  unfolding prepend_dt_sync
  prepend_dt_sync-Prepends h msg n d =
      elim (Option-cases (render_dt_sync field_maxlen get_dt_entry n [])) [
        | inl r ↦ rw (prepend_dt_sync, r) (λ e. ground arith)
        | inr (body, r) ↦ elim (Bool-cases (ltb (max_sync_body field_maxlen) (length body))) [
          | inl l ↦ rw (prepend_dt_sync, r, l) (λ e. ground arith)
          | inr l ↦ elim (Option-cases (h.pushes 0 (9 + length body))) [
            | inl p ↦ rw (prepend_dt_sync, r, l, p) (λ e. ground arith)
            | inr (room, p) ↦ elim (Option-cases (h.pulls 0 (9 + length body))) [
              | inl q ↦ rw (prepend_dt_sync, r, l, p, q) (λ e. ground arith)
              | inr (window, q) ↦ elim (Bool-cases (ltb window 9)) [
                | inl w ↦ rw (prepend_dt_sync, r, l, p, q, w) (λ e. ground arith)
                | inr w ↦
                    rw (prepend_dt_sync, r, l, p, q, w)
                      (λ e. record {
                        body = body;
                        rendered = r;
                        fits = ground (arith, l);
                        encoded =
                            fill_dt_sync-full body window _ e
                            ∙ copy_at-over_both (frame_header (length body) dt_sync_frame_type 0 0)
                                body room msg (d.pushes_all 0 (9 + length body) room p);
                      })
              ]
            ]
          ]
        ]
      ]
