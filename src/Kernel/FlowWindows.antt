-- ===== src/Kernel/FlowWindows.antt =====
-- About the windows that hyper-fast-path/src/fast_path.bpf.c follows.
use hyper_fast_path.Prelude.{
  ℕ, zero, suc, ◌+◌, ◌*◌, ◌/◌, ◌%◌, ◌^◌, ◌≤◌, ◌<◌, ◌≡◌, refl, not, ◌||◌, length, min, ltb, ◌==◌,
  arith, Bool-cases, inl, inr, Option-cases,
}
use hyper_fast_path.Prelude.Bytes.{Bytes}
use hyper_fast_path.Kernel.Message.{Helpers}
use hyper_fast_path.Kernel.Flow.{
  h2_max_window, max_settings, h2_setting_len, max_flow_frames, h2_settings_frame,
  h2_window_update_frame, h2_settings_initial_window_size, byte_at, u16_at, u24_at, u32_at,
  open_window, follow_settings, follow_window_update, frame_end, follow_frame, track_flow_frame,
  track_frames, track_flow, Flow,
}

-- No window is beyond the largest, and the count fits 32 bits.
pub record IsWf (fc : Flow) : Type 0 where
  pub conn_fits : fc.conn_window ≤ h2_max_window
  pub stream_fits : fc.stream_window ≤ h2_max_window
  pub unreported_fits : fc.unreported < 2 ^ 32

module _ (count : ℕ) where
  -- No window is beyond the largest, and the count is what it was.
  record IsKept (fc : Flow) : Type 0 where
    conn_fits : fc.conn_window ≤ h2_max_window
    stream_fits : fc.stream_window ≤ h2_max_window
    unreported_kept : fc.unreported ≡ count

  follow_settings-IsKept :
      (msg : Bytes) (off window left i : ℕ) (fc : Flow)
      → IsKept fc
      → IsKept (follow_settings msg off window left i fc)
  unfolding follow_settings
  follow_settings-IsKept msg off window zero i fc w = w
  follow_settings-IsKept msg off window (suc left) i fc w =
      elim (Bool-cases (ltb window (9 + i * h2_setting_len + h2_setting_len))) [
        | inl s ↦ rw s w
        | inr s ↦
            elim (Bool-cases
              (u16_at msg (off + (9 + i * h2_setting_len)) == h2_settings_initial_window_size)) [
                | inr k ↦ rw (s, k) (follow_settings-IsKept msg off window left (suc i) fc w)
                | inl k ↦
                    elim (Bool-cases
                      (ltb h2_max_window (u32_at msg (off + (9 + i * h2_setting_len) + 2)))) [
                        | inl v ↦ rw (s, k, v) w
                        | inr v ↦
                            rw (s, k, v)
                              (follow_settings-IsKept msg off window left (suc i) _ (record {
                                conn_fits = w.conn_fits;
                                stream_fits = ground (arith, v);
                                unreported_kept = w.unreported_kept;
                              }))
                      ]
              ]
      ]

  open_window-fits : (w inc : ℕ) → w ≤ h2_max_window → open_window w inc ≤ h2_max_window
  unfolding open_window
  open_window-fits w inc h = ground arith

  follow_window_update-IsKept :
      (msg : Bytes) (off window sid : ℕ) (fc : Flow)
      → IsKept fc
      → IsKept (follow_window_update msg off window sid fc)
  unfolding follow_window_update
  follow_window_update-IsKept msg off window sid fc w =
      elim (Bool-cases (not (sid == 0) || not (u24_at msg off == 4))) [
        | inl s ↦ rw s w
        | inr s ↦ elim (Bool-cases (ltb window 13)) [
          | inl l ↦ rw (s, l) w
          | inr l ↦
              rw (s, l)
                (record {
                  conn_fits = open_window-fits fc.conn_window _ w.conn_fits;
                  stream_fits = w.stream_fits;
                  unreported_kept = w.unreported_kept;
                })
        ]
      ]

  follow_frame-IsKept :
      (msg : Bytes) (fc : Flow) (off window type flags sid : ℕ)
      → IsKept fc
      → IsKept (follow_frame msg fc off window type flags sid)
  unfolding follow_frame
  follow_frame-IsKept msg fc off window type flags sid w = elim (Bool-cases (ltb window 9)) [
    | inl s ↦ rw s w
    | inr s ↦ elim (Bool-cases (type == h2_window_update_frame)) [
      | inl t ↦ rw (s, t) (follow_window_update-IsKept msg off window sid fc w)
      | inr t ↦ elim (Bool-cases (flags % 2 == 1)) [
        | inl a ↦ rw (s, t, a) w
        | inr a ↦
            rw (s, t, a)
              (follow_settings-IsKept msg off window
                (min (u24_at msg off / h2_setting_len) max_settings) 0 fc w)
      ]
    ]
  ]

  track_flow_frame-IsKept :
      (h : Helpers) (msg : Bytes) (fc : Flow) (off type flags sid : ℕ)
      → IsKept fc
      → IsKept (track_flow_frame h msg fc off type flags sid)
  unfolding track_flow_frame
  track_flow_frame-IsKept h msg fc off type flags sid w =
      elim (Option-cases (h.pulls off (frame_end msg off type))) [
        | inl n ↦ rw (track_flow_frame, n) w
        | inr (window, p) ↦
            rw (track_flow_frame, p) (follow_frame-IsKept msg fc off window type flags sid w)
      ]

  track_frames-IsKept :
      (h : Helpers) (msg : Bytes) (turns off : ℕ) (fc : Flow)
      → IsKept fc
      → IsKept (track_frames h msg turns off fc)
  unfolding track_frames
  track_frames-IsKept h msg zero off fc w = w
  track_frames-IsKept h msg (suc turns) off fc w =
      elim (Bool-cases (ltb (length msg) ((off + 9) % 2 ^ 32))) [
        | inl l ↦ rw l w
        | inr l ↦ elim (Option-cases (h.pulls off ((off + 9) % 2 ^ 32))) [
          | inl n ↦ rw (l, n) w
          | inr (window, p) ↦ elim (Bool-cases (ltb window 9)) [
            | inl s ↦ rw (l, p, s) w
            | inr s ↦
                elim (Bool-cases (
                  byte_at msg (off + 3) == h2_settings_frame
                  || byte_at msg (off + 3) == h2_window_update_frame)) [
                    | inl t ↦
                        rw (l, p, s, t)
                          (track_frames-IsKept h msg turns _ _
                            (track_flow_frame-IsKept h msg fc off _ _ _ w))
                    | inr t ↦ rw (l, p, s, t) (track_frames-IsKept h msg turns _ fc w)
                  ]
          ]
        ]
      ]

track_flow-IsKept :
    (h : Helpers) (msg : Bytes) (fc : Flow) → IsWf fc → IsKept fc.unreported (track_flow h msg fc)
track_flow-IsKept h msg fc w =
    track_frames-IsKept fc.unreported h msg max_flow_frames 0 fc
      (record { conn_fits = w.conn_fits; stream_fits = w.stream_fits; unreported_kept = refl })

-- Whatever a message carries, and whichever pulls fail: following it leaves no window beyond the
-- largest, if none was, and so none with a negative sign, and leaves the count as it was.
pub track_flow-IsWf :
    (h : Helpers) (msg : Bytes) (fc : Flow)
    → IsWf fc
    → IsWf (track_flow h msg fc) × ((track_flow h msg fc).unreported ≡ fc.unreported)
track_flow-IsWf h msg fc w =
    let k = track_flow-IsKept h msg fc w in
    (
      record {
        conn_fits = k.conn_fits;
        stream_fits = k.stream_fits;
        unreported_fits = rw k.unreported_kept w.unreported_fits;
      },
      k.unreported_kept,
    )
