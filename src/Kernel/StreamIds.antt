-- ===== src/Kernel/StreamIds.antt =====
-- hyper-fast-path/src/fast_path.bpf.c, lines 136 to 141, 661 to 682 and 826 to 838: the id of the
-- request's stream is written into the frame headers of the rendered response. A message is its
-- bytes. `bpf_msg_pull_data` makes a range of it addressable; whether it manages to is a parameter.
use hyper_fast_path.Prelude.{
  ℕ, ◌+◌, ◌*◌, ◌%◌, ◌≤◌, ◌<◌, Bool, true, List, [], ◌∷◌, ◌++◌, map, Option, none, some, ◌≡◌, refl,
  sym, ap, ◌∙◌, arith, append_assoc, length, length-append, ltb, ltb-false, ◌^◌, if◌then◌else◌,
}
use hyper_fast_path.Prelude.Bytes.{Bytes, to_be_bytes, copy_at, copy_at-append}
use hyper_fast_path.Http2.Frame.{Frame, encode, encodes}
use hyper_fast_path.FastPath.Render.{File, render_h2_body}
use hyper_fast_path.FastPath.Pieces.{sid_positions, response_frames}
use hyper_fast_path.FastPath.Rendering.{render_h2_body-frames}

abbrev pub max_route_body : ℕ
max_route_body = 14 * 32768

-- `write_sid`: `none` is its -1. A pull beyond the message's end fails.
unfoldable pub write_sid : (ℕ → ℕ → Bool) → Bytes → ℕ → ℕ → Option Bytes
write_sid pulls msg off sid =
    let end = (off + 4) % 2 ^ 32 in
    if ltb max_route_body end
    then none
    else if ltb (length msg) end
    then none
    else if pulls off end
    then some (copy_at msg off (to_be_bytes sid))
    else none

-- The loop over a route's offsets, of which the table holds at most `MAX_SID_OFFS`: `none` is the -2 of `serve_route`.
unfoldable pub write_sids : (ℕ → ℕ → Bool) → Bytes → List ℕ → ℕ → Option Bytes
unfolding write_sid
write_sids pulls msg [] sid = some msg
write_sids pulls msg (off ∷ offs) sid = elim (write_sid pulls msg off sid) [
  | none ↦ none
  | some msg' ↦ write_sids pulls msg' offs sid
]

-- The frame on another stream.
abbrev pub on_stream : ℕ → Frame → Frame
on_stream sid f = record f { sid = sid }

copy-header :
    (f : Frame) (rest : Bytes) (sid : ℕ)
    → copy_at (encode f ++ rest) 5 (to_be_bytes sid) ≡ encode (on_stream sid f) ++ rest
unfolding copy_at to_be_bytes
copy-header f rest sid = refl

write_sid-in_range :
    (pulls : ℕ → ℕ → Bool) (msg : Bytes) (off sid : ℕ)
    → ((a b : ℕ) → pulls a b ≡ true)
    → length msg ≤ max_route_body
    → off + 4 ≤ length msg
    → write_sid pulls msg off sid ≡ some (copy_at msg off (to_be_bytes sid))
unfolding write_sid
write_sid-in_range pulls msg off sid p h l = rw (
  no_wrap h l,
  ltb-false max_route_body (off + 4) (omega arith),
  ltb-false (length msg) (off + 4) l,
  p off (off + 4),
)
  where
    no_wrap : length msg ≤ max_route_body → off + 4 ≤ length msg → (off + 4) % 2 ^ 32 ≡ off + 4
    no_wrap m l' = omega arith

write_sid-frame :
    (pulls : ℕ → ℕ → Bool) (pre rest : Bytes) (f : Frame) (sid : ℕ)
    → ((a b : ℕ) → pulls a b ≡ true)
    → length (pre ++ (encode f ++ rest)) ≤ max_route_body
    → write_sid pulls (pre ++ (encode f ++ rest)) (length pre + 5) sid
      ≡ some (pre ++ (encode (on_stream sid f) ++ rest))
write_sid-frame pulls pre rest f sid p h =
    write_sid-in_range pulls _ (length pre + 5) sid p h
      (omega (arith, length-append pre (encode f ++ rest)))
    ∙ ap some (
        copy_at-append (to_be_bytes sid) pre (encode f ++ rest) 5
        ∙ ap (◌++◌ pre) (copy-header f rest sid))

write_sids-frames :
    (pulls : ℕ → ℕ → Bool) (sid : ℕ) (fs : List Frame) (pre : Bytes)
    → ((a b : ℕ) → pulls a b ≡ true)
    → length (pre ++ encodes fs) ≤ max_route_body
    → write_sids pulls (pre ++ encodes fs) (sid_positions (length pre) fs) sid
      ≡ some (pre ++ encodes (map (on_stream sid) fs))
unfolding write_sids
write_sids-frames pulls sid [] pre p h = refl
write_sids-frames pulls sid (f ∷ fs) pre p h =
    rw (write_sid-frame pulls pre (encodes fs) f sid p h, write_sids)
      (ap (λ m. write_sids pulls m (sid_positions (length pre + length (encode f)) fs) sid)
          (sym (append_assoc pre (encode (on_stream sid f)) (encodes fs)))
        ∙ ap
            (λ n.
              write_sids pulls (pre ++ encode (on_stream sid f) ++ encodes fs) (sid_positions n fs)
                sid)
            (sym (length-append pre (encode (on_stream sid f))))
        ∙ write_sids-frames pulls sid fs (pre ++ encode (on_stream sid f)) p
            (omega (arith, h, same))
        ∙ rw append_assoc)
  where
    same :
        length (pre ++ encode (on_stream sid f) ++ encodes fs)
        ≡ length (pre ++ (encode f ++ encodes fs))
    same = omega (
      arith,
      length-append (pre ++ encode (on_stream sid f)) (encodes fs),
      length-append pre (encode (on_stream sid f)),
      length-append pre (encode f ++ encodes fs),
      length-append f.body (encodes fs),
    )

-- For a file below 2 ^ 28 bytes whose HTTP/2 response fits the program's bound, if every pull
-- succeeds: written at the offsets that user space rendered, the id of a stream makes the response
-- the encoding of the same frames, all on that stream.
pub write_sids-render_h2_body :
    (pulls : ℕ → ℕ → Bool) (sid : ℕ) (file : File) (body : Bytes)
    → ((a b : ℕ) → pulls a b ≡ true)
    → length body < 2 ^ 28
    → length (render_h2_body file body).resp ≤ max_route_body
    → write_sids pulls (render_h2_body file body).resp (render_h2_body file body).sid_offs sid
      ≡ some (encodes (map (on_stream sid) (response_frames file body)))
write_sids-render_h2_body pulls sid file body p h =
    rw (render_h2_body-frames file body h)
      (write_sids-frames pulls sid (response_frames file body) [] p)
