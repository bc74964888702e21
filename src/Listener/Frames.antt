-- ===== src/Listener/Frames.antt =====
-- Streams of whole HTTP/2 frames, as hyper-fast-path/src/listener.rs reads them.
use native.Mathlib.Nat.{zero-add}
use hyper_fast_path.Prelude.{
  ℕ, ◌+◌, ◌%◌, ◌^◌, ◌<◌, true, false, List, [], ◌∷◌, ◌++◌, ◌≡◌, refl, ap, ◌∙◌, inl, inr, arith,
  append-nil, append_assoc, ◌==◌, if◌then◌else◌, Bool-cases, Bool, ◌||◌,
}
use hyper_fast_path.Prelude.Bytes.{Bytes, from_be_bytes}
use hyper_fast_path.Http2.Frame.{Frame, encode, encodes}
use hyper_fast_path.Listener.Scanner.{fresh_header, preface_bytes}
use hyper_fast_path.Listener.Bytewise.{react}
use hyper_fast_path.Listener.View.{View, start, apply, consume, consumes, consumes-append}
use hyper_fast_path.Listener.FrameBytes.{AllFrames, meant, meant_all, settle, frames-meant}

-- The frames that are none of the fast path's own, the bodies of its updates, and the sum of its
-- reports.
abbrev pub is_own : Frame → Bool
is_own f = f.kind == 0xFA || f.kind == 0xFB

abbrev pub passed_on : List Frame → Bytes
passed_on [] = []
passed_on (f ∷ fs) = if is_own f then passed_on fs else encode f ++ passed_on fs

abbrev pub updates_of : List Frame → List Bytes
updates_of [] = []
updates_of (f ∷ fs) = if f.kind == 0xFB then f.body ∷ updates_of fs else updates_of fs

abbrev pub served_of : List Frame → ℕ
served_of [] = 0
served_of (f ∷ fs) = if f.kind == 0xFA then from_be_bytes f.body + served_of fs else served_of fs

-- What a list of frames adds to what was made of the stream before.
abbrev added : View → List Frame → View
added v fs = record v {
  out = v.out ++ passed_on fs;
  blocks = v.blocks ++ updates_of fs;
  sent = (v.sent + served_of fs) % 2 ^ 32;
}

add_wrapped : (a b c : ℕ) → ((a + b) % 2 ^ 32 + c) % 2 ^ 32 ≡ (a + (b + c)) % 2 ^ 32
add_wrapped a b c = omega arith

meant-added : (v : View) (f : Frame) (fs : List Frame) → added (meant v f) fs ≡ added v (f ∷ fs)
unfolding meant
meant-added v f fs = elim (Bool-cases (f.kind == 0xFA)) [
  | inl report ↦ rw (report, other report) (rw add_wrapped)
  | inr other ↦ elim (Bool-cases (f.kind == 0xFB)) [
    | inl taken ↦ rw (other, taken) (rw append_assoc)
    | inr passed ↦ rw (other, passed) (rw append_assoc)
  ]
]
  where
    other : (f.kind == 0xFA) ≡ true → (f.kind == 0xFB) ≡ false
    other e = ground arith

wrapped_zero : (a : ℕ) → a < 2 ^ 32 → a ≡ (a + 0) % 2 ^ 32
wrapped_zero a h = omega arith

meant-sent : (v : View) (f : Frame) → v.sent < 2 ^ 32 → (meant v f).sent < 2 ^ 32
unfolding meant
meant-sent v f h = ground arith

meant_all-added : (fs : List Frame) (v : View) → v.sent < 2 ^ 32 → meant_all v fs ≡ added v fs
unfolding meant_all
meant_all-added [] v h =
    simp append-nil (ap (λ (n : ℕ). record v { sent = n }) (wrapped_zero v.sent h))
meant_all-added (f ∷ fs) v h =
    meant_all-added fs (meant v f) (meant-sent v f h) ∙ meant-added v f fs

abbrev after_preface : View
after_preface = record { state = fresh_header; out = preface_bytes; blocks = []; sent = 0 }

consumes-preface : consumes start preface_bytes ≡ after_preface
unfolding consumes consume react apply
consumes-preface = refl

-- The preface and well formed frames mean: the preface and the frames that are not the fast path's
-- own go on, the updates are the bodies of its updates in order, and the count is the sum of its
-- reports modulo 2 ^ 32. The stream ends at a frame's boundary.
pub consumes-frames :
    (fs : List Frame)
    → AllFrames fs
    → settle (consumes start (preface_bytes ++ encodes fs)) ≡ record {
      state = fresh_header;
      out = preface_bytes ++ passed_on fs;
      blocks = updates_of fs;
      sent = served_of fs % 2 ^ 32;
    }
consumes-frames fs w = rw (← zero-add (served_of fs)) (
    ap settle (consumes-append preface_bytes start (encodes fs))
    ∙ ap (λ u. settle (consumes u (encodes fs))) consumes-preface
    ∙ frames-meant fs after_preface w
    ∙ ap {A = View} {B = View} (λ u. record u { state = fresh_header })
        (meant_all-added fs after_preface (omega arith)))

pub passed_on-append : (fs gs : List Frame) → passed_on (fs ++ gs) ≡ passed_on fs ++ passed_on gs
passed_on-append [] gs = refl
passed_on-append (f ∷ fs) gs = elim (Bool-cases (is_own f)) [
  | inl e ↦ rw e (passed_on-append fs gs)
  | inr e ↦ rw (e, passed_on-append fs gs) (simp append_assoc refl)
]

pub updates_of-append :
    (fs gs : List Frame) → updates_of (fs ++ gs) ≡ updates_of fs ++ updates_of gs
updates_of-append [] gs = refl
updates_of-append (f ∷ fs) gs = elim (Bool-cases (f.kind == 0xFB)) [
  | inl e ↦ rw e (ap (◌∷◌ f.body) (updates_of-append fs gs))
  | inr e ↦ rw e (updates_of-append fs gs)
]

pub served_of-append : (fs gs : List Frame) → served_of (fs ++ gs) ≡ served_of fs + served_of gs
served_of-append [] gs = rw zero-add refl
served_of-append (f ∷ fs) gs = elim (Bool-cases (f.kind == 0xFA)) [
  | inl e ↦ rw e (omega (arith, served_of-append fs gs))
  | inr e ↦ rw e (served_of-append fs gs)
]

pub encodes-append : (fs gs : List Frame) → encodes (fs ++ gs) ≡ encodes fs ++ encodes gs
encodes-append [] gs = refl
encodes-append (f ∷ fs) gs = rw (encodes-append fs gs) (simp append_assoc refl)

pub AllFrames-append : (fs gs : List Frame) → AllFrames fs → AllFrames gs → AllFrames (fs ++ gs)
AllFrames-append [] gs u w = w
AllFrames-append (f ∷ fs) gs u w = (u.0, AllFrames-append fs gs u.1 w)
