-- ===== src/Listener/FrameBytes.antt =====
-- What one whole HTTP/2 frame means to the scanner of hyper-fast-path/src/listener.rs.
use hyper_fast_path.Prelude.{
  ℕ, zero, suc, ◌+◌, ◌/◌, ◌%◌, ◌^◌, ◌≤◌, ◌<◌, List, [], ◌∷◌, ◌++◌, ◌≡◌, refl, ap, ◌∙◌, inl, inr,
  arith, append-nil, append_assoc, length, ◌==◌, if◌then◌else◌, Bool-cases, replicate, ==_iff,
}
use hyper_fast_path.Prelude.Bytes.{Bytes, from_be_bytes}
use hyper_fast_path.Http2.Frame.{Frame, frame_header, encode, encodes}
use hyper_fast_path.Listener.Scanner.{
  State, preface, header, payload, sync, flow, blind, fresh_header,
}
use hyper_fast_path.Listener.Bytewise.{complete, react, react_header}
use hyper_fast_path.Listener.View.{View, apply, consume, consumes, consumes-append}

-- A frame that the scanner takes as what it is: its length fits the header, a report is a 32 bit
-- count, and an update is not implausibly large.
pub record IsFrame (f : Frame) : Type 0 where
  pub len_fits : length f.body < 2 ^ 24
  pub report_len : f.kind ≡ 0xFA → length f.body ≡ 4
  pub update_len : f.kind ≡ 0xFB → length f.body ≤ 65536

abbrev pub AllFrames : List Frame → Type 0
AllFrames [] = Unit {0}
AllFrames (f ∷ fs) = IsFrame f × AllFrames fs

-- What one frame means.
unfoldable pub meant : View → Frame → View
meant v f =
    if f.kind == 0xFA
    then record v { sent = (v.sent + from_be_bytes f.body) % 2 ^ 32 }
    else if f.kind == 0xFB
    then record v { blocks = v.blocks ++ f.body ∷ [] }
    else record v { out = v.out ++ encode f }

unfoldable pub meant_all : View → List Frame → View
meant_all v [] = v
meant_all v (f ∷ fs) = meant_all (meant v f) fs

-- A frame with no payload ends before its successor's first byte.
abbrev settle_in : State → View → View
settle_in (payload zero) v = record v { state = fresh_header }
settle_in (sync block zero) v = record v { state = fresh_header; blocks = v.blocks ++ block ∷ [] }
settle_in _ v = v

abbrev pub settle : View → View
settle v = settle_in v.state v

consume-header :
    (v : View) (c : ℕ)
    → consume (record v { state = fresh_header }) c
      ≡ record v { state = header (c ∷ replicate 8 0) 1 }
unfolding consume react react_header
consume-header v c = rw append-nil

consume-settle_in :
    (st : State) (v : View) (c : ℕ)
    → consume (record v { state = st }) c ≡ consume (settle_in st (record v { state = st })) c
unfolding consume react react_header
consume-settle_in blind v c = refl
consume-settle_in (preface m) v c = refl
consume-settle_in (header b g) v c = refl
consume-settle_in (payload zero) v c = refl
consume-settle_in (payload (suc k)) v c = refl
consume-settle_in (flow b g) v c = refl
consume-settle_in (sync b zero) v c = rw append-nil
consume-settle_in (sync b (suc k)) v c = refl

settle_twice :
    (st : State) (v : View)
    → settle_in st (record v { state = st }) ≡ settle (settle_in st (record v { state = st }))
settle_twice blind v = refl
settle_twice (preface m) v = refl
settle_twice (header b g) v = refl
settle_twice (payload zero) v = refl
settle_twice (payload (suc k)) v = refl
settle_twice (flow b g) v = refl
settle_twice (sync b zero) v = refl
settle_twice (sync b (suc k)) v = refl

consumes-settle : (v : View) (xs : Bytes) → settle (consumes v xs) ≡ settle (consumes (settle v) xs)
unfolding consumes
consumes-settle v [] = settle_twice v.state v
consumes-settle v (c ∷ cs) = ap (λ u. settle (consumes u cs)) (consume-settle_in v.state v c)

complete-any_state :
    (st : State) (v : View) (buf : Bytes) (c : ℕ)
    → apply (record v { state = st }) (complete buf) c ≡ apply v (complete buf) 0
unfolding apply complete
complete-any_state st v buf c = ground arith

consumes-frame_header :
    (v : View) (a b c d e f g h i : ℕ)
    → consumes (record v { state = fresh_header }) (a ∷ b ∷ c ∷ d ∷ e ∷ f ∷ g ∷ h ∷ i ∷ [])
      ≡ apply v (complete (a ∷ b ∷ c ∷ d ∷ e ∷ f ∷ g ∷ h ∷ i ∷ [])) 0
unfolding consumes consume react react_header
consumes-frame_header v a b c d e f g h i = simp append-nil (
    complete-any_state (header (a ∷ b ∷ c ∷ d ∷ e ∷ f ∷ g ∷ h ∷ 0 ∷ []) 8) v
      (a ∷ b ∷ c ∷ d ∷ e ∷ f ∷ g ∷ h ∷ i ∷ []) i)

consume-payload :
    (k c : ℕ) (v : View)
    → consume (record v { state = payload (suc (suc k)) }) c
      ≡ record v { state = payload (suc k); out = v.out ++ c ∷ [] }
unfolding consume react apply
consume-payload k c v = ground arith

consume-sync :
    (block : Bytes) (k c : ℕ) (v : View)
    → consume (record v { state = sync block (suc (suc k)) }) c
      ≡ record v { state = sync (block ++ c ∷ []) (suc k) }
unfolding consume react apply
consume-sync block k c v = ground (arith, append-nil v.out)

-- A body is passed on whole, and ends its frame.
body_passed :
    (xs : Bytes) (v : View)
    → settle (consumes (record v { state = payload (length xs) }) xs)
      ≡ record v { state = fresh_header; out = v.out ++ xs }
unfolding consumes consume react apply
body_passed [] v = rw append-nil
body_passed (c ∷ []) v = refl
body_passed (c ∷ d ∷ cs) v =
    ap (λ u. settle (consumes u (d ∷ cs))) (consume-payload (length cs) c v)
    ∙ body_passed (d ∷ cs) (record v { out = v.out ++ c ∷ [] })
    ∙ rw append_assoc

body_taken :
    (xs block : Bytes) (v : View)
    → settle (consumes (record v { state = sync block (length xs) }) xs)
      ≡ record v { state = fresh_header; blocks = v.blocks ++ (block ++ xs) ∷ [] }
unfolding consumes consume react apply
body_taken [] block v = rw append-nil
body_taken (c ∷ []) block v = refl
body_taken (c ∷ d ∷ cs) block v =
    ap (λ u. settle (consumes u (d ∷ cs))) (consume-sync block (length cs) c v)
    ∙ body_taken (d ∷ cs) (block ++ c ∷ []) v
    ∙ rw append_assoc

body_counted :
    (xs : Bytes) (v : View)
    → length xs ≡ 4
    → consumes (record v { state = flow (replicate 4 0) 0 }) xs
      ≡ record v { state = fresh_header; sent = (v.sent + from_be_bytes xs) % 2 ^ 32 }
unfolding consumes consume react apply
body_counted (a ∷ b ∷ c ∷ d ∷ []) v h = simp append-nil
body_counted [] v h = absurd (omega arith)
body_counted (a ∷ []) v h = absurd (omega arith)
body_counted (a ∷ b ∷ []) v h = absurd (omega arith)
body_counted (a ∷ b ∷ c ∷ []) v h = absurd (omega arith)
body_counted (a ∷ b ∷ c ∷ d ∷ e ∷ xs) v h = absurd (omega arith)

-- The header of a frame leads to its body.
abbrev opened_by : View → Frame → View
opened_by v f =
    if f.kind == 0xFA
    then record v { state = flow (replicate 4 0) 0 }
    else if f.kind == 0xFB
    then record v { state = sync [] (length f.body) }
    else record v {
      state = payload (length f.body);
      out = v.out ++ frame_header (length f.body) f.kind f.flags f.sid;
    }

header_len :
    (n : ℕ)
    → n < 2 ^ 24
    → from_be_bytes (0 ∷ (n / 65536) % 256 ∷ (n / 256) % 256 ∷ n % 256 ∷ []) ≡ n
unfolding from_be_bytes
header_len n h = omega arith

header_opens :
    (v : View) (f : Frame)
    → IsFrame f
    → apply v (complete (frame_header (length f.body) f.kind f.flags f.sid)) 0 ≡ opened_by v f
unfolding apply complete
header_opens v f w = ground (arith, header_len (length f.body) w.len_fits, append-nil v.out)

body_ends :
    (v : View) (f : Frame)
    → IsFrame f
    → settle (consumes (opened_by v f) f.body) ≡ record (meant v f) { state = fresh_header }
unfolding meant
body_ends v f w = elim (Bool-cases (f.kind == 0xFA)) [
  | inl report ↦
      rw report (rw (body_counted f.body v (w.report_len ((==_iff f.kind 0xFA).0 report))))
  | inr other ↦ elim (Bool-cases (f.kind == 0xFB)) [
    | inl taken ↦ rw (other, taken) (body_taken f.body [] v)
    | inr passed ↦
        rw (other, passed)
          (body_passed f.body
              (record v { out = v.out ++ frame_header (length f.body) f.kind f.flags f.sid })
            ∙ rw append_assoc)
  ]
]

-- A frame, from a boundary to the next.
frame-meant :
    (v : View) (f : Frame)
    → IsFrame f
    → settle (consumes (record v { state = fresh_header }) (encode f))
      ≡ record (meant v f) { state = fresh_header }
frame-meant v f w =
    ap settle (
      consumes-append (frame_header (length f.body) f.kind f.flags f.sid)
        (record v { state = fresh_header }) f.body)
    ∙ ap (λ u. settle (consumes u f.body))
        (consumes-frame_header v _ _ _ _ _ _ _ _ _ ∙ header_opens v f w)
    ∙ body_ends v f w

pub frames-meant :
    (fs : List Frame) (v : View)
    → AllFrames fs
    → settle (consumes (record v { state = fresh_header }) (encodes fs))
      ≡ record (meant_all v fs) { state = fresh_header }
unfolding meant_all
frames-meant [] v w = unfold consumes in refl
frames-meant (f ∷ fs) v w =
    ap settle (consumes-append (encode f) (record v { state = fresh_header }) (encodes fs))
    ∙ consumes-settle (consumes (record v { state = fresh_header }) (encode f)) (encodes fs)
    ∙ ap (λ u. settle (consumes u (encodes fs))) (frame-meant v f w.0)
    ∙ frames-meant fs (meant v f) w.1
