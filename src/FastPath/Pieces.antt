-- ===== src/FastPath/Pieces.antt =====
-- The pieces that hyper-fast-path/src/fast_path.rs cuts a body into, and the DATA frames for them.
use hyper_fast_path.Prelude.{
  ℕ, zero, suc, ◌+◌, ◌*◌, ◌≤◌, List, [], ◌∷◌, ◌++◌, ◌≡◌, refl, ap, ◌∙◌, arith, length, take, drop,
  length-append, length-take, length-drop, take-append-drop,
}
use hyper_fast_path.Prelude.Bytes.{Bytes, chunks, chunks_fuel}
use hyper_fast_path.Http2.Frame.{Frame, encode, encodes}
use hyper_fast_path.FastPath.Render.{File, headers, body_chunks, max_frame_size}

-- The pieces one after the other.
abbrev pub joined : List Bytes → Bytes
joined [] = []
joined (c ∷ cs) = c ++ joined cs

abbrev pub NoLonger : ℕ → List Bytes → Type 0
NoLonger n [] = Unit {0}
NoLonger n (c ∷ cs) = (length c ≤ n) × NoLonger n cs

chunks_fuel-joined :
    (fuel n : ℕ) (xs : Bytes) → length xs ≤ fuel → joined (chunks_fuel fuel (suc n) xs) ≡ xs
unfolding chunks_fuel
chunks_fuel-joined fuel n [] h = refl
chunks_fuel-joined zero n (c ∷ cs) h = absurd (omega arith)
chunks_fuel-joined (suc fuel) n (c ∷ cs) h =
    ap (λ r. c ∷ (take n cs ++ r))
      (chunks_fuel-joined fuel n (drop n cs) (omega (arith, length-drop n cs)))
    ∙ ap (◌∷◌ c) (take-append-drop n cs)

chunks_fuel-NoLonger : (fuel n : ℕ) (xs : Bytes) → NoLonger n (chunks_fuel fuel n xs)
unfolding chunks_fuel
chunks_fuel-NoLonger fuel n [] = tt
chunks_fuel-NoLonger zero n (c ∷ cs) = tt
chunks_fuel-NoLonger (suc fuel) n (c ∷ cs) =
    (omega (arith, length-take n (c ∷ cs)), chunks_fuel-NoLonger fuel n (drop n (c ∷ cs)))

-- The DATA frames that carry the pieces; the last one ends the stream.
abbrev pub data_frames : List Bytes → List Frame
data_frames [] = []
data_frames (c ∷ []) = record { kind = 0x00; flags = 0x01; sid = 0; body = c } ∷ []
data_frames (c ∷ d ∷ cs) =
    record { kind = 0x00; flags = 0x00; sid = 0; body = c } ∷ data_frames (d ∷ cs)

abbrev pub headers_frame : File → Bytes → Frame
headers_frame file body = record { kind = 0x01; flags = 0x04; sid = 0; body = headers file body }

abbrev pub response_frames : File → Bytes → List Frame
response_frames file body = headers_frame file body ∷ data_frames (body_chunks body)

-- Where the stream ids stand in frames that begin at `off`.
abbrev pub sid_positions : ℕ → List Frame → List ℕ
sid_positions off [] = []
sid_positions off (f ∷ fs) = (off + 5) ∷ sid_positions (off + length (encode f)) fs

chunks_fuel-length : (fuel n : ℕ) (xs : Bytes) → length (chunks_fuel fuel n xs) ≤ fuel
unfolding chunks_fuel
chunks_fuel-length fuel n [] = omega arith
chunks_fuel-length zero n (c ∷ cs) = omega arith
chunks_fuel-length (suc fuel) n (c ∷ cs) =
    omega (arith, chunks_fuel-length fuel n (drop n (c ∷ cs)))

-- The pieces of a body are the body, none is longer than a DATA frame may be, and there are no
-- more of them than bytes.
pub body_chunks-joined : (body : Bytes) → joined (body_chunks body) ≡ body
unfolding chunks
body_chunks-joined [] = refl
body_chunks-joined (c ∷ cs) = chunks_fuel-joined (length (c ∷ cs)) 16383 (c ∷ cs) (omega arith)

pub body_chunks-NoLonger : (body : Bytes) → NoLonger max_frame_size (body_chunks body)
unfolding chunks
body_chunks-NoLonger [] = (omega arith, tt)
body_chunks-NoLonger (c ∷ cs) = chunks_fuel-NoLonger (length (c ∷ cs)) 16384 (c ∷ cs)

pub body_chunks-length : (body : Bytes) → length (body_chunks body) ≤ suc (length body)
unfolding chunks
body_chunks-length [] = omega arith
body_chunks-length (c ∷ cs) = omega (arith, chunks_fuel-length (length (c ∷ cs)) 16384 (c ∷ cs))

pub length-data_frames :
    (cs : List Bytes) → length (encodes (data_frames cs)) ≡ length (joined cs) + 9 * length cs
length-data_frames [] = refl
length-data_frames (c ∷ []) = omega (arith, length-append c [])
length-data_frames (c ∷ d ∷ cs) = omega (
  arith,
  length-append c (encodes (data_frames (d ∷ cs))),
  length-append c (joined (d ∷ cs)),
  length-data_frames (d ∷ cs),
)

-- The bodies of frames, one after the other.
abbrev pub carried : List Frame → Bytes
carried [] = []
carried (f ∷ fs) = f.body ++ carried fs

-- The last frame ends the stream, and no other does.
abbrev pub EndsLast : List Frame → Type 0
EndsLast [] = ⊥
EndsLast (f ∷ []) = f.flags ≡ 0x01
EndsLast (f ∷ g ∷ fs) = (f.flags ≡ 0x00) × EndsLast (g ∷ fs)

abbrev pub BodiesWithin : ℕ → List Frame → Type 0
BodiesWithin n [] = Unit {0}
BodiesWithin n (f ∷ fs) = (length f.body ≤ n) × BodiesWithin n fs

carried-data_frames : (cs : List Bytes) → carried (data_frames cs) ≡ joined cs
carried-data_frames [] = refl
carried-data_frames (c ∷ []) = refl
carried-data_frames (c ∷ d ∷ cs) = ap (◌++◌ c) (carried-data_frames (d ∷ cs))

data_frames-BodiesWithin :
    (n : ℕ) (cs : List Bytes) → NoLonger n cs → BodiesWithin n (data_frames cs)
data_frames-BodiesWithin n [] h = tt
data_frames-BodiesWithin n (c ∷ []) h = (h.0, tt)
data_frames-BodiesWithin n (c ∷ d ∷ cs) h = (h.0, data_frames-BodiesWithin n (d ∷ cs) h.1)

data_frames-EndsLast : (c : Bytes) (cs : List Bytes) → EndsLast (data_frames (c ∷ cs))
data_frames-EndsLast c [] = refl
data_frames-EndsLast c (d ∷ []) = (refl, refl)
data_frames-EndsLast c (d ∷ e ∷ cs) = (refl, data_frames-EndsLast d (e ∷ cs))

body_chunks-EndsLast : (body : Bytes) → EndsLast (data_frames (body_chunks body))
unfolding chunks chunks_fuel
body_chunks-EndsLast [] = refl
body_chunks-EndsLast (c ∷ cs) = data_frames-EndsLast _ _

-- The DATA frames of a body, an empty one included, carry just that body in order, none of them
-- more than 16384 bytes of it, and the last of them alone ends the stream.
pub data_frames-body_chunks :
    (body : Bytes)
    → (carried (data_frames (body_chunks body)) ≡ body)
      × BodiesWithin 16384 (data_frames (body_chunks body))
      × EndsLast (data_frames (body_chunks body))
data_frames-body_chunks body = (
  carried-data_frames (body_chunks body) ∙ body_chunks-joined body,
  data_frames-BodiesWithin 16384 (body_chunks body) (body_chunks-NoLonger body),
  body_chunks-EndsLast body,
)
