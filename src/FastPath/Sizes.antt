-- ===== src/FastPath/Sizes.antt =====
-- How long what hyper-fast-path/src/fast_path.rs renders can be.
use native.Mathlib.Nat.{pow-suc}
use hyper_fast_path.Prelude.{
  ℕ, zero, suc, ◌+◌, ◌/◌, ◌%◌, ◌^◌, ◌≤◌, ◌<◌, false, [], ◌∷◌, ◌++◌, ◌≡◌, ap, arith, length,
  length-append, ltb, Bool-cases, inl, inr,
}
use hyper_fast_path.Prelude.Bytes.{Bytes, codes}
use hyper_fast_path.Http2.Frame.{encodes}
use hyper_fast_path.FastPath.Render.{
  File, render_body, content_type, hpack_literal, decimal, decimal_onto, headers, body_chunks,
}
use hyper_fast_path.FastPath.Pieces.{
  data_frames, response_frames, body_chunks-joined, body_chunks-length, length-data_frames,
}

-- No more digits than it takes.
length-decimal_onto :
    (k fuel n : ℕ) (rest : Bytes)
    → n < 10 ^ suc k
    → length (decimal_onto fuel n rest) ≤ length rest + suc k
unfolding decimal_onto
length-decimal_onto k zero n rest h = omega arith
length-decimal_onto zero (suc fuel) n rest h = elim (Bool-cases (ltb n 10)) [
  | inl e ↦ rw e (omega arith)
  | inr e ↦ absurd (digits e)
]
  where
    digits : ltb n 10 ≡ false → ⊥
    digits e = ground arith
length-decimal_onto (suc k) (suc fuel) n rest h = elim (Bool-cases (ltb n 10)) [
  | inl e ↦ rw e (omega arith)
  | inr e ↦
      rw e (omega (arith, length-decimal_onto k fuel (n / 10) ((48 + n % 10) ∷ rest) (fewer h)))
]
  where
    fewer : n < 10 ^ suc (suc k) → n / 10 < 10 ^ suc k
    fewer l = let l' = rw pow-suc at l in omega arith

pub length-content_type : (file : File) → length (content_type file) ≤ 24
unfolding content_type
length-content_type file = ground arith

pub length-decimal : (n : ℕ) → n < 2 ^ 28 → length (decimal n) ≤ 9
unfolding decimal
length-decimal n h = length-decimal_onto 8 (suc n) n [] (omega arith)

pub length-headers :
    (file : File) (body : Bytes) → length body < 2 ^ 28 → length (headers file body) ≤ 64
unfolding hpack_literal decimal
length-headers file body h = omega (
  arith,
  length-append (0x88 ∷ hpack_literal 28 (decimal (length body)))
      (hpack_literal 31 (content_type file)),
  length-content_type file,
  length-decimal_onto 8 (suc (length body)) (length body) [],
)

pub length-response_frames :
    (file : File) (body : Bytes)
    → length body < 2 ^ 28
    → length (encodes (response_frames file body)) < 2 ^ 32
length-response_frames file body h = omega (
  arith,
  length-append (headers file body) (encodes (data_frames (body_chunks body))),
  length-headers file body h,
  length-data_frames (body_chunks body),
  body_chunks-length body,
  ap length (body_chunks-joined body),
)

length-append_over : (xs ys : Bytes) (n : ℕ) → n ≤ length ys → n ≤ length (xs ++ ys)
length-append_over xs ys n h = omega (arith, h, length-append xs ys)

-- A response of HTTP/1.1 is at least as long as the file.
pub render_body-length :
    (file : File) (contents : Bytes) → length contents ≤ length (render_body file contents)
unfolding render_body
render_body-length file contents =
    length-append_over (codes "HTTP/1.1 200 OK\r\nContent-Length: ") _ _ (
      length-append_over (decimal (length contents)) _ _ (
        length-append_over (codes "\r\nContent-Type: ") _ _ (
          length-append_over (content_type file) _ _ (
            length-append_over (codes "\r\nConnection: keep-alive\r\n\r\n") contents _
              (omega arith)))))

length-append_within :
    (xs ys : Bytes) (m n : ℕ) → length xs ≤ m → length ys ≤ n → length (xs ++ ys) ≤ m + n
length-append_within xs ys m n h l = omega (arith, h, l, length-append xs ys)

-- The head of a response of HTTP/1.1 is short.
pub length-render_body :
    (file : File) (contents : Bytes)
    → length contents < 2 ^ 28
    → length (render_body file contents) ≤ 40 + (9 + (20 + (24 + (40 + length contents))))
unfolding render_body
length-render_body file contents h =
    length-append_within (codes "HTTP/1.1 200 OK\r\nContent-Length: ") _ 40 _ (omega arith) (
      length-append_within (decimal (length contents)) _ 9 _ (length-decimal (length contents) h) (
        length-append_within (codes "\r\nContent-Type: ") _ 20 _ (omega arith) (
          length-append_within (content_type file) _ 24 _ (length-content_type file) (
            length-append_within (codes "\r\nConnection: keep-alive\r\n\r\n") contents 40
              (length contents) (omega arith) (omega arith)))))
