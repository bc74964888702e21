-- ===== src/FastPath/Headers.antt =====
-- The headers that hyper-fast-path/src/fast_path.rs renders, as a client reads them: decimal
-- numbers, and the HPACK representations of RFC 7541, sections 6.1 and 6.2.2, as far as they are used.
use hyper_fast_path.Prelude.{
  ℕ, zero, suc, ◌+◌, ◌-◌, ◌*◌, ◌/◌, ◌%◌, ◌^◌, ◌≤◌, ◌<◌, List, [], ◌∷◌, ◌++◌, ◌≡◌, sym, ap, ◌∙◌,
  arith, append-nil, Option, some, none, length, take, drop, take-append, drop-append,
  length-append, ltb, leb, Bool-cases, inl, inr, ◌==◌, ◌&&◌, if◌then◌else◌,
}
use hyper_fast_path.Prelude.Bytes.{Bytes}
use hyper_fast_path.FastPath.Render.{
  File, content_type, hpack_literal, decimal, decimal_onto, headers,
}
use hyper_fast_path.FastPath.Sizes.{length-decimal, length-content_type}

-- The number that a run of decimal digits stands for, behind the digits `acc`.
abbrev pub parse_onto : ℕ → Bytes → ℕ
parse_onto acc [] = acc
parse_onto acc (d ∷ ds) = parse_onto (acc * 10 + (d - 48)) ds

parse_onto-decimal_onto :
    (fuel n : ℕ) (rest : Bytes)
    → n < fuel
    → parse_onto 0 (decimal_onto fuel n rest) ≡ parse_onto n rest
unfolding decimal_onto
parse_onto-decimal_onto zero n rest h = elim h [ ]
parse_onto-decimal_onto (suc fuel) n rest h = elim (Bool-cases (ltb n 10)) [
  | inl e ↦ rw e (ap (λ m. parse_onto m rest) (omega arith))
  | inr e ↦ rw e (
      parse_onto-decimal_onto fuel (n / 10) ((48 + n % 10) ∷ rest) (ground arith)
      ∙ ap (λ m. parse_onto m rest) (omega arith))
]

-- Reading back the digits of a number gives the number.
pub parse_onto-decimal : (n : ℕ) → parse_onto 0 (decimal n) ≡ n
unfolding decimal
parse_onto-decimal n = parse_onto-decimal_onto (suc n) n [] (omega arith)

-- A field of a header block: an entry of the static table, or a value under the name of one.
pub data Field : Type 0 where
  indexed : ℕ → Field
  literal : ℕ → Bytes → Field

-- A literal field without indexing whose name has an index of 15 or more, behind its first byte.
abbrev read_literal : Bytes → Option (Field × Bytes)
read_literal (n ∷ len ∷ rest) =
    if ltb n 128 && ltb len 127 && leb len (length rest)
    then some (literal (15 + n) (take len rest), drop len rest)
    else none
read_literal _ = none

abbrev pub read_field : Bytes → Option (Field × Bytes)
read_field [] = none
read_field (b ∷ rest) =
    if leb 128 b
    then some (indexed (b - 128), rest)
    else if b == 0x0F
    then read_literal rest
    else none

abbrev consed : Field → Option (List Field) → Option (List Field)
consed f none = none
consed f (some fs) = some (f ∷ fs)

-- The fields of a block, of at most `n`.
abbrev pub read_fields : ℕ → Bytes → Option (List Field)
read_fields n [] = some []
read_fields zero (b ∷ bs) = none
read_fields (suc n) (b ∷ bs) = elim (read_field (b ∷ bs)) [
  | none ↦ none
  | some (f, rest) ↦ consed f (read_fields n rest)
]

-- A literal is read back as its name's index and its value, whatever follows it.
read_field-hpack_literal :
    (idx : ℕ) (value rest : Bytes)
    → 15 ≤ idx
    → idx < 128
    → length value < 127
    → read_field (hpack_literal idx value ++ rest) ≡ some (literal idx value, rest)
unfolding hpack_literal
read_field-hpack_literal idx value rest lo hi h =
    rw (no_wrap h, take-append value rest, drop-append value rest)
      (ground (arith, length-append value rest))
  where
    no_wrap : length value < 127 → length value % 256 ≡ length value
    no_wrap l = omega arith

read_fields-step :
    (n : ℕ) (xs : Bytes) {f : Field} {rest : Bytes}
    → read_field xs ≡ some (f, rest)
    → read_fields (suc n) xs ≡ consed f (read_fields n rest)
read_fields-step n [] e = cc
read_fields-step n (b ∷ bs) e = rw (e, read_fields) (ground arith)

-- A client reads the header block of the HTTP/2 response of a file below 2 ^ 28 bytes as three
-- fields: status 200, the length of the body in decimal, which reads back as that number, and
-- the content type, which is the one of the HTTP/1.1 response.
pub read_fields-headers :
    (file : File) (body : Bytes)
    → length body < 2 ^ 28
    → (read_fields 3 (headers file body)
        ≡ some
            (indexed 8 ∷ literal 28 (decimal (length body)) ∷ literal 31 (content_type file) ∷ []))
      × (parse_onto 0 (decimal (length body)) ≡ length body)
read_fields-headers file body h = (
  ap (consed (indexed 8)) (
      read_fields-step 1
        (hpack_literal 28 (decimal (length body)) ++ hpack_literal 31 (content_type file))
        (read_field-hpack_literal 28 (decimal (length body)) (hpack_literal 31 (content_type file))
          (omega arith) (omega arith) (omega (arith, length-decimal (length body) h)))
      ∙ ap (consed (literal 28 (decimal (length body))))
          (read_fields-step 0 (hpack_literal 31 (content_type file)) last)),
  parse_onto-decimal (length body),
)
  where
    last :
        read_field (hpack_literal 31 (content_type file))
        ≡ some (literal 31 (content_type file), [])
    last =
        ap read_field (sym (append-nil (hpack_literal 31 (content_type file))))
        ∙ read_field-hpack_literal 31 (content_type file) [] (omega arith) (omega arith)
            (omega (arith, length-content_type file))
