-- ===== src/Listener/Opening.antt =====
-- The connection preface, in the scanner of hyper-fast-path/src/listener.rs: runs of its bytes,
-- against the same bytes one by one.
use native.Mathlib.Nat.{add-zero}
use hyper_fast_path.Prelude.{
  ℕ, zero, suc, ◌+◌, ◌≤◌, ◌<◌, true, false, [], ◌∷◌, ◌++◌, ◌≡◌, ◌⊎◌, inl, inr, refl, ap, ◌∙◌, arith,
  append_assoc, length, take, drop, get_or, ◌==◌, if◌then◌else◌,
}
use hyper_fast_path.Prelude.Bytes.{Bytes, bytes_eq}
use hyper_fast_path.Listener.Scanner.{State, preface, blind, Scanner, fresh_header, preface_bytes}
use hyper_fast_path.Listener.Bytewise.{react, feed, feeds}
use hyper_fast_path.Listener.Bulk.{IsFree, at, feeds-blind, feeds-cons}

drop-get_or : (m : ℕ) (xs : Bytes) → m < length xs → drop m xs ≡ get_or xs m 0 ∷ drop (suc m) xs
drop-get_or m [] h = elim h [ ]
drop-get_or zero (x ∷ xs) h = refl
drop-get_or (suc m) (x ∷ xs) h = drop-get_or m xs (omega arith)

-- The bytes that the preface has after the first `m`, as many as `xs` has.
abbrev pub expected : ℕ → Bytes → Bytes
expected m xs = take (length xs) (drop m preface_bytes)

expected-cons :
    (m c : ℕ) (xs : Bytes)
    → m < 24
    → expected m (c ∷ xs) ≡ get_or preface_bytes m 0 ∷ expected (suc m) xs
expected-cons m c xs h = rw (drop-get_or m preface_bytes h)

bytes_eq-cons :
    (c d : ℕ) (xs ys : Bytes)
    → bytes_eq (c ∷ xs) (d ∷ ys) ≡ false
    → ((c == d) ≡ false) ⊎ (((c == d) ≡ true) × (bytes_eq xs ys ≡ false))
unfolding bytes_eq
bytes_eq-cons c d xs ys h = ground arith

abbrev pub after_preface : ℕ → State
after_preface n = if n == 24 then fresh_header else preface n

feed-preface :
    (m c : ℕ) (s : Scanner)
    → IsFree s
    → (c == get_or preface_bytes m 0) ≡ true
    → feed (record s { state = preface m }) c ≡ at s (after_preface (suc m)) (c ∷ [])
unfolding feed react
feed-preface m c s p e = rw (p, e)

feed-preface_ne :
    (m c : ℕ) (s : Scanner)
    → IsFree s
    → (c == get_or preface_bytes m 0) ≡ false
    → feed (record s { state = preface m }) c ≡ at s blind (c ∷ [])
unfolding feed react
feed-preface_ne m c s p e = rw (p, e)

after_preface-lt : (n : ℕ) → n < 24 → after_preface n ≡ preface n
after_preface-lt n h = ground arith

pub at-at : (s : Scanner) (a b : State) (xs ys : Bytes) → at (at s a xs) b ys ≡ at s b (xs ++ ys)
at-at s a b xs ys = rw append_assoc

bytes_eq-cons_true :
    (c d : ℕ) (xs ys : Bytes)
    → bytes_eq (c ∷ xs) (d ∷ ys) ≡ true
    → ((c == d) ≡ true) × (bytes_eq xs ys ≡ true)
unfolding bytes_eq
bytes_eq-cons_true c d xs ys h = ground arith

pub feeds-preface :
    (xs : Bytes) (c m : ℕ) (s : Scanner)
    → IsFree s
    → m + suc (length xs) ≤ 24
    → bytes_eq (c ∷ xs) (expected m (c ∷ xs)) ≡ true
    → feeds (record s { state = preface m }) (c ∷ xs)
      ≡ at s (after_preface (suc (m + length xs))) (c ∷ xs)
feeds-preface [] c m s p h e =
    let e' = bytes_eq-cons_true c _ [] _ (rw (expected-cons m c [] (omega arith)) at e) in
    feeds-cons _ _ c [] (feed-preface m c s p e'.0) ∙ rw add-zero (unfold feeds in refl)
feeds-preface (d ∷ xs) c m s p h e =
    let e' =
      bytes_eq-cons_true c _ (d ∷ xs) _ (rw (expected-cons m c (d ∷ xs) (omega arith)) at e) in
    feeds-cons _ _ c (d ∷ xs) (feed-preface m c s p e'.0)
    ∙ ap (λ st. feeds (at s st (c ∷ [])) (d ∷ xs)) (after_preface-lt (suc m) (omega arith))
    ∙ (feeds-preface xs d (suc m) (at s (preface (suc m)) (c ∷ [])) p (omega arith) e'.1)
    ∙ at-at s (preface (suc m)) _ (c ∷ []) (d ∷ xs)
    ∙ ap (λ n. at s (after_preface (suc n)) (c ∷ d ∷ xs)) (omega arith)

pub feeds-preface_ne :
    (xs : Bytes) (c m : ℕ) (s : Scanner)
    → IsFree s
    → m + suc (length xs) ≤ 24
    → bytes_eq (c ∷ xs) (expected m (c ∷ xs)) ≡ false
    → feeds (record s { state = preface m }) (c ∷ xs) ≡ at s blind (c ∷ xs)
feeds-preface_ne [] c m s p h e =
    elim (bytes_eq-cons c _ [] _ (rw (expected-cons m c [] (omega arith)) at e)) [
      | inl miss ↦ feeds-cons _ _ c [] (feed-preface_ne m c s p miss) ∙ unfold feeds in refl
      | inr (hit, miss) ↦ unfold bytes_eq in cc
    ]
feeds-preface_ne (d ∷ xs) c m s p h e =
    elim (bytes_eq-cons c _ (d ∷ xs) _ (rw (expected-cons m c (d ∷ xs) (omega arith)) at e)) [
      | inl miss ↦
          feeds-cons _ _ c (d ∷ xs) (feed-preface_ne m c s p miss)
          ∙ feeds-blind (d ∷ xs) (at s blind (c ∷ [])) p
          ∙ at-at s blind blind (c ∷ []) (d ∷ xs)
      | inr (hit, miss) ↦
          feeds-cons _ _ c (d ∷ xs) (feed-preface m c s p hit)
          ∙ ap (λ st. feeds (at s st (c ∷ [])) (d ∷ xs)) (after_preface-lt (suc m) (omega arith))
          ∙ feeds-preface_ne xs d (suc m) (at s (preface (suc m)) (c ∷ [])) p (omega arith) miss
          ∙ at-at s (preface (suc m)) blind (c ∷ []) (d ∷ xs)
    ]
