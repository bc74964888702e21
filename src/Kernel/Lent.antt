-- ===== src/Kernel/Lent.antt =====
-- About the entries of `conn_dummy` of hyper-fast-path/src/fast_path.bpf.c, and counts of dummies.
use hyper_fast_path.Prelude.{
  ℕ, ◌+◌, ◌≤◌, false, List, [], ◌∷◌, ◌++◌, none, some, some_eq, none-some, ◌≡◌, refl, sym, ap, ◌∙◌,
  ◌==◌, ==_iff, if◌then◌else◌, arith, Bool-cases, inl, inr,
}
use hyper_fast_path.Prelude.Bytes.{Bytes, bytes_eq, bytes_eq_iff}
use hyper_fast_path.Kernel.Lending.{lookup, delete}

-- How often a dummy is in a list, and how often it is lent.
abbrev pub hit : ℕ → ℕ → ℕ
hit i j = if i == j then 1 else 0

abbrev pub count : ℕ → List ℕ → ℕ
count i [] = 0
count i (j ∷ js) = hit i j + count i js

abbrev pub count_lent : ℕ → List (Bytes × ℕ) → ℕ
count_lent i [] = 0
count_lent i ((k, j) ∷ rest) = hit i j + count_lent i rest

pub count-append : (i : ℕ) (xs ys : List ℕ) → count i (xs ++ ys) ≡ count i xs + count i ys
count-append i [] ys = omega arith
count-append i (x ∷ xs) ys = omega (arith, count-append i xs ys)

pub count_lent-delete :
    (i : ℕ) (key : Bytes) (m : List (Bytes × ℕ)) → count_lent i (delete key m) ≤ count_lent i m
unfolding delete
count_lent-delete i key [] = omega arith
count_lent-delete i key ((k, j) ∷ rest) = elim (Bool-cases (bytes_eq key k)) [
  | inl e ↦ rw e (omega (arith, count_lent-delete i key rest))
  | inr e ↦ rw e (omega (arith, count_lent-delete i key rest))
]

pub count_lent-found :
    (i j : ℕ) (key : Bytes) (m : List (Bytes × ℕ))
    → lookup key m ≡ some j
    → count_lent i (delete key m) + hit i j ≤ count_lent i m
unfolding lookup delete
count_lent-found i j key [] = λ l. absurd (none-some j l)
count_lent-found i j key ((k, h) ∷ rest) = elim (Bool-cases (bytes_eq key k)) [
  | inl e ↦ rw e (λ l. rw (← some_eq h j l) (omega (arith, count_lent-delete i key rest)))
  | inr e ↦ rw e (λ l. omega (arith, count_lent-found i j key rest l))
]

pub hit_same : (i : ℕ) → hit i i ≡ 1
hit_same i = rw ((==_iff i i).1 refl) refl

pub found-counts :
    (key : Bytes) (j : ℕ) (m : List (Bytes × ℕ)) → lookup key m ≡ some j → 1 ≤ count_lent j m
found-counts key j m l = omega (arith, hit_same j, count_lent-found j j key m l)

lookup-delete_same : (key : Bytes) (m : List (Bytes × ℕ)) → lookup key (delete key m) ≡ none
unfolding lookup delete
lookup-delete_same key [] = refl
lookup-delete_same key ((k, j) ∷ rest) = elim (Bool-cases (bytes_eq key k)) [
  | inl e ↦ rw e (lookup-delete_same key rest)
  | inr e ↦ rw (e, e) (lookup-delete_same key rest)
]

lookup-delete_other :
    (k key : Bytes) (m : List (Bytes × ℕ))
    → bytes_eq k key ≡ false
    → lookup k (delete key m) ≡ lookup k m
unfolding lookup delete
lookup-delete_other k key [] n = refl
lookup-delete_other k key ((h, j) ∷ rest) n = elim (Bool-cases (bytes_eq key h)) [
  | inl e ↦ rw (e, rw ((bytes_eq_iff key h).0 e) at n) (lookup-delete_other k key rest n)
  | inr e ↦ elim (Bool-cases (bytes_eq k h)) [
    | inl g ↦ rw (e, g) refl
    | inr g ↦ rw (e, g) (lookup-delete_other k key rest n)
  ]
]

-- What is found behind a deletion was there, under another key.
pub lookup-delete :
    (k key : Bytes) (i : ℕ) (m : List (Bytes × ℕ))
    → lookup k (delete key m) ≡ some i
    → (bytes_eq k key ≡ false) × (lookup k m ≡ some i)
lookup-delete k key i m l = elim (Bool-cases (bytes_eq k key)) [
  | inl e ↦ absurd (
      none-some i (
        sym (lookup-delete_same key m)
        ∙ ap (λ z. lookup z (delete key m)) (sym ((bytes_eq_iff k key).0 e))
        ∙ l))
  | inr e ↦ (e, sym (lookup-delete_other k key m e) ∙ l)
]
