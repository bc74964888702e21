-- ===== src/FastPath/Order.antt =====
-- About the order of the calls of hyper-fast-path/src/fast_path.rs, `FastPath::attach`.
use hyper_fast_path.Prelude.{
  ℕ, Bool, true, false, List, [], ◌∷◌, ◌++◌, ◌≡◌, refl, sym, if◌then◌else◌, Bool-cases, inl, inr,
}
use hyper_fast_path.Prelude.Bytes.{Bytes}
use hyper_fast_path.FastPath.Loading.{
  LoadCall, open_skel, index, attach_msg_verdict, attach_skb_verdict, open_pool, attach_sockops,
  index_calls,
}

abbrev pub is_msg_verdict : LoadCall → Bool
is_msg_verdict attach_msg_verdict = true
is_msg_verdict _ = false

abbrev pub is_skb_verdict : LoadCall → Bool
is_skb_verdict attach_skb_verdict = true
is_skb_verdict _ = false

abbrev pub is_index : LoadCall → Bool
is_index (index key i) = true
is_index _ = false

abbrev pub is_pool : LoadCall → Bool
is_pool (open_pool n) = true
is_pool _ = false

abbrev pub is_sockops : LoadCall → Bool
is_sockops attach_sockops = true
is_sockops _ = false

-- No call of the second kind comes before one of the first.
abbrev pub waits : (LoadCall → Bool) → (LoadCall → Bool) → List LoadCall → Bool
waits earlier later [] = true
waits earlier later (c ∷ cs) =
    if later c then false else (if earlier c then true else waits earlier later cs)

-- A call of the kind comes last, if it comes at all.
abbrev pub ends : (LoadCall → Bool) → List LoadCall → Bool
ends kind [] = true
ends kind (c ∷ []) = true
ends kind (c ∷ d ∷ cs) = if kind c then false else ends kind (d ∷ cs)

abbrev pub has : (LoadCall → Bool) → List LoadCall → Bool
has kind [] = false
has kind (c ∷ cs) = if kind c then true else has kind cs

pub waits-prefix :
    (earlier later : LoadCall → Bool) (xs ys : List LoadCall)
    → waits earlier later (xs ++ ys) ≡ true
    → waits earlier later xs ≡ true
waits-prefix earlier later [] ys e = refl
waits-prefix earlier later (x ∷ xs) ys e = elim (Bool-cases (later x)) [
  | inl a ↦ rw a (rw a at e)
  | inr a ↦ elim (Bool-cases (earlier x)) [
    | inl b ↦ rw (a, b) refl
    | inr b ↦ rw (a, b) (waits-prefix earlier later xs ys (rw (a, b) at e))
  ]
]

pub ends-prefix :
    (kind : LoadCall → Bool) (xs ys : List LoadCall) (c : LoadCall)
    → ends kind (xs ++ c ∷ ys) ≡ true
    → has kind xs ≡ false
ends-prefix kind [] ys c e = refl
ends-prefix kind (x ∷ []) ys c e = elim (Bool-cases (kind x)) [
  | inl a ↦ rw a (sym (rw a at e))
  | inr a ↦ rw a refl
]
ends-prefix kind (x ∷ y ∷ xs) ys c e = elim (Bool-cases (kind x)) [
  | inl a ↦ rw a (sym (rw a at e))
  | inr a ↦ rw a (ends-prefix kind (y ∷ xs) ys c (rw a at e))
]

pub none_ends :
    (kind : LoadCall → Bool) (xs : List LoadCall) → has kind xs ≡ false → ends kind xs ≡ true
none_ends kind [] e = refl
none_ends kind (x ∷ []) e = refl
none_ends kind (x ∷ y ∷ xs) e = elim (Bool-cases (kind x)) [
  | inl a ↦ rw a (sym (rw a at e))
  | inr a ↦ rw a (none_ends kind (y ∷ xs) (rw a at e))
]

pub opened_ends :
    (xs : List LoadCall) → ends is_sockops xs ≡ true → ends is_sockops (open_skel ∷ xs) ≡ true
opened_ends [] e = refl
opened_ends (x ∷ xs) e = e

-- The updates of the route index are of neither kind.
pub index_waits :
    (earlier later : LoadCall → Bool) (us : List (Bytes × ℕ)) (rest : List LoadCall)
    → ((key : Bytes) (i : ℕ) → earlier (index key i) ≡ false)
    → ((key : Bytes) (i : ℕ) → later (index key i) ≡ false)
    → waits earlier later rest ≡ true
    → waits earlier later (index_calls us ++ rest) ≡ true
unfolding index_calls
index_waits earlier later [] rest a b e = e
index_waits earlier later ((key, i) ∷ us) rest a b e =
    rw (b key i, a key i) (index_waits earlier later us rest a b e)

pub index_ends :
    (kind : LoadCall → Bool) (us : List (Bytes × ℕ)) (rest : List LoadCall) (c : LoadCall)
    → ((key : Bytes) (i : ℕ) → kind (index key i) ≡ false)
    → ((d : LoadCall) → kind d ≡ false → ends kind (d ∷ rest) ≡ true)
    → kind c ≡ false
    → ends kind (c ∷ (index_calls us ++ rest)) ≡ true
unfolding index_calls
index_ends kind [] rest c a e n = e c n
index_ends kind ((key, i) ∷ us) rest c a e n =
    rw n (index_ends kind us rest (index key i) a e (a key i))

pub has-append :
    (kind : LoadCall → Bool) (xs ys : List LoadCall)
    → has kind ys ≡ true
    → has kind (xs ++ ys) ≡ true
has-append kind [] ys e = e
has-append kind (x ∷ xs) ys e = elim (Bool-cases (kind x)) [
  | inl a ↦ rw a refl
  | inr a ↦ rw a (has-append kind xs ys e)
]
