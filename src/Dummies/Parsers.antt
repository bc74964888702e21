-- ===== src/Dummies/Parsers.antt =====
-- hyper-fast-path/src/dummies.rs, `find_dynamic_table_info`: the links, programs and maps that the
-- kernel lists are parameters.
use hyper_fast_path.Prelude.{
  ℕ, zero, suc, Bool, true, false, ◌||◌, List, [], ◌∷◌, Option, none, some, some_eq, none-some, ◌≡◌,
  refl, ◌==◌, ==_iff, get_elem?, if◌then◌else◌, arith, Bool-cases, ◌⊎◌, inl, inr,
}
use hyper_fast_path.Prelude.Bytes.{Bytes, codes, bytes_eq}

-- What a link of the kernel is: an extension program linked to a target, or anything else.
pub data LinkInfo : Type 0 where
  tracing : ℕ → ℕ → LinkInfo
  other_link : LinkInfo

pub record ProgInfo : Type 0 where
  pub id : ℕ
  pub map_ids : List ℕ

-- The map that was found, that there is none, or the error of a call.
pub data Lookup : Type 0 where
  found : ℕ → Lookup
  not_found os_fails : Lookup

-- `DYNAMIC_TABLE_INFO`.
abbrev pub dynamic_table_info : Bytes
dynamic_table_info = codes "dynamic_table_i"

-- The programs linked to `target`.
unfoldable pub parsers : ℕ → List LinkInfo → List ℕ
parsers target [] = []
parsers target (other_link ∷ links) = parsers target links
parsers target (tracing target_obj prog ∷ links) =
    let rest = parsers target links in if target_obj == target then prog ∷ rest else rest

unfoldable pub contains : List ℕ → ℕ → Bool
contains [] id = false
contains (x ∷ xs) id = x == id || contains xs id

-- The loop over a program's maps: the first that has the name, or what comes after the loop.
unfoldable pub find_map : (ℕ → Option Bytes) → List ℕ → Lookup → Lookup
find_map name_of [] after = after
find_map name_of (id ∷ ids) after =
    let rest = find_map name_of ids after in
    elim (name_of id) [
      | none ↦ os_fails
      | some name ↦ if bytes_eq name dynamic_table_info then found id else rest
    ]

-- The loop over the programs.
unfoldable pub find_prog : (ℕ → Option Bytes) → List ℕ → List ProgInfo → Lookup
find_prog name_of ids [] = not_found
find_prog name_of ids (prog ∷ progs) =
    let rest = find_prog name_of ids progs in
    if contains ids prog.id then find_map name_of prog.map_ids rest else rest

-- `find_dynamic_table_info`, on the id of the program it is told, if the kernel gives it, and on what
-- the names of the maps are.
unfoldable pub find_dynamic_table_info :
    Option ℕ → List LinkInfo → List ProgInfo → (ℕ → Option Bytes) → Lookup
find_dynamic_table_info none links progs name_of = os_fails
find_dynamic_table_info (some target) links progs name_of =
    find_prog name_of (parsers target links) progs

-- An element of a list.
abbrev pub Among {ℓ} : {A : Type ℓ} → A → List A → Type ℓ
Among x xs = (i : ℕ) × (get_elem? xs i ≡ some x)

pub Among-next {ℓ} : {A : Type ℓ} (x y : A) (xs : List A) → Among x xs → Among x (y ∷ xs)
Among-next x y xs (i, e) = (suc i, e)

pub Among-cases {ℓ} : {A : Type ℓ} (x y : A) (xs : List A) → Among x (y ∷ xs) → (y ≡ x) ⊎ Among x xs
Among-cases x y xs (zero, e) = inl (some_eq y x e)
Among-cases x y xs (suc i, e) = inr (i, e)

other-tracing : (t p : ℕ) → other_link ≡ tracing t p → ⊥
other-tracing t p e = cc

tracing_eq : (t p u q : ℕ) → tracing t p ≡ tracing u q → (t ≡ u) × (p ≡ q)
tracing_eq t p u q e = (cc, cc)

pub parsers-linked :
    (target : ℕ) (links : List LinkInfo) (prog : ℕ)
    → contains (parsers target links) prog ≡ true
    → Among (tracing target prog) links
unfolding parsers contains
parsers-linked target [] prog e = absurd (ground (arith, e))
parsers-linked target (other_link ∷ links) prog e =
    Among-next _ _ _ (parsers-linked target links prog e)
parsers-linked target (tracing t p ∷ links) prog e = elim (Bool-cases (t == target)) [
  | inr n ↦ Among-next _ _ _ (parsers-linked target links prog (rw n at e))
  | inl y ↦ elim (Bool-cases (p == prog)) [
    | inl z ↦ (0, rw ((==_iff t target).0 y, (==_iff p prog).0 z) refl)
    | inr z ↦ Among-next _ _ _ (parsers-linked target links prog (rw (y, z) at e))
  ]
]

pub linked-parsers :
    (target : ℕ) (links : List LinkInfo) (prog : ℕ)
    → Among (tracing target prog) links
    → contains (parsers target links) prog ≡ true
unfolding parsers contains
linked-parsers target [] prog (i, e) = absurd (none-some _ e)
linked-parsers target (other_link ∷ links) prog a = elim (Among-cases _ _ _ a) [
  | inl e ↦ absurd (other-tracing target prog e)
  | inr b ↦ linked-parsers target links prog b
]
linked-parsers target (tracing t p ∷ links) prog a = elim (Among-cases _ _ _ a) [
  | inl e ↦
      let k = tracing_eq t p target prog e in
      rw ((==_iff t target).1 k.0, (==_iff p prog).1 k.1) refl
  | inr b ↦ elim (Bool-cases (t == target)) [
    | inr n ↦ rw n (linked-parsers target links prog b)
    | inl y ↦ rw (y, linked-parsers target links prog b) (ground arith)
  ]
]
