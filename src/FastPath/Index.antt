-- ===== src/FastPath/Index.antt =====
-- About the route index that hyper-fast-path/src/fast_path.rs, `FastPath::attach`, fills, a hash map
-- of the kernel in which an update takes the place of an earlier one of the same key.
use hyper_fast_path.Prelude.{
  ℕ, suc, ◌+◌, ◌%◌, ◌≤◌, true, false, List, [], ◌∷◌, ◌++◌, Option, none, some, some_eq, none-some,
  length, get_elem?, if◌then◌else◌, ◌≡◌, refl, arith, Bool-cases, ◌⊎◌, inl, inr,
}
use hyper_fast_path.Prelude.Bytes.{Bytes, bytes_eq, bytes_eq_iff}
use hyper_fast_path.FastPath.Attach.{PreparedRoute, Prepared, ok, prepare, padded, index_updates}
use hyper_fast_path.FastPath.Render.{File}
use hyper_fast_path.FastPath.Preparation.{prepare-IsPrepared}

abbrev put_key : Bytes → ℕ → (Bytes → Option ℕ) → Bytes → Option ℕ
put_key key i m k = if bytes_eq k key then some i else m k

-- A map after updates, in order.
unfoldable pub updated : List (Bytes × ℕ) → (Bytes → Option ℕ) → Bytes → Option ℕ
updated [] m = m
updated ((key, i) ∷ us) m = updated us (put_key key i m)

-- A route among these, numbered from `n` on, that is known under a key.
pub record Known (n : ℕ) (ps : List PreparedRoute) (key : Bytes) (i : ℕ) : Type 0 where
  pub route : PreparedRoute
  pub at : ℕ
  pub index_eq : i ≡ n + at
  pub found : get_elem? ps at ≡ some route
  pub known : (key ≡ padded route.plain_key) ⊎ (key ≡ padded route.coded_key)

Known-next :
    (n : ℕ) (p : PreparedRoute) (ps : List PreparedRoute) (key : Bytes) (i : ℕ)
    → Known (n + 1) ps key i
    → Known n (p ∷ ps) key i
Known-next n p ps key i k = record {
  route = k.route;
  at = suc k.at;
  index_eq = omega (arith, k.index_eq);
  found = k.found;
  known = k.known;
}

pub index_updates-Known :
    (ps : List PreparedRoute) (n : ℕ) (m : Bytes → Option ℕ) (key : Bytes) (i : ℕ)
    → n + length ps ≤ 256
    → updated (index_updates n ps) m key ≡ some i
    → (m key ≡ some i) ⊎ Known n ps key i
unfolding updated index_updates
index_updates-Known [] n m key i l e = inl e
index_updates-Known (p ∷ ps) n m key i l e =
    elim (index_updates-Known ps (n + 1)
      (put_key (padded p.coded_key) (n % 256) (put_key (padded p.plain_key) (n % 256) m)) key i
      (omega (arith, l)) e) [
        | inr k ↦ inr (Known-next n p ps key i k)
        | inl f ↦
            first f (Bool-cases (bytes_eq key (padded p.coded_key)))
              (Bool-cases (bytes_eq key (padded p.plain_key)))
      ]
  where
    here :
        n % 256 ≡ i
        → (key ≡ padded p.plain_key) ⊎ (key ≡ padded p.coded_key)
        → Known n (p ∷ ps) key i
    here s u = record { route = p; at = 0; index_eq = omega (arith, l, s); found = refl; known = u }

    first :
        put_key (padded p.coded_key) (n % 256) (put_key (padded p.plain_key) (n % 256) m) key
          ≡ some i
        → (bytes_eq key (padded p.coded_key) ≡ true) ⊎ (bytes_eq key (padded p.coded_key) ≡ false)
        → (bytes_eq key (padded p.plain_key) ≡ true) ⊎ (bytes_eq key (padded p.plain_key) ≡ false)
        → (m key ≡ some i) ⊎ Known n (p ∷ ps) key i
    first f (inl a) b = inr (here (some_eq _ _ (rw a at f)) (inr ((bytes_eq_iff _ _).0 a)))
    first f (inr a) (inl b) =
        inr (here (some_eq _ _ (rw (a, b) at f)) (inl ((bytes_eq_iff _ _).0 b)))
    first f (inr a) (inr b) = inl (rw (a, b) at f)

put_key-kept :
    (key k : Bytes) (i j : ℕ) (m : Bytes → Option ℕ)
    → m k ≡ some j
    → (h : ℕ) × (put_key key i m k ≡ some h)
put_key-kept key k i j m e = elim (Bool-cases (bytes_eq k key)) [
  | inl b ↦ (i, rw b refl)
  | inr b ↦ (j, rw b e)
]

updated-kept :
    (us : List (Bytes × ℕ)) (m : Bytes → Option ℕ) (k : Bytes) (j : ℕ)
    → m k ≡ some j
    → (h : ℕ) × (updated us m k ≡ some h)
unfolding updated
updated-kept [] m k j e = (j, e)
updated-kept ((key, i) ∷ us) m k j e =
    let next = put_key-kept key k i j m e in updated-kept us (put_key key i m) k next.0 next.1

put_key_same : (key : Bytes) (i : ℕ) (m : Bytes → Option ℕ) → put_key key i m key ≡ some i
put_key_same key i m = rw ((bytes_eq_iff key key).1 refl) refl

index_updates-found :
    (qs rs : List PreparedRoute) (r : PreparedRoute) (n : ℕ) (m : Bytes → Option ℕ) (key : Bytes)
    → (key ≡ padded r.plain_key) ⊎ (key ≡ padded r.coded_key)
    → (i : ℕ) × (updated (index_updates n (qs ++ r ∷ rs)) m key ≡ some i)
unfolding updated index_updates
index_updates-found (q ∷ qs) rs r n m key u = index_updates-found qs rs r (n + 1) _ key u
index_updates-found [] rs r n m key (inl e) = rw e (
    let next =
      put_key-kept (padded r.coded_key) (padded r.plain_key) (n % 256) (n % 256)
        (put_key (padded r.plain_key) (n % 256) m)
        (put_key_same (padded r.plain_key) (n % 256) m) in
    updated-kept (index_updates (n + 1) rs) _ (padded r.plain_key) next.0 next.1)
index_updates-found [] rs r n m key (inr e) = rw e (
    updated-kept (index_updates (n + 1) rs) _ (padded r.coded_key) (n % 256)
      (put_key_same (padded r.coded_key) (n % 256) (put_key (padded r.plain_key) (n % 256) m)))

-- If the preparation succeeds, the route index as filled has an index under each of a prepared
-- route's two keys, padded, and the prepared route at that index is known under the same key.
pub index_updates-Leads :
    (huffman_encode : Bytes → Bytes) (dummies : ℕ) (routes : List (Bytes × File)) (p : Prepared)
    (qs rs : List PreparedRoute) (r : PreparedRoute) (key : Bytes)
    → prepare huffman_encode dummies routes ≡ ok p
    → p.routes ≡ qs ++ r ∷ rs
    → (key ≡ padded r.plain_key) ⊎ (key ≡ padded r.coded_key)
    → (i : ℕ) × (updated (index_updates 0 p.routes) (λ k. none) key ≡ some i)
      × Known 0 p.routes key i
index_updates-Leads huffman_encode dummies routes p qs rs r key e split u =
    let f = index_updates-found qs rs r 0 (λ k. none) key u in
    let g : updated (index_updates 0 p.routes) (λ k. none) key ≡ some f.0 = rw split f.1 in
    (f.0, g, leads f.0 g)
  where
    leads :
        (i : ℕ)
        → updated (index_updates 0 p.routes) (λ k. none) key ≡ some i
        → Known 0 p.routes key i
    leads i g =
        elim (index_updates-Known p.routes 0 (λ k. none) key i
          (omega (arith, (prepare-IsPrepared huffman_encode dummies routes p e).count)) g) [
            | inl n ↦ absurd (none-some i n)
            | inr k ↦ k
          ]
