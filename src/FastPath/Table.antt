-- ===== src/FastPath/Table.antt =====
-- The route table that hyper-fast-path/src/fast_path.rs, `FastPath::attach`, fills, and what the
-- eBPF program reads of the arena through it.
use native.Mathlib.Nat.{zero-add, add-zero, add_assoc}
use hyper_fast_path.Prelude.{
  ℕ, zero, suc, ◌+◌, ◌≤◌, ◌<◌, List, [], ◌∷◌, ◌++◌, ◌≡◌, refl, ap, ◌∙◌, arith, append_assoc, Option,
  some, none, length, take, drop, set, get_or, replicate, length-append, length-replicate,
  length-set, take-append, drop-append,
}
use hyper_fast_path.Prelude.Bytes.{Bytes}
use hyper_fast_path.FastPath.Render.{File}
use hyper_fast_path.FastPath.Attach.{
  PreparedRoute, H2Response, Prepared, Route, ok, prepare, no_route, u32, fill_h2, fill_route,
  fill_routes, loaded, max_routes, max_sid_offs,
}
use hyper_fast_path.FastPath.Layout.{h2_bytes, route_bytes, packed, LaidH2, Laid}
use hyper_fast_path.FastPath.Preparation.{prepare-IsPrepared}
use hyper_fast_path.Prelude.Bytes.{copy_at-start}
use hyper_fast_path.FastPath.Arena.{loaded-packed}

module _ {ℓ} {A : Type ℓ} where
  get_or-set : (xs : List A) (i : ℕ) (v d : A) → i < length xs → get_or (set xs i v) i d ≡ v
  get_or-set (x ∷ xs) zero v d h = refl
  get_or-set (x ∷ xs) (suc i) v d h = get_or-set xs i v d (omega (arith, h))
  get_or-set [] i v d h = absurd (omega (arith, h))

  get_or-set_other :
      (xs : List A) (i j : ℕ) (v d : A)
      → i < j
      → (get_or (set xs j v) i d ≡ get_or xs i d) × (get_or (set xs i v) j d ≡ get_or xs j d)
  get_or-set_other [] i j v d h = (refl, refl)
  get_or-set_other (x ∷ xs) i zero v d h = absurd (omega (arith, h))
  get_or-set_other (x ∷ xs) zero (suc j) v d h = (refl, refl)
  get_or-set_other (x ∷ xs) (suc i) (suc j) v d h = get_or-set_other xs i j v d (omega (arith, h))

  get_or-replicate : (n i : ℕ) (a : A) → get_or (replicate n a) i a ≡ a
  get_or-replicate zero i a = refl
  get_or-replicate (suc n) zero a = refl
  get_or-replicate (suc n) (suc i) a = get_or-replicate n i a

-- The rows before the `i`th are filled already.
fill_routes_before :
    (ps : List PreparedRoute) (i j : ℕ) (table : List Route)
    → j < i
    → get_or (fill_routes i ps table) j no_route ≡ get_or table j no_route
unfolding fill_routes
fill_routes_before [] i j table h = refl
fill_routes_before (p ∷ ps) i j table h =
    fill_routes_before ps (i + 1) j _ (omega (arith, h))
    ∙ (get_or-set_other table j i (fill_route p (get_or table i no_route)) no_route h).0

row_index : (i n : ℕ) → i + suc n ≡ (i + 1) + n
row_index i n = omega arith

fill_routes_at :
    (qs rs : List PreparedRoute) (r : PreparedRoute) (i : ℕ) (table : List Route)
    → i + length qs < length table
    → get_or (fill_routes i (qs ++ r ∷ rs) table) (i + length qs) no_route
      ≡ fill_route r (get_or table (i + length qs) no_route)
unfolding fill_routes
fill_routes_at [] rs r i table h = rw (add-zero i) (
    fill_routes_before rs (i + 1) i _ (omega arith)
    ∙ get_or-set table i _ no_route (omega (arith, h)))
fill_routes_at (q ∷ qs) rs r i table h =
    let v = fill_route q (get_or table i no_route) in
    rw (row_index i (length qs)) (
      fill_routes_at qs rs r (i + 1) (set table i v) (omega (arith, h, length-set table i v))
      ∙ ap (fill_route r)
          (get_or-set_other table i ((i + 1) + length qs) v no_route (omega arith)).1)

-- `length` bytes from `offset` on.
abbrev pub slice : ℕ → ℕ → Bytes → Bytes
slice offset length buf = take length (drop offset buf)

slice-append : (xs ys zs : Bytes) → slice (length xs) (length ys) (xs ++ (ys ++ zs)) ≡ ys
slice-append xs ys zs = rw (drop-append xs (ys ++ zs)) (take-append ys zs)

-- What the row of a route says of its HTTP/2 response.
abbrev ReadsH2 : Bytes → Route → Option H2Response → Type 0
ReadsH2 arena row none = row.h2_body_len ≡ 0
ReadsH2 arena row (some h) =
    (slice row.h2_body_off row.h2_body_len arena ≡ h.body)
    × (take row.h2_sid_count row.h2_sid_offs ≡ h.sid_offs)

-- A row of the table as the eBPF program uses it: it leads to the route's two responses.
abbrev pub Reads : Bytes → Route → PreparedRoute → Type 0
Reads arena row r = (slice row.body_off row.body_len arena ≡ r.body) × ReadsH2 arena row r.h2

pub u32_small : (n : ℕ) → n ≤ 14680064 → u32 n ≡ n
u32_small n h = omega arith

reads-h2 :
    (o : Option H2Response) (xs ys : Bytes) (row : Route)
    → LaidH2 (length xs) o
    → length xs + length (h2_bytes o) ≤ 14680064
    → row.h2_body_len ≡ 0
    → row.h2_sid_offs ≡ replicate max_sid_offs 0
    → ReadsH2 (xs ++ (h2_bytes o ++ ys)) (fill_h2 o row) o
unfolding fill_h2
reads-h2 none xs ys row l b z zs = z
reads-h2 (some h) xs ys row (o, _, c) b z zs = (
  rw (o, u32_small (length xs) (omega (arith, b)), u32_small (length h.body) (omega (arith, b)))
      (slice-append xs h.body ys),
  rw
      (
        u32_small (length h.sid_offs) (omega (arith, c)),
        zs,
        copy_at-start h.sid_offs (replicate max_sid_offs 0)
            (rw (length-replicate {A = ℕ} max_sid_offs 0) c),
      )
      (take-append h.sid_offs _),
)

packed-append : (ps qs : List PreparedRoute) → packed (ps ++ qs) ≡ packed ps ++ packed qs
packed-append [] qs = refl
packed-append (p ∷ ps) qs = rw (packed-append ps qs, append_assoc (route_bytes p)) refl

Laid-at :
    (qs rs : List PreparedRoute) (r : PreparedRoute) (off : ℕ)
    → Laid off (qs ++ r ∷ rs)
    → Laid (off + length (packed qs)) (r ∷ [])
Laid-at [] rs r off (a, b, c, l) = rw (add-zero off) (a, b, c, tt)
Laid-at (q ∷ qs) rs r off (a, b, c, l) =
    rw (length-append (route_bytes q) (packed qs), ← add_assoc off) (Laid-at qs rs r _ l)

pub fill_h2_plain :
    (o : Option H2Response) (row : Route)
    → ((fill_h2 o row).body_off ≡ row.body_off) × ((fill_h2 o row).body_len ≡ row.body_len)
unfolding fill_h2
fill_h2_plain none row = (refl, refl)
fill_h2_plain (some h) row = (refl, refl)

filled-Reads :
    (xs ys : Bytes) (r : PreparedRoute)
    → Laid (length xs) (r ∷ [])
    → length xs + length (route_bytes r) ≤ 14680064
    → Reads (xs ++ (r.body ++ (h2_bytes r.h2 ++ ys))) (fill_route r no_route) r
unfolding fill_route
filled-Reads xs ys r (o, _, l, _) h = (
  rw
      (
        (fill_h2_plain r.h2 _).0,
        (fill_h2_plain r.h2 _).1,
        o,
        u32_small (length xs) (omega (arith, h)),
        u32_small (length r.body) (omega (arith, h, length-append r.body (h2_bytes r.h2))),
      )
      (slice-append xs r.body (h2_bytes r.h2 ++ ys)),
  rw (append_assoc xs r.body (h2_bytes r.h2 ++ ys)) at (
      reads-h2 r.h2 (xs ++ r.body) ys
        (record no_route { body_off = u32 r.body_off; body_len = u32 (length r.body) })
        (rw (length-append xs r.body) l)
        (omega (arith, h, length-append r.body (h2_bytes r.h2), length-append xs r.body)) refl
        refl),
)

pub row_filled :
    (qs rs : List PreparedRoute) (r : PreparedRoute)
    → length (qs ++ r ∷ rs) ≤ max_routes
    → get_or (fill_routes 0 (qs ++ r ∷ rs) (replicate max_routes no_route)) (length qs) no_route
      ≡ fill_route r no_route
row_filled qs rs r h = rw (zero-add (length qs)) at (
    fill_routes_at qs rs r 0 (replicate max_routes no_route) (
      omega (arith, h, length-append qs (r ∷ rs), length-replicate {A = Route} max_routes no_route))
    ∙ ap (fill_route r) (get_or-replicate max_routes (0 + length qs) no_route))

-- If the preparation succeeds, each prepared route lies where those before it end, in the part of the
-- arena that its table can address.
pub routes-Laid :
    (huffman_encode : Bytes → Bytes) (dummies : ℕ) (routes : List (Bytes × File)) (p : Prepared)
    (qs rs : List PreparedRoute) (r : PreparedRoute)
    → prepare huffman_encode dummies routes ≡ ok p
    → p.routes ≡ qs ++ r ∷ rs
    → Laid (length (packed qs)) (r ∷ []) × (length (packed qs) + length (route_bytes r) ≤ 14680064)
routes-Laid huffman_encode dummies routes p qs rs r e split =
    let v = prepare-IsPrepared huffman_encode dummies routes p e in
    let size =
      rw
        (split, packed-append qs (r ∷ rs), length-append (packed qs), length-append (route_bytes r))
        at v.laid_out.len in
    (
      rw zero-add at (Laid-at qs rs r 0 (rw split at v.laid_out.laid)),
      omega (arith, v.laid_out.bound, v.laid_out.len, v.count, size),
    )

-- If the preparation succeeds, the row of the filled table at the index of a prepared route leads
-- to its HTTP/1.1 response in the loaded arena, byte for byte, and, if it has one, to its HTTP/2
-- response and the offsets of the stream ids; if it has none, the row's length for it is 0.
pub routes-Reads :
    (huffman_encode : Bytes → Bytes) (dummies : ℕ) (routes : List (Bytes × File)) (p : Prepared)
    (qs rs : List PreparedRoute) (r : PreparedRoute)
    → prepare huffman_encode dummies routes ≡ ok p
    → p.routes ≡ qs ++ r ∷ rs
    → Reads
        (loaded p)
        (get_or (fill_routes 0 p.routes (replicate max_routes no_route)) (length qs) no_route)
        r
unfolding fill_route
routes-Reads huffman_encode dummies routes p qs rs r e split =
    let v = prepare-IsPrepared huffman_encode dummies routes p e in
    let l = routes-Laid huffman_encode dummies routes p qs rs r e split in
    rw
      (
        loaded-packed p v.laid_out,
        split,
        row_filled qs rs r (rw split at v.count),
        packed-append qs (r ∷ rs),
        append_assoc (packed qs),
        append_assoc (route_bytes r),
        append_assoc r.body,
      )
      (filled-Reads (packed qs) _ r l.0 l.1)
