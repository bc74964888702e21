-- ===== src/FastPath/Preparation.antt =====
-- What the preparation of hyper-fast-path/src/fast_path.rs, `FastPath::attach`, gives.
use native.Mathlib.Nat.{zero-add, add-suc, suc-add}
use hyper_fast_path.Prelude.{
  ℕ, suc, ◌+◌, ◌≤◌, ◌||◌, ◌&&◌, List, [], ◌∷◌, ◌++◌, ◌≡◌, refl, arith, length, length-append, ltb,
  leb, Bool-cases, inl, inr, Option-cases, ◌==◌,
}
use hyper_fast_path.Prelude.Bytes.{Bytes}
use hyper_fast_path.FastPath.Render.{File, H2Rendering, render_response, render_h2_response}
use hyper_fast_path.FastPath.Attach.{
  PreparedRoute, Prepared, Result, ok, err, ◌>>=◌, lay_out, prepare_route, prepare_routes, prepare,
  max_routes, max_route_path, max_route_body, max_sid_offs, max_dummies,
}
use hyper_fast_path.FastPath.Layout.{IsLaidOut, lay_out-IsLaidOut}

-- What `prepare` gives: routes laid out end to end, as many as the route table holds, whose keys
-- fit those of the route index.
abbrev pub KeysFit : List PreparedRoute → Type 0
KeysFit [] = Unit {0}
KeysFit (p ∷ ps) =
    (length p.plain_key ≤ max_route_path) × (length p.coded_key ≤ max_route_path) × KeysFit ps

KeysFit-concat :
    (ps : List PreparedRoute) (p : PreparedRoute)
    → KeysFit ps
    → KeysFit (p ∷ [])
    → KeysFit (ps ++ p ∷ [])
KeysFit-concat [] p k h = h
KeysFit-concat (q ∷ ps) p (a, b, k) h = (a, b, KeysFit-concat ps p k h)

pub KeysFit-at :
    (qs rs : List PreparedRoute) (r : PreparedRoute)
    → KeysFit (qs ++ r ∷ rs)
    → (length r.plain_key ≤ max_route_path) × (length r.coded_key ≤ max_route_path)
KeysFit-at [] rs r (a, b, k) = (a, b)
KeysFit-at (q ∷ qs) rs r (a, b, k) = KeysFit-at qs rs r k

pub record IsPrepared (n : ℕ) (p : Prepared) : Type 0 where
  pub laid_out : IsLaidOut p
  pub keys : KeysFit p.routes
  pub count : length p.routes ≤ n

IsPrepared-suc : (n : ℕ) (p : Prepared) → IsPrepared n p → IsPrepared (suc n) p
IsPrepared-suc n p v = record {
  laid_out = v.laid_out;
  keys = v.keys;
  count = omega (arith, v.count);
}

lay_out-IsPrepared :
    (plain coded body : Bytes) (r : H2Rendering) (n i : ℕ) (p : Prepared)
    → IsPrepared i p
    → length body ≤ max_route_body
    → length plain ≤ max_route_path
    → length coded ≤ max_route_path
    → IsPrepared (suc i) (lay_out plain coded body (r, n) p)
unfolding lay_out
lay_out-IsPrepared plain coded body r n i p v h a b = record {
  laid_out = lay_out-IsLaidOut plain coded body r n p v.laid_out h;
  keys =
      elim (Bool-cases
        (leb (length r.resp) max_route_body && leb (length r.sid_offs) max_sid_offs)) [
          | inl fits ↦ rw fits (KeysFit-concat p.routes _ v.keys (a, b, tt))
          | inr more ↦ rw more (KeysFit-concat p.routes _ v.keys (a, b, tt))
        ];
  count =
      elim (Bool-cases
        (leb (length r.resp) max_route_body && leb (length r.sid_offs) max_sid_offs)) [
          | inl fits ↦ rw (fits, length-append p.routes) (omega (arith, v.count))
          | inr more ↦ rw (more, length-append p.routes) (omega (arith, v.count))
        ];
}

-- What the result satisfies, if there is one.
abbrev pub Gives : (Prepared → Type 0) → Result Prepared → Type 0
Gives P (ok p) = P p
Gives P (err e) = Unit {0}

pub Gives-bind :
    (P Q : Prepared → Type 0) (r : Result Prepared) (f : Prepared → Result Prepared)
    → Gives P r
    → ((p : Prepared) → P p → Gives Q (f p))
    → Gives Q (r >>= f)
Gives-bind P Q (ok p) f h k = k p h
Gives-bind P Q (err e) f h k = tt

pub Gives-map :
    (P Q : Prepared → Type 0) (r : Result Prepared)
    → Gives P r
    → ((p : Prepared) → P p → Q p)
    → Gives Q r
Gives-map P Q (ok p) h k = k p h
Gives-map P Q (err e) h k = tt

pub Gives-ok :
    (P : Prepared → Type 0) (r : Result Prepared) (p : Prepared) → Gives P r → r ≡ ok p → P p
Gives-ok P r p h e = rw e at h

module _ (huffman_encode : Bytes → Bytes) where
  prepare_route-IsPrepared :
      (path : Bytes) (file : File) (i : ℕ) (p : Prepared)
      → IsPrepared i p
      → Gives (IsPrepared (suc i)) (prepare_route huffman_encode path file p)
  unfolding prepare_route
  prepare_route-IsPrepared path file i p v =
      elim (Bool-cases
        (ltb max_route_path (length path) || ltb max_route_path (length (huffman_encode path)))) [
          | inl long ↦ rw long tt
          | inr short ↦ elim (Option-cases (render_response file)) [
            | inl bad ↦ rw (short, bad) tt
            | inr (body, good) ↦ elim (Bool-cases (ltb max_route_body (length body))) [
              | inl big ↦ rw (short, good, big) (IsPrepared-suc i p v)
              | inr small ↦ elim (Option-cases (render_h2_response file)) [
                | inl none2 ↦ rw (short, good, small, none2) tt
                | inr ((r, n), some2) ↦
                    rw (short, good, small, some2)
                      (lay_out-IsPrepared path (huffman_encode path) body r n i p v
                        (ground (arith, small)) (ground (arith, short)) (ground (arith, short)))
              ]
            ]
          ]
        ]

  prepare_routes-IsPrepared :
      (routes : List (Bytes × File)) (i : ℕ) (p : Prepared)
      → IsPrepared i p
      → Gives (IsPrepared (length routes + i)) (prepare_routes huffman_encode routes p)
  unfolding prepare_routes
  prepare_routes-IsPrepared [] i p v = rw (zero-add) v
  prepare_routes-IsPrepared ((path, file) ∷ rest) i p v =
      Gives-bind (IsPrepared (suc i)) (IsPrepared (length ((path, file) ∷ rest) + i)) _ _
        (prepare_route-IsPrepared path file i p v)
        (λ q w.
          rw (suc-add (length rest) i, ← add-suc (length rest) i)
            (prepare_routes-IsPrepared rest (suc i) q w))

  -- If the preparation succeeds, the routes lie end to end in the arena, each response within the
  -- eBPF program's bounds; there are at most 16 routes, and both keys of each are at most 64 bytes.
  pub prepare-IsPrepared :
      (dummies : ℕ) (routes : List (Bytes × File)) (p : Prepared)
      → prepare huffman_encode dummies routes ≡ ok p
      → IsPrepared max_routes p
  unfolding prepare
  prepare-IsPrepared dummies routes p =
      Gives-ok (IsPrepared max_routes) _ p
        (elim (Bool-cases (dummies == 0 || ltb max_dummies dummies)) [
          | inl bad ↦ rw bad tt
          | inr fine ↦ elim (Bool-cases (ltb max_routes (length routes))) [
            | inl many ↦ rw (fine, many) tt
            | inr few ↦
                rw (fine, few)
                  (Gives-map (IsPrepared (length routes + 0)) (IsPrepared max_routes) _
                    (prepare_routes-IsPrepared routes 0 (record { routes = []; arena_len = 0 })
                      (record {
                        laid_out = record { laid = tt; len = refl; bound = omega arith };
                        keys = tt;
                        count = omega arith;
                      }))
                    (λ q w. record {
                      laid_out = w.laid_out;
                      keys = w.keys;
                      count = ground (arith, w.count, few);
                    }))
          ]
        ])
