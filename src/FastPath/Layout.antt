-- ===== src/FastPath/Layout.antt =====
-- Where hyper-fast-path/src/fast_path.rs, `FastPath::attach`, puts the responses in the arena.
use native.Mathlib.Nat.{zero-add, add-zero, add_assoc}
use hyper_fast_path.Prelude.{
  ℕ, ◌+◌, ◌*◌, ◌≤◌, ◌&&◌, List, [], ◌∷◌, ◌++◌, ◌≡◌, refl, arith, append-nil, append_assoc, Option,
  some, none, length, length-append, leb, Bool-cases, inl, inr,
}
use hyper_fast_path.Prelude.Bytes.{Bytes}
use hyper_fast_path.FastPath.Render.{H2Rendering}
use hyper_fast_path.FastPath.Attach.{
  PreparedRoute, H2Response, Prepared, lay_out, max_route_body, max_sid_offs,
}

-- The bytes of a route in the arena.
abbrev pub h2_bytes : Option H2Response → Bytes
h2_bytes none = []
h2_bytes (some h) = h.body

abbrev pub route_bytes : PreparedRoute → Bytes
route_bytes p = p.body ++ h2_bytes p.h2

-- The arena's contents: every response once, in order.
abbrev pub packed : List PreparedRoute → Bytes
packed [] = []
packed (p ∷ ps) = route_bytes p ++ packed ps

abbrev pub LaidH2 : ℕ → Option H2Response → Type 0
LaidH2 off none = Unit {0}
LaidH2 off (some h) =
    (h.off ≡ off) × (length h.body ≤ max_route_body) × (length h.sid_offs ≤ max_sid_offs)

-- The routes lie end to end from `off` on, and each fits the eBPF program's bounds.
abbrev pub Laid : ℕ → List PreparedRoute → Type 0
Laid off [] = Unit {0}
Laid off (p ∷ ps) =
    (p.body_off ≡ off)
    × (length p.body ≤ max_route_body)
    × LaidH2 (off + length p.body) p.h2
    × Laid (off + length (route_bytes p)) ps

Laid-concat :
    (ps : List PreparedRoute) (off : ℕ) (p : PreparedRoute)
    → Laid off ps
    → Laid (off + length (packed ps)) (p ∷ [])
    → Laid off (ps ++ p ∷ [])
Laid-concat [] off p l h = rw (add-zero off) at h
Laid-concat (q ∷ ps) off p (a, b, c, l) h = (
  a,
  b,
  c,
  Laid-concat ps (off + length (route_bytes q)) p l (
      rw
        (
          length-append (route_bytes q) (packed ps),
          ← add_assoc off (length (route_bytes q)) (length (packed ps)),
        )
        at h),
)

packed-concat :
    (ps : List PreparedRoute) (p : PreparedRoute)
    → packed (ps ++ p ∷ []) ≡ packed ps ++ route_bytes p
packed-concat [] p = append-nil (route_bytes p)
packed-concat (q ∷ ps) p = rw (packed-concat ps p, append_assoc (route_bytes q))

-- What holds of the routes prepared so far.
pub record IsLaidOut (p : Prepared) : Type 0 where
  pub laid : Laid 0 p.routes
  pub len : p.arena_len ≡ length (packed p.routes)
  pub bound : p.arena_len ≤ length p.routes * (2 * max_route_body)

IsLaidOut-concat :
    (p : Prepared) (q : PreparedRoute)
    → IsLaidOut p
    → length (h2_bytes q.h2) ≤ max_route_body
    → q.body_off ≡ p.arena_len
    → length q.body ≤ max_route_body
    → LaidH2 (p.arena_len + length q.body) q.h2
    → IsLaidOut
        (record { routes = p.routes ++ q ∷ []; arena_len = p.arena_len + length (route_bytes q) })
IsLaidOut-concat p q v w o b h = record {
  laid = Laid-concat p.routes 0 q v.laid (rw (zero-add, ← v.len) (o, b, h, tt));
  len = rw (packed-concat p.routes q, length-append (packed p.routes), ← v.len) refl;
  bound =
      rw (length-append p.routes (q ∷ []), length-append q.body (h2_bytes q.h2))
        (omega (arith, v.bound, w, b));
}

pub lay_out-IsLaidOut :
    (plain coded body : Bytes) (r : H2Rendering) (n : ℕ) (p : Prepared)
    → IsLaidOut p
    → length body ≤ max_route_body
    → IsLaidOut (lay_out plain coded body (r, n) p)
unfolding lay_out
lay_out-IsLaidOut plain coded body r n p v h =
    elim (Bool-cases (leb (length r.resp) max_route_body && leb (length r.sid_offs) max_sid_offs)) [
      | inl fits ↦ rw fits (
          rw (length-append body r.resp, ← add_assoc p.arena_len) at
            (IsLaidOut-concat p
              (record {
                plain_key = plain;
                coded_key = coded;
                body = body;
                body_off = p.arena_len;
                h2 = some (record {
                  body = r.resp;
                  off = p.arena_len + length body;
                  sid_offs = r.sid_offs;
                  data_len = n;
                });
              })
              v (ground (arith, fits)) refl h (refl, ground (arith, fits), ground (arith, fits))))
      | inr more ↦ rw more (
          rw (append-nil body) at (
            IsLaidOut-concat p
              (record {
                plain_key = plain;
                coded_key = coded;
                body = body;
                body_off = p.arena_len;
                h2 = none;
              })
              v (omega arith) refl h tt))
    ]
