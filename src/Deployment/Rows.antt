-- ===== src/Deployment/Rows.antt =====
-- What the eBPF program of hyper-fast-path/src/fast_path.bpf.c runs with once `FastPath::attach` of
-- hyper-fast-path/src/fast_path.rs has loaded it, and the rows that its route index leads to.
use hyper_fast_path.Prelude.{
  ℕ, zero, suc, ◌+◌, ◌-◌, ◌≤◌, ◌<◌, List, [], ◌∷◌, ◌++◌, ◌≡◌, refl, ap, arith, Option, none, some,
  some_eq, none-some, Bool, length, length-append, get_elem?, min, replicate, ◌⊎◌, inl, inr,
}
use hyper_fast_path.Prelude.Bytes.{Bytes}
use hyper_fast_path.FastPath.Render.{File}
use hyper_fast_path.FastPath.Attach.{
  PreparedRoute, H2Response, Prepared, Route, ok, prepare, padded, no_route, u32, fill_h2,
  fill_route, fill_routes, index_updates, loaded, max_routes, max_sid_offs,
}
use hyper_fast_path.FastPath.Layout.{h2_bytes, route_bytes, packed, LaidH2, Laid}
use hyper_fast_path.FastPath.Preparation.{prepare-IsPrepared}
use hyper_fast_path.FastPath.Table.{
  Reads, routes-Reads, routes-Laid, row_filled, u32_small, fill_h2_plain,
}
use hyper_fast_path.FastPath.Index.{updated, Known, index_updates-Known}
use hyper_fast_path.FastPath.Provenance.{IsFrom, IsListed, AllFrom-at, prepare-AllFrom}
use hyper_fast_path.Kernel.Message.{Helpers}
use hyper_fast_path.Kernel.Sync.{HeaderField}
use hyper_fast_path.Kernel.Verdict.{Env}
use hyper_fast_path.Kernel.Answering.{row}

-- The program with what was prepared: the arena, the table of the routes and their index.
abbrev pub deployed : Helpers → Bool → (ℕ → Option HeaderField) → ℕ → Prepared → Env
deployed h readable get_dt_entry field_maxlen p = record {
  h = h;
  arena = loaded p;
  routes = fill_routes 0 p.routes (replicate max_routes no_route);
  route_idx = updated (index_updates 0 p.routes) (λ key. none);
  readable = readable;
  get_dt_entry = get_dt_entry;
  field_maxlen = field_maxlen;
}

-- A list around one of its elements.
pub record Parted {ℓ} {A : Type ℓ} (xs : List A) (i : ℕ) (x : A) : Type ℓ where
  pub before : List A
  pub behind : List A
  pub eq : xs ≡ before ++ x ∷ behind
  pub at : length before ≡ i

pub split_at {ℓ} :
    {A : Type ℓ} (xs : List A) (i : ℕ) (x : A) → get_elem? xs i ≡ some x → Parted xs i x
split_at [] i x e = absurd (none-some x e)
split_at (y ∷ xs) zero x e = record {
  before = [];
  behind = xs;
  eq = rw (some_eq y x e) refl;
  at = refl;
}
split_at (y ∷ xs) (suc i) x e =
    let s = split_at xs i x e in
    record { before = y ∷ s.before; behind = s.behind; eq = ap (◌∷◌ y) s.eq; at = ap suc s.at }

-- The part of a response that is flow controlled.
abbrev pub data_len_of : Option H2Response → ℕ
data_len_of none = 0
data_len_of (some h) = h.data_len

fill_h2-data :
    (o : Option H2Response) (q : Route)
    → q.h2_data_len ≡ 0
    → (fill_h2 o q).h2_data_len ≡ u32 (data_len_of o)
unfolding fill_h2
fill_h2-data none q e = e
fill_h2-data (some h) q e = refl

-- How a row as filled is bounded.
pub record IsBounded (q : Route) (r : PreparedRoute) : Type 0 where
  pub plain_low : q.body_off + q.body_len ≤ 14680064
  pub h2_low : q.h2_body_off + q.h2_body_len ≤ 14680064
  pub plain_len : q.body_len ≡ length r.body
  pub h2_len : q.h2_body_len ≡ length (h2_bytes r.h2)
  pub sid_count : q.h2_sid_count ≤ max_sid_offs
  pub h2_data : q.h2_data_len ≡ u32 (data_len_of r.h2)

h2_bounded :
    (o : Option H2Response) (off : ℕ) (q : Route)
    → LaidH2 off o
    → off + length (h2_bytes o) ≤ 14680064
    → q.h2_body_off ≡ 0
    → q.h2_body_len ≡ 0
    → q.h2_sid_count ≡ 0
    → ((fill_h2 o q).h2_body_off + (fill_h2 o q).h2_body_len ≤ 14680064)
      × ((fill_h2 o q).h2_body_len ≡ length (h2_bytes o))
      × ((fill_h2 o q).h2_sid_count ≤ max_sid_offs)
unfolding fill_h2
h2_bounded none off q l b z n c = (omega (arith, z, n), n, omega (arith, c))
h2_bounded (some h) off q (o, _, s) b z n c =
    rw
      (
        o,
        u32_small off (omega (arith, b)),
        u32_small (length h.body) (omega (arith, b)),
        u32_small (length h.sid_offs) (omega (arith, s)),
      )
      (b, refl, s)

fill_route-IsBounded :
    (off : ℕ) (r : PreparedRoute)
    → Laid off (r ∷ [])
    → off + length (route_bytes r) ≤ 14680064
    → IsBounded (fill_route r no_route) r
unfolding fill_route
fill_route-IsBounded off r (o, _, l, _) b =
    let n = rw (length-append r.body (h2_bytes r.h2)) at b in
    let q : Route = record no_route { body_off = u32 r.body_off; body_len = u32 (length r.body) } in
    let f = fill_h2_plain r.h2 q in
    let h = h2_bounded r.h2 (off + length r.body) q l (omega (arith, n)) refl refl refl in
    record {
      plain_low =
          rw
            (
              f.0,
              f.1,
              o,
              u32_small off (omega (arith, n)),
              u32_small (length r.body) (omega (arith, n)),
            )
            (omega (arith, n));
      h2_low = h.0;
      plain_len = rw (f.1, u32_small (length r.body) (omega (arith, n))) refl;
      h2_len = h.1;
      sid_count = h.2;
      h2_data = fill_h2-data r.h2 q refl;
    }

-- A row that a key leads to is that of a prepared route, made from what the configuration lists.
pub record Leads (huffman_encode : Bytes → Bytes) (routes : List (Bytes × File)) (arena : Bytes)
    (q : Route) (key : Bytes) : Type 0 where
  pub route : PreparedRoute
  pub from : IsFrom huffman_encode (IsListed routes) route
  pub known : (key ≡ padded route.plain_key) ⊎ (key ≡ padded route.coded_key)
  pub reads : Reads arena q route
  pub bounded : IsBounded q route

row_at : (idx at : ℕ) → idx ≡ 0 + at → at < max_routes → min idx (max_routes - 1) ≡ at
row_at idx at e l = omega (arith, e, l)

module _ (huffman_encode : Bytes → Bytes) (dummies : ℕ) (routes : List (Bytes × File))
    (p : Prepared) (prepared : prepare huffman_encode dummies routes ≡ ok p) (h : Helpers)
    (readable : Bool) (get_dt_entry : ℕ → Option HeaderField) (field_maxlen : ℕ) where
  abbrev env : Env
  env = deployed h readable get_dt_entry field_maxlen p

  Parted-Leads :
      (key : Bytes) (idx : ℕ) (k : Known 0 p.routes key idx)
      → Parted p.routes k.at k.route
      → Leads huffman_encode routes env.arena (row env idx) key
  Parted-Leads key idx k s =
      let few = rw s.eq at (prepare-IsPrepared huffman_encode dummies routes p prepared).count in
      let at =
        row_at idx k.at k.index_eq
          (omega (arith, few, s.at, length-append s.before (k.route ∷ s.behind))) in
      let l = routes-Laid huffman_encode dummies routes p s.before s.behind k.route prepared s.eq in
      record {
        route = k.route;
        from =
            AllFrom-at huffman_encode (IsListed routes) p.routes k.at k.route
              (prepare-AllFrom huffman_encode dummies routes p prepared) k.found;
        known = k.known;
        reads =
            rw (at, ← s.at)
              (routes-Reads huffman_encode dummies routes p s.before s.behind k.route prepared
                s.eq);
        bounded =
            rw (at, ← s.at, s.eq, row_filled s.before s.behind k.route few)
              (fill_route-IsBounded (length (packed s.before)) k.route l.0 l.1);
      }

  -- The route index leads from a key to the row of a prepared route with that key.
  pub deployed-Leads :
      (key : Bytes) (idx : ℕ)
      → env.route_idx key ≡ some idx
      → Leads huffman_encode routes env.arena (row env idx) key
  deployed-Leads key idx e =
      let v = prepare-IsPrepared huffman_encode dummies routes p prepared in
      elim (index_updates-Known p.routes 0 (λ k. none) key idx (omega (arith, v.count)) e) [
        | inl n ↦ absurd (none-some idx n)
        | inr k ↦ Parted-Leads key idx k (split_at p.routes k.at k.route k.found)
      ]
