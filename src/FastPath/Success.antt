-- ===== src/FastPath/Success.antt =====
-- When the preparation of hyper-fast-path/src/fast_path.rs, `FastPath::attach`, succeeds.
use hyper_fast_path.Prelude.{
  ℕ, ◌≤◌, ◌<◌, false, ◌||◌, ◌&&◌, List, [], ◌∷◌, ◌++◌, ◌≡◌, refl, sym, ap, ◌∙◌, arith, append_assoc,
  append-nil, Option, none, some, length, ltb, leb, ◌==◌, Bool-cases, inl, inr,
}
use hyper_fast_path.Prelude.Bytes.{Bytes}
use hyper_fast_path.FastPath.Provenance.{IsFrom}
use hyper_fast_path.FastPath.Render.{
  File, H2Rendering, render_body, render_response, render_h2_response, render_h2_body,
}
use hyper_fast_path.FastPath.Attach.{
  PreparedRoute, Prepared, ok, lay_out, prepare_route, prepare_routes, prepare, max_routes,
  max_route_path, max_route_body, max_sid_offs, max_dummies,
}

render_response-some :
    (file : File) (contents : Bytes)
    → file.contents ≡ some contents
    → render_response file ≡ some (render_body file contents)
unfolding render_response
render_response-some file contents e =
    ap {B = Option Bytes}
      (λ (o : Option Bytes). elim o [ none ↦ none | some body ↦ some (render_body file body) ]) e

render_h2_response-some :
    (file : File) (contents : Bytes)
    → file.contents ≡ some contents
    → render_h2_response file ≡ some (render_h2_body file contents, length contents)
unfolding render_h2_response
render_h2_response-some file contents e =
    ap {B = Option (H2Rendering × ℕ)}
      (λ (o : Option Bytes). elim o [
        | none ↦ none
        | some body ↦ some (render_h2_body file body, length body)
      ])
      e

module _ (huffman_encode : Bytes → Bytes) where
  -- A route that can be prepared, and is not left to the server.
  pub record IsUsable (path : Bytes) (file : File) : Type 0 where
    pub plain_fits : length path ≤ max_route_path
    pub coded_fits : length (huffman_encode path) ≤ max_route_path
    pub contents : Bytes
    pub readable : file.contents ≡ some contents
    pub body_fits : length (render_body file contents) ≤ max_route_body

  abbrev pub AllUsable : List (Bytes × File) → Type 0
  AllUsable [] = Unit {0}
  AllUsable ((path, file) ∷ rest) = IsUsable path file × AllUsable rest

  -- A route that was prepared from this path and this file.
  abbrev pub IsMade : Bytes → File → PreparedRoute → Type 0
  IsMade path file = IsFrom huffman_encode (λ q g. (q ≡ path) × (g ≡ file))

  -- One route for each that is listed, in order.
  abbrev pub AllMade : List (Bytes × File) → List PreparedRoute → Type 0
  AllMade [] [] = Unit {0}
  AllMade ((path, file) ∷ rest) (r ∷ rs) = IsMade path file r × AllMade rest rs
  AllMade _ _ = ⊥

  lay_out-IsMade :
      (path contents : Bytes) (file : File) (p : Prepared)
      → file.contents ≡ some contents
      → length (render_body file contents) ≤ max_route_body
      → (r : PreparedRoute) × ((lay_out path
            (huffman_encode path)
            (render_body file contents)
            (render_h2_body file contents, length contents)
            p).routes
          ≡ p.routes ++ r ∷ [])
        × IsMade path file r
  unfolding lay_out
  lay_out-IsMade path contents file p c l =
      elim (Bool-cases (
        leb (length (render_h2_body file contents).resp) max_route_body
        && leb (length (render_h2_body file contents).sid_offs) max_sid_offs)) [
          | inl fits ↦ rw fits (
            _,
            refl,
            record {
              path = path;
              file = file;
              contents = contents;
              listed = (refl, refl);
              readable = c;
              plain = refl;
              coded = refl;
              rendered = refl;
              fits = l;
              h2_rendered = (refl, refl, ground (arith, fits), ground (arith, fits), refl);
            },
          )
          | inr more ↦ rw more (
            _,
            refl,
            record {
              path = path;
              file = file;
              contents = contents;
              listed = (refl, refl);
              readable = c;
              plain = refl;
              coded = refl;
              rendered = refl;
              fits = l;
              h2_rendered = more;
            },
          )
        ]

  prepare_route-ok :
      (path : Bytes) (file : File) (p : Prepared)
      → IsUsable path file
      → (q : Prepared) × (prepare_route huffman_encode path file p ≡ ok q)
        × (r : PreparedRoute) × (q.routes ≡ p.routes ++ r ∷ [])
        × IsMade path file r
  unfolding prepare_route
  prepare_route-ok path file p u =
      let short : (ltb max_route_path (length path)
            || ltb max_route_path (length (huffman_encode path)))
          ≡ false =
        ground (arith, u.plain_fits, u.coded_fits) in
      let small : ltb max_route_body (length (render_body file u.contents)) ≡ false =
        ground (arith, u.body_fits) in
      let (r, k, made) = lay_out-IsMade path u.contents file p u.readable u.body_fits in
      (
        lay_out path (huffman_encode path) (render_body file u.contents)
            (render_h2_body file u.contents, length u.contents) p,
        rw
            (
              short,
              render_response-some file u.contents u.readable,
              render_h2_response-some file u.contents u.readable,
              small,
            )
            refl,
        r,
        k,
        made,
      )

  prepare_routes-ok :
      (routes : List (Bytes × File)) (p : Prepared)
      → AllUsable routes
      → (q : Prepared) × (prepare_routes huffman_encode routes p ≡ ok q)
        × (rs : List PreparedRoute) × (q.routes ≡ p.routes ++ rs)
        × AllMade routes rs
  unfolding prepare_routes
  prepare_routes-ok [] p u = (p, refl, [], sym (append-nil p.routes), tt)
  prepare_routes-ok ((path, file) ∷ rest) p u =
      let (q, e, r, k, made) = prepare_route-ok path file p u.0 in
      let (t, f, rs, l, others) = prepare_routes-ok rest q u.1 in
      (
        t,
        rw e f,
        r ∷ rs,
        l ∙ ap (λ x. x ++ rs) k ∙ append_assoc p.routes (r ∷ []) rs,
        (made, others),
      )

  AllMade-as :
      (routes : List (Bytes × File)) (qs rs : List PreparedRoute)
      → qs ≡ rs
      → AllMade routes rs
      → AllMade routes qs
  AllMade-as routes qs rs e a = rw e a

  -- With 1 to 16384 dummies and at most 16 routes, each with both of its keys within 64 bytes and a
  -- file that can be read and whose HTTP/1.1 response is in bounds, the preparation succeeds, and there
  -- is one prepared route for each that is listed, in order, made from its path and its file.
  pub prepare-ok :
      (dummies : ℕ) (routes : List (Bytes × File))
      → 0 < dummies
      → dummies ≤ max_dummies
      → length routes ≤ max_routes
      → AllUsable routes
      → (p : Prepared) × (prepare huffman_encode dummies routes ≡ ok p) × AllMade routes p.routes
  unfolding prepare
  prepare-ok dummies routes n d l u =
      let some_few : (dummies == 0 || ltb max_dummies dummies) ≡ false = ground (arith, n, d) in
      let few : ltb max_routes (length routes) ≡ false = ground (arith, l) in
      let (p, e, rs, k, made) =
        prepare_routes-ok routes (record { routes = []; arena_len = 0 }) u in
      (p, rw (some_few, few) e, AllMade-as routes p.routes rs k made)
