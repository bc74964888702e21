-- ===== src/FastPath/Provenance.antt =====
-- Where the routes come from that hyper-fast-path/src/fast_path.rs, `FastPath::attach`, prepares.
use hyper_fast_path.Prelude.{
  false, ℕ, zero, suc, ◌≤◌, ◌||◌, ◌&&◌, List, [], ◌∷◌, ◌++◌, ◌≡◌, refl, arith, length, Option, none,
  some, some_eq, none-some, get_elem?, ltb, leb, Bool-cases, inl, inr, Option-cases, ◌==◌,
}
use hyper_fast_path.Prelude.Bytes.{Bytes}
use hyper_fast_path.FastPath.Render.{
  File, render_body, render_response, render_h2_body, render_h2_response,
}
use hyper_fast_path.FastPath.Attach.{
  PreparedRoute, H2Response, Prepared, ok, lay_out, prepare_route, prepare_routes, prepare,
  max_routes, max_route_path, max_route_body, max_sid_offs, max_dummies,
}
use hyper_fast_path.FastPath.Preparation.{Gives, Gives-bind, Gives-ok}

-- The HTTP/2 response of a route, if it has one, is the rendering of this file and fits; it has none
-- only if that does not fit.
abbrev pub IsRendering : File → Bytes → Option H2Response → Type 0
IsRendering file contents none =
    (leb (length (render_h2_body file contents).resp) max_route_body
      && leb (length (render_h2_body file contents).sid_offs) max_sid_offs)
    ≡ false
IsRendering file contents (some h) =
    (h.body ≡ (render_h2_body file contents).resp)
    × (h.sid_offs ≡ (render_h2_body file contents).sid_offs)
    × (length h.body ≤ max_route_body)
    × (length h.sid_offs ≤ max_sid_offs)
    × (h.data_len ≡ length contents)

module _ (huffman_encode : Bytes → Bytes) (P : Bytes → File → Type 0) where
  -- A route was prepared from a path and a file that satisfy this.
  pub record IsFrom (r : PreparedRoute) : Type 0 where
    pub path : Bytes
    pub file : File
    pub contents : Bytes
    pub listed : P path file
    pub readable : file.contents ≡ some contents
    pub plain : r.plain_key ≡ path
    pub coded : r.coded_key ≡ huffman_encode path
    pub rendered : r.body ≡ render_body file contents
    pub fits : length r.body ≤ max_route_body
    pub h2_rendered : IsRendering file contents r.h2

  abbrev pub AllFrom : List PreparedRoute → Type 0
  AllFrom [] = Unit {0}
  AllFrom (r ∷ rs) = IsFrom r × AllFrom rs

  abbrev pub AllListed : List (Bytes × File) → Type 0
  AllListed [] = Unit {0}
  AllListed ((path, file) ∷ rest) = P path file × AllListed rest

  AllFrom-concat :
      (rs : List PreparedRoute) (r : PreparedRoute) → AllFrom rs → IsFrom r → AllFrom (rs ++ r ∷ [])
  AllFrom-concat [] r a h = (h, tt)
  AllFrom-concat (q ∷ rs) r a h = (a.0, AllFrom-concat rs r a.1 h)

  pub AllFrom-at :
      (rs : List PreparedRoute) (i : ℕ) (r : PreparedRoute)
      → AllFrom rs
      → get_elem? rs i ≡ some r
      → IsFrom r
  AllFrom-at [] i r a e = absurd (none-some r e)
  AllFrom-at (q ∷ rs) zero r a e = rw (← some_eq q r e) (a.0)
  AllFrom-at (q ∷ rs) (suc i) r a e = AllFrom-at rs i r a.1 e

  lay_out-AllFrom :
      (path contents : Bytes) (file : File) (p : Prepared)
      → P path file
      → file.contents ≡ some contents
      → length (render_body file contents) ≤ max_route_body
      → AllFrom p.routes
      → AllFrom
          (lay_out path
            (huffman_encode path)
            (render_body file contents)
            (render_h2_body file contents, length contents)
            p).routes
  unfolding lay_out
  lay_out-AllFrom path contents file p k c l a =
      elim (Bool-cases (
        leb (length (render_h2_body file contents).resp) max_route_body
        && leb (length (render_h2_body file contents).sid_offs) max_sid_offs)) [
          | inl fits ↦ rw fits (
              AllFrom-concat p.routes _ a (record {
                path = path;
                file = file;
                contents = contents;
                listed = k;
                readable = c;
                plain = refl;
                coded = refl;
                rendered = refl;
                fits = l;
                h2_rendered = (refl, refl, ground (arith, fits), ground (arith, fits), refl);
              }))
          | inr more ↦ rw more (
              AllFrom-concat p.routes _ a (record {
                path = path;
                file = file;
                contents = contents;
                listed = k;
                readable = c;
                plain = refl;
                coded = refl;
                rendered = refl;
                fits = l;
                h2_rendered = more;
              }))
        ]

  prepare_route-AllFrom :
      (path : Bytes) (file : File) (p : Prepared)
      → P path file
      → AllFrom p.routes
      → Gives (λ q. AllFrom q.routes) (prepare_route huffman_encode path file p)
  unfolding prepare_route render_response render_h2_response
  prepare_route-AllFrom path file p k a =
      elim (Bool-cases
        (ltb max_route_path (length path) || ltb max_route_path (length (huffman_encode path)))) [
          | inl long ↦ rw long tt
          | inr short ↦ elim (Option-cases file.contents) [
            | inl bad ↦ rw (short, render_response, bad) tt
            | inr (contents, good) ↦
                elim (Bool-cases (ltb max_route_body (length (render_body file contents)))) [
                  | inl big ↦ rw (short, render_response, good, big) a
                  | inr small ↦
                      rw (short, render_response, render_h2_response, good, small)
                        (lay_out-AllFrom path contents file p k good (ground (arith, small)) a)
                ]
          ]
        ]

  prepare_routes-AllFrom :
      (routes : List (Bytes × File)) (p : Prepared)
      → AllListed routes
      → AllFrom p.routes
      → Gives (λ q. AllFrom q.routes) (prepare_routes huffman_encode routes p)
  unfolding prepare_routes
  prepare_routes-AllFrom [] p k a = a
  prepare_routes-AllFrom ((path, file) ∷ rest) p k a =
      Gives-bind (λ q. AllFrom q.routes) (λ q. AllFrom q.routes) _ _
        (prepare_route-AllFrom path file p k.0 a) (λ q b. prepare_routes-AllFrom rest q k.1 b)

-- The routes map this path to this file.
abbrev pub IsListed : List (Bytes × File) → Bytes → File → Type 0
IsListed routes path file = (i : ℕ) × (get_elem? routes i ≡ some (path, file))

IsListed-next :
    (q : Bytes × File) (routes : List (Bytes × File)) (path : Bytes) (file : File)
    → IsListed routes path file
    → IsListed (q ∷ routes) path file
IsListed-next q routes path file (i, e) = (suc i, e)

listed_all :
    (routes : List (Bytes × File)) (huffman_encode : Bytes → Bytes) (P : Bytes → File → Type 0)
    → ((path : Bytes) (file : File) → IsListed routes path file → P path file)
    → AllListed huffman_encode P routes
listed_all [] huffman_encode P k = tt
listed_all ((path, file) ∷ rest) huffman_encode P k = (
  k path file (0, refl),
  listed_all rest huffman_encode P (λ q f l. k q f (IsListed-next (path, file) rest q f l)),
)

-- If the preparation succeeds, each prepared route comes from a path that the configuration lists
-- and from the contents of the file that it maps the path to: its keys are the path and the encoded
-- path, its HTTP/1.1 response is the file's, and so is its HTTP/2 response, which it has if that fits.
pub prepare-AllFrom :
    (huffman_encode : Bytes → Bytes) (dummies : ℕ) (routes : List (Bytes × File)) (p : Prepared)
    → prepare huffman_encode dummies routes ≡ ok p
    → AllFrom huffman_encode (IsListed routes) p.routes
unfolding prepare
prepare-AllFrom huffman_encode dummies routes p =
    Gives-ok (λ q. AllFrom huffman_encode (IsListed routes) q.routes) _ p
      (elim (Bool-cases (dummies == 0 || ltb max_dummies dummies)) [
        | inl bad ↦ rw bad tt
        | inr fine ↦ elim (Bool-cases (ltb max_routes (length routes))) [
          | inl many ↦ rw (fine, many) tt
          | inr few ↦
              rw (fine, few)
                (prepare_routes-AllFrom huffman_encode (IsListed routes) routes
                  (record { routes = []; arena_len = 0 })
                  (listed_all routes huffman_encode (IsListed routes) (λ q f l. l)) tt)
        ]
      ])
