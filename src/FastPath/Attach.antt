-- ===== src/FastPath/Attach.antt =====
-- hyper-fast-path/src/fast_path.rs, `FastPath::attach`: the checks of its arguments, the routes
-- prepared and laid out in the arena, and what of them is loaded into the eBPF program: the route
-- table, the arena and the route index. The Huffman encoder is a parameter; the routes come in
-- the order in which the hash map yields them. Opening, loading and attaching the program, the
-- address and the parsers are calls of libraries and are left out.
use hyper_fast_path.Prelude.{
  ℕ, ◌+◌, ◌*◌, ◌/◌, ◌%◌, ◌^◌, ◌||◌, ◌&&◌, List, [], ◌∷◌, ◌++◌, Option, none, some, length,
  replicate, get_or, set, ltb, leb, ◌==◌, if◌then◌else◌,
}
use hyper_fast_path.Prelude.Bytes.{Bytes, copy_at}
use hyper_fast_path.FastPath.Render.{File, H2Rendering, render_response, render_h2_response}

abbrev pub max_routes : ℕ
max_routes = 16

abbrev pub max_route_path : ℕ
max_route_path = 64

abbrev pub max_route_body : ℕ
max_route_body = 14 * 32768

abbrev pub max_sid_offs : ℕ
max_sid_offs = 32

abbrev pub max_dummies : ℕ
max_dummies = 16384

abbrev pub page_size : ℕ
page_size = 4096

pub record H2Response : Type 0 where
  pub body : Bytes
  pub off : ℕ
  pub sid_offs : List ℕ
  pub data_len : ℕ

-- The two keys are the path in plain text and Huffman encoded.
pub record PreparedRoute : Type 0 where
  pub plain_key : Bytes
  pub coded_key : Bytes
  pub body : Bytes
  pub body_off : ℕ
  pub h2 : Option H2Response

pub data AttachError : Type 0 where
  bad_dummies : ℕ → AttachError
  too_many_routes : ℕ → AttachError
  path_too_long : Bytes → AttachError
  unreadable : Bytes → AttachError

pub data Result {ℓ} (A : Type ℓ) : Type ℓ where
  ok : A → Result A
  err : AttachError → Result A

infixl 5 ◌>>=◌
abbrev pub ◌>>=◌ {ℓ κ} : {A : Type ℓ} {B : Type κ} → Result A → (A → Result B) → Result B
ok a >>= f = f a
err e >>= f = err e

abbrev pub or_fail {ℓ} : {A : Type ℓ} → Option A → AttachError → Result A
or_fail none e = err e
or_fail (some a) e = ok a

-- The routes prepared so far, and the bytes of the arena that they take up.
pub record Prepared : Type 0 where
  pub routes : List PreparedRoute
  pub arena_len : ℕ

-- The two renderings of a route, at the next free place of the arena.
unfoldable pub lay_out : Bytes → Bytes → Bytes → H2Rendering × ℕ → Prepared → Prepared
lay_out plain coded body (r, data_len) p =
    if leb (length r.resp) max_route_body && leb (length r.sid_offs) max_sid_offs
    then record {
      routes =
          p.routes
          ++ (record {
            plain_key = plain;
            coded_key = coded;
            body = body;
            body_off = p.arena_len;
            h2 = some (record {
              body = r.resp;
              off = p.arena_len + length body;
              sid_offs = r.sid_offs;
              data_len = data_len;
            });
          })
            ∷ [];
      arena_len = p.arena_len + length body + length r.resp;
    }
    else record {
      routes =
          p.routes
          ++ (record {
            plain_key = plain;
            coded_key = coded;
            body = body;
            body_off = p.arena_len;
            h2 = none;
          })
            ∷ [];
      arena_len = p.arena_len + length body;
    }

module _ (huffman_encode : Bytes → Bytes) where
  -- One turn of the loop over the routes.
  unfoldable pub prepare_route : Bytes → File → Prepared → Result Prepared
  prepare_route path file p =
      if ltb max_route_path (length path) || ltb max_route_path (length (huffman_encode path))
      then err (path_too_long path)
      else do
        body ← or_fail (render_response file) (unreadable path)
        if ltb max_route_body (length body) then ok p else do
          h2 ← or_fail (render_h2_response file) (unreadable path)
          ok (lay_out path (huffman_encode path) body h2 p)

  unfoldable pub prepare_routes : List (Bytes × File) → Prepared → Result Prepared
  prepare_routes [] p = ok p
  prepare_routes ((path, file) ∷ rest) p = do q ← prepare_route path file p; prepare_routes rest q

  -- The checks and the preparation of `attach`.
  unfoldable pub prepare : ℕ → List (Bytes × File) → Result Prepared
  prepare dummies routes =
      if dummies == 0 || ltb max_dummies dummies
      then err (bad_dummies dummies)
      else if ltb max_routes (length routes)
      then err (too_many_routes (length routes))
      else prepare_routes routes (record { routes = []; arena_len = 0 })

-- `struct route` of fast_path.bpf.c, as the `.bss` section holds it: zero at first.
pub record Route : Type 0 where
  pub body_off : ℕ
  pub body_len : ℕ
  pub h2_body_off : ℕ
  pub h2_body_len : ℕ
  pub h2_sid_offs : List ℕ
  pub h2_sid_count : ℕ
  pub h2_data_len : ℕ

abbrev pub no_route : Route
no_route = record {
  body_off = 0;
  body_len = 0;
  h2_body_off = 0;
  h2_body_len = 0;
  h2_sid_offs = replicate max_sid_offs 0;
  h2_sid_count = 0;
  h2_data_len = 0;
}

-- `as u32`.
abbrev pub u32 : ℕ → ℕ
u32 n = n % 2 ^ 32

unfoldable pub fill_h2 : Option H2Response → Route → Route
fill_h2 none r = r
fill_h2 (some h) r = record r {
  h2_body_off = u32 h.off;
  h2_body_len = u32 (length h.body);
  h2_sid_offs = copy_at r.h2_sid_offs 0 h.sid_offs;
  h2_sid_count = u32 (length h.sid_offs);
  h2_data_len = u32 h.data_len;
}

unfoldable pub fill_route : PreparedRoute → Route → Route
unfolding fill_h2
fill_route p r =
    fill_h2 p.h2 (record r { body_off = u32 p.body_off; body_len = u32 (length p.body) })

-- The loop that fills `bss.routes`, from the `i`th route on.
unfoldable pub fill_routes : ℕ → List PreparedRoute → List Route → List Route
fill_routes i [] table = table
fill_routes i (p ∷ ps) table =
    fill_routes (i + 1) ps (set table i (fill_route p (get_or table i no_route)))

-- `arena_len.div_ceil(PAGE_SIZE).max(1)`.
unfoldable pub arena_pages : ℕ → ℕ
arena_pages arena_len = if arena_len == 0 then 1 else (arena_len + 4095) / page_size

unfoldable pub load_h2 : Option H2Response → Bytes → Bytes
load_h2 none arena = arena
load_h2 (some h) arena = copy_at arena h.off h.body

unfoldable pub load_route : PreparedRoute → Bytes → Bytes
unfolding load_h2
load_route p arena = load_h2 p.h2 (copy_at arena p.body_off p.body)

-- The loop that writes the responses into the arena.
unfoldable pub load_arena : List PreparedRoute → Bytes → Bytes
unfolding load_route
load_arena [] arena = arena
load_arena (p ∷ ps) arena = load_arena ps (load_route p arena)

-- The arena as libbpf maps it, all zero, with the responses written.
unfoldable pub loaded : Prepared → Bytes
unfolding load_arena arena_pages
loaded p = load_arena p.routes (replicate (arena_pages p.arena_len * page_size) 0)

-- A key padded with zeros.
unfoldable pub padded : Bytes → Bytes
padded key = copy_at (replicate max_route_path 0) 0 key

-- The updates of `route_idx`, in order: a padded key and the route's index, a byte.
unfoldable pub index_updates : ℕ → List PreparedRoute → List (Bytes × ℕ)
unfolding padded
index_updates i [] = []
index_updates i (p ∷ ps) =
    (padded p.plain_key, i % 256) ∷ (padded p.coded_key, i % 256) ∷ index_updates (i + 1) ps
