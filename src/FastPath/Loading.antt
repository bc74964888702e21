-- ===== src/FastPath/Loading.antt =====
-- hyper-fast-path/src/fast_path.rs, `FastPath::attach`, past the preparation: the calls that open, size,
-- load and attach the eBPF program, in order. Which of them fail is a parameter, and so is what
-- `to_socket_addrs` gives. Panics are `unwrap`s of maps that the program has, and are left out.
use hyper_fast_path.Prelude.{
  ℕ, ◌+◌, ◌*◌, Bool, List, [], ◌∷◌, ◌++◌, Option, none, some, replicate, if◌then◌else◌,
}
use hyper_fast_path.Prelude.Bytes.{Bytes}
use hyper_fast_path.FastPath.Render.{File}
use hyper_fast_path.FastPath.Attach.{
  Prepared, Route, ok, err, AttachError, prepare, arena_pages, fill_routes, no_route, max_routes,
  loaded, index_updates, u32,
}
use hyper_fast_path.Dummies.Pool.{SocketAddr, v4, v6}

-- What a parser is told to match or to capture.
pub data Capture : Type 0 where
  h1_preface h1_path h1_content_length h2_path h2_content_length : Capture

pub data MapName : Type 0 where
  dummy_map free_dummies conn_dummy dummy_idx dummy_owners released_dummies : MapName

-- The program as it is loaded: the server's address and port, and the route table.
pub record Image : Type 0 where
  pub ip4 : ℕ
  pub port : ℕ
  pub routes : List Route

-- The calls of libraries, in the order of their first use.
pub data LoadCall : Type 0 where
  open_skel : LoadCall
  configure : Capture → LoadCall
  size_arena : ℕ → LoadCall
  size_map : MapName → ℕ → LoadCall
  load : Image → LoadCall
  init_tracing : LoadCall
  write_arena : Bytes → LoadCall
  index : Bytes → ℕ → LoadCall
  attach_h1 attach_h2 open_cgroup : LoadCall
  attach_msg_verdict attach_skb_verdict : LoadCall
  map_handle : MapName → LoadCall
  find_table_info : LoadCall
  open_pool : ℕ → LoadCall
  attach_sockops : LoadCall

-- How `attach` ends.
pub data Ending : Type 0 where
  attached : Ending
  unprepared : AttachError → Ending
  unresolved no_address bad_family : Ending
  broke : LoadCall → Ending

-- The calls that succeeded, and how it ended.
pub record Attaching : Type 0 where
  pub done : List LoadCall
  pub ending : Ending

abbrev first_done : LoadCall → Attaching → Attaching
first_done c a = record a { done = c ∷ a.done }

-- `u32::from_ne_bytes(addr.ip().octets())`.
abbrev pub ip4_of : ℕ → ℕ → ℕ → ℕ → ℕ
ip4_of a b c d = a + b * 256 + c * 65536 + d * 16777216

abbrev pub sized_maps : List MapName
sized_maps = dummy_map ∷ free_dummies ∷ conn_dummy ∷ dummy_idx ∷ dummy_owners ∷ []

unfoldable pub size_calls : ℕ → List MapName → List LoadCall
size_calls n [] = []
size_calls n (m ∷ ms) = size_map m (u32 n) ∷ size_calls n ms

unfoldable pub index_calls : List (Bytes × ℕ) → List LoadCall
index_calls [] = []
index_calls ((key, i) ∷ us) = index key i ∷ index_calls us

-- What comes before the program runs on anything: it is configured, sized, loaded and given its routes.
unfoldable pub load_calls : Image → ℕ → Prepared → List LoadCall
load_calls image dummies p =
    configure h1_preface
    ∷ configure h1_path
    ∷ configure h1_content_length
    ∷ configure h2_path
    ∷ configure h2_content_length
    ∷ size_arena (u32 (arena_pages p.arena_len))
    ∷ (size_calls dummies sized_maps
        ++ load image
          ∷ init_tracing
          ∷ write_arena (loaded p)
          ∷ index_calls (index_updates 0 p.routes))

-- The parsers and programs are attached, and the dummies are opened.
unfoldable pub attach_calls : ℕ → List LoadCall
attach_calls dummies =
    attach_h1
    ∷ attach_h2
    ∷ open_cgroup
    ∷ attach_msg_verdict
    ∷ attach_skb_verdict
    ∷ map_handle dummy_map
    ∷ map_handle dummy_idx
    ∷ map_handle free_dummies
    ∷ map_handle released_dummies
    ∷ find_table_info
    ∷ open_pool dummies
    ∷ attach_sockops
    ∷ []

module _ (fails : LoadCall → Bool) where
  -- Calls in order, up to the first that fails, and then the rest of the work.
  unfoldable pub perform : List LoadCall → Attaching → Attaching
  perform [] rest = rest
  perform (c ∷ cs) rest =
      let after = perform cs rest in
      if fails c then record { done = []; ending = broke c } else first_done c after

  -- Past the opening of the program's skeleton.
  unfoldable pub attach_at : SocketAddr → ℕ → Prepared → Attaching
  attach_at v6 dummies p = record { done = []; ending = bad_family }
  attach_at (v4 a b c d port) dummies p =
      perform
        (load_calls
            (record {
              ip4 = ip4_of a b c d;
              port = port;
              routes = fill_routes 0 p.routes (replicate max_routes no_route);
            })
            dummies p
          ++ attach_calls dummies)
        (record { done = []; ending = attached })

  -- `attach` past the preparation.
  unfoldable pub attach_prepared : Option (List SocketAddr) → ℕ → Prepared → Attaching
  attach_prepared none dummies p = record { done = []; ending = unresolved }
  attach_prepared (some []) dummies p = record { done = []; ending = no_address }
  attach_prepared (some (address ∷ more)) dummies p =
      perform (open_skel ∷ []) (attach_at address dummies p)

  -- `FastPath::attach`.
  unfoldable pub attach :
      (Bytes → Bytes) → Option (List SocketAddr) → List (Bytes × File) → ℕ → Attaching
  attach huffman_encode addresses routes dummies = elim (prepare huffman_encode dummies routes) [
    | err e ↦ record { done = []; ending = unprepared e }
    | ok p ↦ attach_prepared addresses dummies p
  ]
