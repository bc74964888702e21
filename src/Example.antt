-- ===== src/Example.antt =====
-- example/src/main.rs: a file server with the fast path in front. The command line, the file system,
-- the Huffman encoder and which calls fail are parameters; logging and the router are left out.
pub mod Startup
use hyper_fast_path.Prelude.{
  ℕ, zero, suc, ◌+◌, ◌≤◌, ◌<◌, ◌^◌, Bool, true, false, List, [], ◌∷◌, ◌++◌, map, ◌≡◌, refl, sym, ap,
  ◌∙◌, arith, Option, none, some, length, length-append, Bool-cases, inl, inr, if◌then◌else◌,
}
use hyper_fast_path.Prelude.Bytes.{Bytes, codes}
use hyper_fast_path.FastPath.Render.{File, content_type, decimal, render_body}
use hyper_fast_path.FastPath.Attach.{
  Prepared, ok, prepare, max_route_path, max_route_body, max_dummies,
}
use hyper_fast_path.FastPath.Sizes.{length-decimal, length-content_type}
use hyper_fast_path.FastPath.Loading.{
  LoadCall, Ending, attached, unprepared, unresolved, no_address, bad_family, broke, attach,
}
use hyper_fast_path.FastPath.Order.{has, is_sockops}
use hyper_fast_path.FastPath.Attaching.{attach-IsOrdered}
use hyper_fast_path.Dummies.Pool.{SocketAddr}

-- `DEFAULT_DUMMIES` of fast_path.rs.
abbrev pub default_dummies : ℕ
default_dummies = 1024

abbrev pub assets : List Bytes
assets =
    codes "/1KB.txt"
    ∷ codes "/8KB.txt"
    ∷ codes "/16KB.txt"
    ∷ codes "/32KB.txt"
    ∷ codes "/48KB.txt"
    ∷ codes "/64KB.txt"
    ∷ codes "/128KB.txt"
    ∷ []

abbrev pub asset_routes : Bytes → List Bytes → List (Bytes × Bytes)
asset_routes assets_dir [] = []
asset_routes assets_dir (path ∷ rest) = (path, assets_dir ++ path) ∷ asset_routes assets_dir rest

-- `fastpath_routes`, the paths of the requests and of the files.
unfoldable pub fastpath_routes : Bytes → List (Bytes × Bytes)
fastpath_routes assets_dir = asset_routes assets_dir assets

-- A file system: a path's extension and the contents of its file.
pub record FileSystem : Type 0 where
  pub extension : Bytes → Option Bytes
  pub read : Bytes → Option Bytes

abbrev pub file_at : FileSystem → Bytes → File
file_at fs path = record { extension = fs.extension path; contents = fs.read path }

abbrev pub on_disk : FileSystem → List (Bytes × Bytes) → List (Bytes × File)
on_disk fs [] = []
on_disk fs ((path, file) ∷ rest) = (path, file_at fs file) ∷ on_disk fs rest

pub record Args : Type 0 where
  pub no_fastpath : Bool
  pub addr : SocketAddr
  pub dummies : ℕ

-- How `main` goes on: it panics, or it serves, with or without the fast path.
pub data Started : Type 0 where
  panicked : Started
  serving : Bool → Started

-- Past `expect` and the listener's `unwrap`.
abbrev pub go_on : Bool → Ending → Started
go_on binds attached = if binds then serving true else panicked
go_on binds _ = panicked

module _ (fails : LoadCall → Bool) (binds : Bool) (huffman_encode : Bytes → Bytes) (fs : FileSystem)
    (assets_dir : Bytes) where
  abbrev routes : List (Bytes × File)
  routes = on_disk fs (fastpath_routes assets_dir)

  -- The fast path is attached, if it is asked for, and then the listener is bound.
  unfoldable pub main : Args → Started
  main args =
      if args.no_fastpath
      then if binds then serving false else panicked
      else go_on binds
          (attach fails huffman_encode (some (args.addr ∷ [])) routes args.dummies).ending
