-- ===== src/Tests/Starts.antt =====
-- The start of hyper-fast-path/src/fast_path.rs, example/src/main.rs and hyper-fast-path/build.rs.
use native.Mathlib.Omega.{arith}
use hyper_fast_path.Prelude.{
  ℕ, ◌≤◌, Bool, true, false, List, [], ◌∷◌, Option, none, some, length, leb, if◌then◌else◌, ◌≡◌,
  refl,
}
use hyper_fast_path.Prelude.Bytes.{Bytes, codes, bytes_eq}
use hyper_fast_path.FastPath.Loading.{LoadCall, attach_sockops, attach}
use hyper_fast_path.FastPath.Attaching.{IsOrdered, attach-IsOrdered}
use hyper_fast_path.Dummies.Pool.{v4}
use hyper_fast_path.Dummies.Parsers.{
  LinkInfo, tracing, other_link, ProgInfo, find_dynamic_table_info, dynamic_table_info,
}
use hyper_fast_path.Dummies.Lookups.{IsLookup, find_dynamic_table_info-IsLookup}
use hyper_fast_path.Example.{default_dummies, fastpath_routes, FileSystem, on_disk}
use hyper_fast_path.Build.{
  Output, Host, resolve, supports_arena, supports_found, find_clang, select_clang, linked,
  select_clang-supports,
}

-- Every call succeeds but the last.
abbrev fails : LoadCall → Bool
fails attach_sockops = true
fails _ = false

-- An encoder that leaves its input as it is.
abbrev same : Bytes → Bytes
same path = path

abbrev fs : FileSystem
fs = record { extension = λ path. some (codes "txt"); read = λ path. some (codes "x") }

attach-IsOrdered_example : IsOrdered (
    attach fails same
      (some (v4 127 0 0 1 80 ∷ []))
      (on_disk fs (fastpath_routes (codes "a")))
      default_dummies)
attach-IsOrdered_example =
    attach-IsOrdered fails same (some (v4 127 0 0 1 80 ∷ []))
      (on_disk fs (fastpath_routes (codes "a"))) default_dummies

abbrev here : (contents : Bytes) × (some (codes "x") ≡ some contents) × (length contents ≤ 131072)
here = (codes "x", refl, omega arith)

-- Program 9 is linked to program 5 and has the map 3; program 8 is linked to another.
abbrev links : List LinkInfo
links = other_link ∷ tracing 6 8 ∷ tracing 5 9 ∷ []

abbrev progs : List ProgInfo
progs = record { id = 8; map_ids = 2 ∷ [] } ∷ record { id = 9; map_ids = 1 ∷ 3 ∷ [] } ∷ []

abbrev name_of : ℕ → Option Bytes
name_of id = if leb 2 id then some dynamic_table_info else some (codes "rodata")

find_dynamic_table_info-IsLookup_example :
    IsLookup name_of (some 5) links progs (find_dynamic_table_info (some 5) links progs name_of)
find_dynamic_table_info-IsLookup_example =
    find_dynamic_table_info-IsLookup name_of (some 5) links progs

-- The compiler on the path is too old, and the second of the fallbacks is there.
abbrev runs : Bytes → Option Output
runs clang =
    if bytes_eq clang (codes "/usr/lib/llvm-20/bin/clang")
    then some (record { success = true; has_feature = true })
    else none

abbrev host : Host
host = record { path = codes "/bin" ∷ []; clang_in = λ dir. some (codes "/bin/clang") }

abbrev after : Host
after = linked runs (codes "/out/bin") (codes "/usr/lib/llvm-20/bin/clang") host

select_clang-supports_example : supports_found runs (resolve after.clang_in after.path) ≡ true
unfolding select_clang find_clang supports_arena bytes_eq
select_clang-supports_example = select_clang-supports runs (codes "/out/bin") true host after refl
