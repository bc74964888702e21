-- ===== src/Example/Startup.antt =====
-- About what example/src/main.rs starts.
use hyper_fast_path.Prelude.{
  ◌+◌, ◌*◌, ◌≤◌, Bool, true, false, List, [], ◌∷◌, ◌++◌, ◌≡◌, refl, some, length, Bool-cases, inl,
  inr,
}
use hyper_fast_path.Prelude.Bytes.{Bytes}
use hyper_fast_path.FastPath.Attach.{PreparedRoute}
use hyper_fast_path.FastPath.Success.{IsMade}
use hyper_fast_path.FastPath.Loading.{
  LoadCall, Attaching, Ending, attached, unprepared, unresolved, no_address, bad_family, broke,
  attach,
}
use hyper_fast_path.FastPath.Order.{has, is_sockops}
use hyper_fast_path.FastPath.Attaching.{is_attached, attach-IsOrdered}
use hyper_fast_path.Example.{
  fastpath_routes, FileSystem, file_at, on_disk, Args, Started, panicked, serving, go_on, main,
}

-- The assets are there, and none is above 128 KiB.
abbrev pub HasAssets : FileSystem → Bytes → List Bytes → Type 0
HasAssets fs assets_dir [] = Unit {0}
HasAssets fs assets_dir (path ∷ rest) =
    ((contents : Bytes) × (fs.read (assets_dir ++ path) ≡ some contents)
      × (length contents ≤ 131072))
    × HasAssets fs assets_dir rest

-- A code of HPACK has at most 30 bits.
abbrev pub IsHuffman : (Bytes → Bytes) → Type 0
IsHuffman huffman_encode = (path : Bytes) → length (huffman_encode path) * 8 ≤ length path * 30 + 7

abbrev AllShort : List Bytes → Type 0
AllShort [] = Unit {0}
AllShort (path ∷ rest) = (length path ≤ 16) × AllShort rest

-- Each prepared route is its asset's: its path, and the responses of the file of that name.
abbrev pub AllPrepared :
    (Bytes → Bytes) → FileSystem → Bytes → List Bytes → List PreparedRoute → Type 0
AllPrepared huffman_encode fs assets_dir [] [] = Unit {0}
AllPrepared huffman_encode fs assets_dir (path ∷ ps) (r ∷ rs) =
    IsMade huffman_encode path (file_at fs (assets_dir ++ path)) r
    × AllPrepared huffman_encode fs assets_dir ps rs
AllPrepared huffman_encode fs assets_dir _ _ = ⊥

-- What a start means: the server runs with the fast path only once the program is attached to its
-- connections, and without it only if that was asked for.
abbrev pub IsStarted : Bool → Attaching → Started → Type 0
IsStarted no_fastpath a panicked = Unit {0}
IsStarted no_fastpath a (serving true) = (no_fastpath ≡ false) × (has is_sockops a.done ≡ true)
IsStarted no_fastpath a (serving false) = no_fastpath ≡ true

goes_on :
    (done : List LoadCall) (e : Ending) (binds : Bool)
    → has is_sockops done ≡ is_attached e
    → IsStarted false (record { done = done; ending = e }) (go_on binds e)
goes_on done attached true h = (refl, h)
goes_on done attached false h = tt
goes_on done (unprepared e) binds h = tt
goes_on done unresolved binds h = tt
goes_on done no_address binds h = tt
goes_on done bad_family binds h = tt
goes_on done (broke c) binds h = tt

-- The example serves with the fast path only if it was not disabled and the program was attached to the
-- server's connections, and without it only if it was disabled; otherwise it panics.
pub main-IsStarted :
    (fails : LoadCall → Bool) (binds : Bool) (huffman_encode : Bytes → Bytes) (fs : FileSystem)
    (assets_dir : Bytes) (args : Args)
    → IsStarted args.no_fastpath
        (attach fails huffman_encode
          (some (args.addr ∷ []))
          (on_disk fs (fastpath_routes assets_dir))
          args.dummies)
        (main fails binds huffman_encode fs assets_dir args)
unfolding main
main-IsStarted fails binds huffman_encode fs assets_dir args = elim (Bool-cases args.no_fastpath) [
  | inl y ↦ elim (Bool-cases binds) [ inl b ↦ rw (y, b) refl | inr b ↦ rw (y, b) tt ]
  | inr n ↦ rw n (
      goes_on
        (attach fails huffman_encode (some (args.addr ∷ []))
          (on_disk fs (fastpath_routes assets_dir)) args.dummies).done
        _ binds
        (attach-IsOrdered fails huffman_encode (some (args.addr ∷ []))
          (on_disk fs (fastpath_routes assets_dir)) args.dummies).sockops_last.0)
]
