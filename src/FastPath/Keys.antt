-- ===== src/FastPath/Keys.antt =====
-- The keys under which hyper-fast-path/src/fast_path.rs, `FastPath::attach`, indexes the routes.
use hyper_fast_path.Prelude.{ℕ, ◌≤◌, ◌-◌, ◌++◌, ◌≡◌, ◌∙◌, refl, length, replicate, length-replicate}
use hyper_fast_path.Prelude.Bytes.{Bytes}
use hyper_fast_path.FastPath.Attach.{padded, max_route_path}
use hyper_fast_path.Prelude.Bytes.{copy_at-start}
use hyper_fast_path.FastPath.Arena.{drop-replicate}

-- A path of at most 64 bytes is the beginning of its key, and zeros fill the key up to 64 bytes.
pub padded-append :
    (key : Bytes)
    → length key ≤ max_route_path
    → padded key ≡ key ++ replicate (max_route_path - length key) 0
unfolding padded
padded-append key h =
    copy_at-start key (replicate max_route_path 0)
      (rw (length-replicate {A = ℕ} max_route_path 0) h)
    ∙ rw (drop-replicate max_route_path (length key) 0) refl
