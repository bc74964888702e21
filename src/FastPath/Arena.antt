-- ===== src/FastPath/Arena.antt =====
-- What hyper-fast-path/src/fast_path.rs, `FastPath::attach`, leaves in the memory that the eBPF
-- program reads: the arena, and the route table that points into it.
use native.Mathlib.Nat.{zero-add, add-zero, suc-add}
use hyper_fast_path.Prelude.{
  ℕ, zero, suc, ◌+◌, ◌-◌, ◌*◌, ◌≤◌, List, [], ◌∷◌, ◌++◌, ◌≡◌, refl, ◌∙◌, arith, append-nil,
  append_assoc, Option, some, none, length, drop, replicate, length-append, length-drop,
  length-replicate,
}
use hyper_fast_path.Prelude.Bytes.{Bytes, copy_at, copy_at-append, copy_at-start}
use hyper_fast_path.FastPath.Attach.{
  PreparedRoute, H2Response, Prepared, arena_pages, load_h2, load_route, load_arena, loaded,
  page_size,
}
use hyper_fast_path.FastPath.Layout.{h2_bytes, route_bytes, packed, LaidH2, Laid, IsLaidOut}

-- A copy into the free bytes behind a prefix.
copy_at-next :
    (src xs ys : Bytes) (off : ℕ)
    → off ≡ length xs
    → length src ≤ length ys
    → copy_at (xs ++ ys) off src ≡ (xs ++ src) ++ drop (length src) ys
copy_at-next src xs ys off e h =
    rw
      (
        e,
        ← add-zero (length xs),
        copy_at-append src xs ys 0,
        copy_at-start src ys h,
        append_assoc xs,
      )
      refl

drop-drop : (m n : ℕ) (xs : Bytes) → drop n (drop m xs) ≡ drop (m + n) xs
drop-drop zero n xs = rw zero-add refl
drop-drop (suc m) zero [] = rw add-zero refl
drop-drop (suc m) (suc n) [] = rw (suc-add m) refl
drop-drop (suc m) n (x ∷ xs) = rw (suc-add m n) (drop-drop m n xs)

load_h2-next :
    (o : Option H2Response) (xs ys : Bytes)
    → LaidH2 (length xs) o
    → length (h2_bytes o) ≤ length ys
    → load_h2 o (xs ++ ys) ≡ (xs ++ h2_bytes o) ++ drop (length (h2_bytes o)) ys
unfolding load_h2
load_h2-next none xs ys l h = rw (append-nil xs) refl
load_h2-next (some r) xs ys (o, _, _) h = copy_at-next r.body xs ys r.off o h

load_route-next :
    (p : PreparedRoute) (xs ys : Bytes)
    → Laid (length xs) (p ∷ [])
    → length (route_bytes p) ≤ length ys
    → load_route p (xs ++ ys) ≡ (xs ++ route_bytes p) ++ drop (length (route_bytes p)) ys
unfolding load_route
load_route-next p xs ys (o, _, l, _) h =
    rw
      (copy_at-next p.body xs ys p.body_off o
        (omega (arith, h, length-append p.body (h2_bytes p.h2))))
      (load_h2-next p.h2 (xs ++ p.body) (drop (length p.body) ys) (rw (length-append xs p.body) l)
          (omega (arith, h, length-append p.body (h2_bytes p.h2), length-drop (length p.body) ys))
        ∙ rw
            (
              length-append p.body,
              ← drop-drop (length p.body) (length (h2_bytes p.h2)) ys,
              append_assoc xs,
            )
            refl)

load_arena-next :
    (ps : List PreparedRoute) (xs ys : Bytes)
    → Laid (length xs) ps
    → length (packed ps) ≤ length ys
    → load_arena ps (xs ++ ys) ≡ (xs ++ packed ps) ++ drop (length (packed ps)) ys
unfolding load_arena
load_arena-next [] xs ys l h = rw (append-nil xs) refl
load_arena-next (p ∷ ps) xs ys (a, b, c, l) h =
    rw
      (load_route-next p xs ys (a, b, c, tt)
        (omega (arith, h, length-append (route_bytes p) (packed ps))))
      (load_arena-next ps (xs ++ route_bytes p) (drop (length (route_bytes p)) ys)
          (rw (length-append xs (route_bytes p)) l)
          (omega (
            arith,
            h,
            length-append (route_bytes p) (packed ps),
            length-drop (length (route_bytes p)) ys,
          ))
        ∙ rw
            (
              length-append (route_bytes p) (packed ps),
              ← drop-drop (length (route_bytes p)) (length (packed ps)) ys,
              append_assoc xs,
            )
            refl)

-- The arena is mapped large enough.
arena_pages_lem : (n : ℕ) → n ≤ arena_pages n * page_size
unfolding arena_pages
arena_pages_lem n = grind arith

none_left : (m : ℕ) → 0 - m ≡ 0
none_left m = omega arith

all_left : (n : ℕ) → n - 0 ≡ n
all_left n = omega arith

suc_left : (n m : ℕ) → suc n - suc m ≡ n - m
suc_left n m = omega arith

pub drop-replicate : (n m v : ℕ) → drop m (replicate n v) ≡ replicate (n - m) v
drop-replicate zero zero v = refl
drop-replicate zero (suc m) v = rw (none_left (suc m)) refl
drop-replicate (suc n) zero v = rw (all_left (suc n)) refl
drop-replicate (suc n) (suc m) v = rw (suc_left n m) (drop-replicate n m v)

-- If the routes are laid out end to end, the arena as loaded is their responses one after the
-- other, each once, and zeros up to the end of its pages.
pub loaded-packed :
    (p : Prepared)
    → IsLaidOut p
    → loaded p ≡ packed p.routes ++ replicate (arena_pages p.arena_len * page_size - p.arena_len) 0
unfolding loaded
loaded-packed p v =
    load_arena-next p.routes [] (replicate (arena_pages p.arena_len * page_size) 0) v.laid (
      rw (length-replicate {A = ℕ} (arena_pages p.arena_len * page_size) 0, ← v.len)
        (arena_pages_lem p.arena_len))
    ∙ rw (← v.len, drop-replicate) refl
