-- ===== src/Prelude/Bytes.antt =====
-- Byte strings, the big-endian integers of the wire, and copies into a fixed buffer.
use hyper_fast_path.Prelude.Tests.{◌==◌}
use hyper_fast_path.Prelude.Lists.{length, take, drop, set, get_or, length-set}
use Prim.Native.Nat.{◌≤◌, ℕ, zero, suc, ◌+◌, ◌*◌, ◌/◌, ◌%◌}
use mathlib.Core.Path.{◌≡◌, refl, ap, ◌∙◌}
use mathlib.Core.Bool.{Bool, true, false, ◌&&◌}
use mathlib.Core.Logic.{◌↔◌}
use mathlib.Core.List.{List, [], ◌∷◌, ◌++◌}
use Prim.Native.Char.{code}
use Prim.Native.String.{String}
use native.Mathlib.Nat.{zero-add, add-suc, suc-add}
use native.Mathlib.Omega.{arith}

abbrev pub Bytes : Type 0
Bytes = List ℕ

unfoldable pub bytes_eq : Bytes → Bytes → Bool
bytes_eq [] [] = true
bytes_eq (x ∷ xs) (y ∷ ys) = x == y && bytes_eq xs ys
bytes_eq _ _ = false

pub bytes_eq_iff : (xs ys : Bytes) → (bytes_eq xs ys ≡ true) ↔ (xs ≡ ys)
unfolding bytes_eq
bytes_eq_iff (x ∷ xs) (y ∷ ys) = ground (arith, bytes_eq_iff xs ys)
bytes_eq_iff _ _ = ground arith

-- `u32::to_be_bytes` and `u32::from_be_bytes`.
unfoldable pub to_be_bytes : ℕ → Bytes
to_be_bytes n = ((n / 16777216) % 256) ∷ ((n / 65536) % 256) ∷ ((n / 256) % 256) ∷ (n % 256) ∷ []

unfoldable pub from_be_bytes : Bytes → ℕ
from_be_bytes b = get_or b 0 0 * 16777216 + get_or b 1 0 * 65536 + get_or b 2 0 * 256 + get_or b 3 0

-- `buf[at..at + src.len()].copy_from_slice(src)`, on a buffer that is long enough.
unfoldable pub copy_at : Bytes → ℕ → Bytes → Bytes
copy_at buf at [] = buf
copy_at buf at (c ∷ cs) = copy_at (set buf at c) (suc at) cs

pub length-copy_at : (buf : Bytes) (at : ℕ) (src : Bytes) → length (copy_at buf at src) ≡ length buf
unfolding copy_at
length-copy_at buf at [] = refl
length-copy_at buf at (c ∷ cs) = length-copy_at (set buf at c) (suc at) cs ∙ length-set buf at c

-- The bytes of an ASCII text.
abbrev pub codes : String → Bytes
codes String.[] = []
codes (String.◌∷◌ c s) = code c ∷ codes s

-- `body.chunks(size)`: pieces of `size` bytes, the last of which may be shorter; `fuel` bounds
-- their number.
unfoldable pub chunks_fuel : ℕ → ℕ → Bytes → List Bytes
chunks_fuel fuel size [] = []
chunks_fuel zero size (c ∷ cs) = []
chunks_fuel (suc fuel) size (c ∷ cs) =
    take size (c ∷ cs) ∷ chunks_fuel fuel size (drop size (c ∷ cs))

unfoldable pub chunks : ℕ → Bytes → List Bytes
chunks size body = chunks_fuel (length body) size body

set-append : (xs ys : Bytes) (i v : ℕ) → set (xs ++ ys) (length xs + i) v ≡ xs ++ set ys i v
set-append [] ys i v = rw zero-add
set-append (x ∷ xs) ys i v = rw (suc-add (length xs) i) (ap (◌∷◌ x) (set-append xs ys i v))

-- A copy behind a prefix leaves the prefix alone.
pub copy_at-append :
    (src xs ys : Bytes) (i : ℕ) → copy_at (xs ++ ys) (length xs + i) src ≡ xs ++ copy_at ys i src
unfolding copy_at
copy_at-append [] xs ys i = refl
copy_at-append (c ∷ cs) xs ys i =
    rw (set-append xs ys i c, ← add-suc (length xs) i) (copy_at-append cs xs (set ys i c) (suc i))

-- A copy to the start of a buffer.
pub copy_at-start :
    (src ys : Bytes) → length src ≤ length ys → copy_at ys 0 src ≡ src ++ drop (length src) ys
unfolding copy_at
copy_at-start [] ys h = refl
copy_at-start (c ∷ cs) [] h = absurd (omega (arith, h))
copy_at-start (c ∷ cs) (y ∷ ys) h =
    copy_at-append cs (c ∷ []) ys 0 ∙ ap (◌∷◌ c) (copy_at-start cs ys (omega (arith, h)))
