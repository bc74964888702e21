-- ===== src/Kernel/Chunk.antt =====
-- hyper-fast-path/src/fast_path.bpf.c, lines 686 to 740: a part of a response is copied out of the
-- arena into a message, in blocks and then byte by byte.
use native.Mathlib.Nat.{zero-add, add-zero, add-suc, suc-add}
use hyper_fast_path.Prelude.{
  ℕ, zero, suc, ◌+◌, ◌*◌, ◌/◌, ◌≤◌, [], ◌∷◌, ◌++◌, Option, none, some, length, get_or, set, ltb,
  ltb-false, leb, if◌then◌else◌, ◌≡◌, refl, ap, ◌∙◌, arith, Bool-cases, inl, inr,
}
use hyper_fast_path.Prelude.Bytes.{Bytes, copy_at}

abbrev pub chunk : ℕ
chunk = 32768

abbrev pub copy_block : ℕ
copy_block = 256

-- So many bytes of the arena from `at` on. A load outside of it reads zero.
unfoldable pub loads : Bytes → ℕ → ℕ → Bytes
loads arena at zero = []
loads arena at (suc n) = get_or arena at 0 ∷ loads arena (suc at) n

pub record Copied : Type 0 where
  pub msg : Bytes
  pub done : ℕ

-- The loop over blocks, with so many turns left. The window starts at `at` in the message.
unfoldable pub copy_blocks : Bytes → ℕ → ℕ → ℕ → ℕ → ℕ → ℕ → Copied → Option Copied
copy_blocks arena src at window len zero b c = some c
copy_blocks arena src at window len (suc turns) b c =
    let off = b * copy_block in
    let rest = copy_blocks arena src at window len turns (suc b) (record {
      msg = copy_at c.msg (at + off) (loads arena (src + off) copy_block);
      done = off + copy_block;
    }) in
    if ltb len (off + copy_block)
    then some c
    else if ltb window (off + copy_block)
    then none
    else rest

-- The loop over what the last whole block left, with so many turns left.
unfoldable pub copy_bytes : Bytes → ℕ → ℕ → ℕ → ℕ → ℕ → ℕ → Copied → Option Bytes
copy_bytes arena src at window len zero k c = some c.msg
copy_bytes arena src at window len (suc turns) k c =
    let off = c.done + k in
    let rest =
      copy_bytes arena src at window len turns (suc k)
        (record c { msg = set c.msg (at + off) (get_or arena (src + off) 0) }) in
    if leb len off then some c.msg else if ltb window (off + 1) then none else rest

-- `copy_chunk`, into the window that the last pull made addressable: `none` is its -1.
unfoldable pub copy_chunk : Bytes → ℕ → Bytes → ℕ → ℕ → ℕ → Option Bytes
copy_chunk arena src msg at window len =
    elim (copy_blocks arena src at window len (chunk / copy_block) 0
      (record { msg = msg; done = 0 })) [
        | none ↦ none
        | some c ↦ copy_bytes arena src at window len copy_block 0 c
      ]

loads-add :
    (arena : Bytes) (at m n : ℕ)
    → loads arena at (m + n) ≡ loads arena at m ++ loads arena (at + m) n
unfolding loads
loads-add arena at zero n = rw (zero-add, add-zero) refl
loads-add arena at (suc m) n =
    rw (suc-add, add-suc, loads, loads-add arena (suc at) m n, suc-add) refl

pub length-loads : (arena : Bytes) (at n : ℕ) → length (loads arena at n) ≡ n
unfolding loads
length-loads arena at zero = refl
length-loads arena at (suc n) = ap suc (length-loads arena (suc at) n)

copy_at-split :
    (buf : Bytes) (at : ℕ) (xs ys : Bytes)
    → copy_at buf at (xs ++ ys) ≡ copy_at (copy_at buf at xs) (at + length xs) ys
unfolding copy_at
copy_at-split buf at [] ys = rw add-zero refl
copy_at-split buf at (x ∷ xs) ys =
    rw (add-suc, ← suc-add) (copy_at-split (set buf at x) (suc at) xs ys)

-- The message with so many bytes of the arena in it.
abbrev pub written : Bytes → ℕ → Bytes → ℕ → ℕ → Bytes
written arena src msg at n = copy_at msg at (loads arena src n)

pub written-add :
    (arena : Bytes) (src : ℕ) (msg : Bytes) (at m n : ℕ)
    → copy_at (written arena src msg at m) (at + m) (loads arena (src + m) n)
      ≡ written arena src msg at (m + n)
written-add arena src msg at m n =
    rw
      (
        loads-add arena src m n,
        copy_at-split msg at (loads arena src m) (loads arena (src + m) n),
        length-loads arena src m,
      )
      refl

module _ (arena : Bytes) (src : ℕ) (msg : Bytes) (at window len : ℕ) (wide : len ≤ window) where
  -- What the copy has done, after so many bytes.
  abbrev copied : ℕ → Copied
  copied n = record { msg = written arena src msg at n; done = n }

  -- The rest of the copy, if what the blocks left is known.
  abbrev finish : Option Copied → Option Bytes
  finish o = elim o [ none ↦ none | some c ↦ copy_bytes arena src at window len copy_block 0 c ]

  copy_bytes-written :
      (turns k d : ℕ)
      → d + k ≤ len
      → len ≤ d + k + turns
      → copy_bytes arena src at window len turns k
          (record { msg = written arena src msg at (d + k); done = d })
        ≡ some (written arena src msg at len)
  unfolding copy_bytes loads copy_at
  copy_bytes-written zero k d l u =
      ap (λ n. some (written arena src msg at n)) {x = d + k} {y = len} (omega arith)
  copy_bytes-written (suc turns) k d l u = elim (Bool-cases (leb len (d + k))) [
    | inl e ↦
        rw e (ap (λ n. some (written arena src msg at n)) {x = d + k} {y = len} (ground (arith, e)))
    | inr e ↦
        rw (e, ltb-false window (d + k + 1) (ground (arith, e, wide)))
          (ap (λ m. copy_bytes arena src at window len turns (suc k) (record { msg = m; done = d }))
              (one_more d k)
            ∙ copy_bytes-written turns (suc k) d (ground (arith, e)) (omega (arith, u)))
  ]
    where
      add_one : (i j : ℕ) → i + j + 1 ≡ i + suc j
      add_one i j = omega arith

      one_more :
          (i j : ℕ)
          → set (written arena src msg at (i + j)) (at + (i + j)) (get_or arena (src + (i + j)) 0)
            ≡ written arena src msg at (i + suc j)
      one_more i j =
          written-add arena src msg at (i + j) 1 ∙ ap (written arena src msg at) (add_one i j)

  copy_blocks-written :
      (turns b : ℕ)
      → b * copy_block ≤ len
      → len ≤ (b + turns) * copy_block
      → finish (copy_blocks arena src at window len turns b (copied (b * copy_block)))
        ≡ some (written arena src msg at len)
  unfolding copy_blocks
  copy_blocks-written zero b l u =
      ap
        (λ n.
          copy_bytes arena src at window len copy_block 0
            (record { msg = written arena src msg at n; done = b * copy_block }))
        (here (b * copy_block))
      ∙ copy_bytes-written copy_block 0 (b * copy_block) (omega (arith, l)) (omega (arith, u))
    where
      here : (n : ℕ) → n ≡ n + 0
      here n = omega arith
  copy_blocks-written (suc turns) b l u =
      elim (Bool-cases (ltb len (b * copy_block + copy_block))) [
        | inl e ↦ rw e (
            ap
              (λ n.
                copy_bytes arena src at window len copy_block 0
                  (record { msg = written arena src msg at n; done = b * copy_block }))
              (here (b * copy_block))
            ∙ copy_bytes-written copy_block 0 (b * copy_block) (omega (arith, l))
                (ground (arith, e)))
        | inr e ↦
            rw (e, ltb-false window (b * copy_block + copy_block) (ground (arith, e, wide)))
              (ap (λ c. finish (copy_blocks arena src at window len turns (suc b) c)) (one_more b)
                ∙ copy_blocks-written turns (suc b) (ground (arith, e)) (omega (arith, u)))
      ]
    where
      here : (n : ℕ) → n ≡ n + 0
      here n = omega arith

      next : (i : ℕ) → i * copy_block + copy_block ≡ suc i * copy_block
      next i = omega arith

      one_more :
          (i : ℕ)
          → record {
            msg =
                copy_at
                  (written arena src msg at (i * copy_block))
                  (at + i * copy_block)
                  (loads arena (src + i * copy_block) copy_block);
            done = i * copy_block + copy_block;
          }
            ≡ copied (suc i * copy_block)
      one_more i =
          ap (λ m. record { msg = m; done = i * copy_block + copy_block })
            (written-add arena src msg at (i * copy_block) copy_block)
          ∙ ap copied (next i)

  -- Into a window that is wide enough, a chunk is copied whole: the blocks and the bytes behind them
  -- write what copying the bytes of the arena one after the other writes.
  pub copy_chunk-copy_at :
      len ≤ chunk
      → copy_chunk arena src msg at window len ≡ some (copy_at msg at (loads arena src len))
  unfolding copy_chunk loads copy_at
  copy_chunk-copy_at h = copy_blocks-written (chunk / copy_block) 0 (omega arith) (omega (arith, h))
