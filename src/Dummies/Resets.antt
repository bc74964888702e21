-- ===== src/Dummies/Resets.antt =====
-- About `reset` and `recycle` of hyper-fast-path/src/dummies.rs.
use hyper_fast_path.Prelude.{
  ℕ, ◌-◌, ◌≤◌, ◌<◌, ◌≡◌, refl, Bool, true, false, not, List, [], ◌∷◌, ◌++◌, Option, some, get_elem?,
  ltb, ◌&&◌, ◌||◌, ==_iff, arith, Bool-cases, Option-cases, inl, inr,
}
use hyper_fast_path.Prelude.Bytes.{Bytes, bytes_eq, bytes_eq_iff}
use hyper_fast_path.Dummies.Recycling.{
  Dummy, DummyMaps, Call, delete_dummy, take_error, add_dummy, delete_info, push_free, put, missing,
  quarantine, reset_dummy, reset, recycle,
}

pub put_same : (m : ℕ → Option ℕ) (k : ℕ) (v : Option ℕ) → put m k v k ≡ v
put_same m k v = rw ((==_iff k k).1 refl) refl

key_gone : (k : Bytes) (b : Bool) → not (bytes_eq k k) && b ≡ false
key_gone k b = rw ((bytes_eq_iff k k).1 refl) refl

-- The first released dummy, if any, is in quarantine.
abbrev pub InQuarantine : ℕ → List (ℕ × ℕ) → Type 0
InQuarantine now [] = Unit {0}
InQuarantine now ((idx, at) ∷ rest) = now - at < quarantine

-- A pass over the released dummies: what is left of them, and the maps before and after. A dummy is
-- kept if its reset succeeds and lost if it fails, and what comes behind finds the maps as that
-- reset left them.
pub data IsPass (fails : Call → Bool) (dummies : List Dummy) (now : ℕ)
    : List (ℕ × ℕ) → List (ℕ × ℕ) → DummyMaps → DummyMaps → Type 0 where
  stops :
      {released : List (ℕ × ℕ)} {maps : DummyMaps}
      → InQuarantine now released
      → IsPass fails dummies now released released maps maps
  lost :
      {idx at : ℕ} {released rest : List (ℕ × ℕ)} {maps between after : DummyMaps}
      → quarantine ≤ now - at
      → reset fails dummies idx maps ≡ (false, between)
      → between.free_dummies ≡ maps.free_dummies
      → IsPass fails dummies now released rest between after
      → IsPass fails dummies now ((idx, at) ∷ released) rest maps after
  kept :
      {idx at : ℕ} {released rest : List (ℕ × ℕ)} {maps between after : DummyMaps}
      → quarantine ≤ now - at
      → reset fails dummies idx maps ≡ (true, between)
      → between.free_dummies ≡ maps.free_dummies ++ idx ∷ []
      → IsPass fails dummies now released rest between after
      → IsPass fails dummies now ((idx, at) ∷ released) rest maps after

module _ (fails : Call → Bool) where
  -- What a reset of a dummy leaves: in the pool, in its map and with no dynamic table, or not in
  -- the pool.
  abbrev pub IsReset : Dummy → ℕ → DummyMaps → Bool × DummyMaps → Type 0
  IsReset dummy idx maps (true, after) =
      (after.free_dummies ≡ maps.free_dummies ++ idx ∷ [])
      × (after.dummy_map idx ≡ some dummy.sender)
      × (after.dynamic_table_info dummy.key ≡ false)
  IsReset dummy idx maps (false, after) = after.free_dummies ≡ maps.free_dummies

  -- A reset that succeeds puts the dummy at the end of the pool, with its socket in its map and no
  -- dynamic table left under its key; one that fails at any of its calls leaves the pool as it was.
  pub reset_dummy-IsReset :
      (dummy : Dummy) (idx : ℕ) (maps : DummyMaps)
      → IsReset dummy idx maps (reset_dummy fails dummy idx maps)
  unfolding reset_dummy
  reset_dummy-IsReset dummy idx maps =
      elim (Bool-cases (fails (delete_dummy idx) || missing (maps.dummy_map idx))) [
        | inl a ↦ rw a refl
        | inr a ↦ elim (Bool-cases (fails (take_error idx))) [
          | inl b ↦ rw (a, b) refl
          | inr b ↦ elim (Bool-cases (fails (add_dummy idx))) [
            | inl c ↦ rw (a, b, c) refl
            | inr c ↦
                elim (Bool-cases (maps.dynamic_table_info dummy.key && fails (delete_info idx))) [
                  | inl d ↦ rw (a, b, c, d) refl
                  | inr d ↦ elim (Bool-cases (fails (push_free idx))) [
                    | inl e ↦ rw (a, b, c, d, e) refl
                    | inr e ↦
                        rw (a, b, c, d, e)
                          (
                            refl,
                            put_same maps.dummy_map idx (some dummy.sender),
                            key_gone dummy.key (maps.dynamic_table_info dummy.key),
                          )
                  ]
                ]
          ]
        ]
      ]

  -- Whether a reset succeeds tells whether the dummy is in the pool again.
  abbrev Returns : ℕ → DummyMaps → Bool × DummyMaps → Type 0
  Returns idx maps (true, after) = after.free_dummies ≡ maps.free_dummies ++ idx ∷ []
  Returns idx maps (false, after) = after.free_dummies ≡ maps.free_dummies

  IsReset-Returns :
      (dummy : Dummy) (idx : ℕ) (maps : DummyMaps) (r : Bool × DummyMaps)
      → IsReset dummy idx maps r
      → Returns idx maps r
  IsReset-Returns dummy idx maps (true, after) h = h.0
  IsReset-Returns dummy idx maps (false, after) h = h

  reset-Returns :
      (dummies : List Dummy) (idx : ℕ) (maps : DummyMaps)
      → Returns idx maps (reset fails dummies idx maps)
  unfolding reset
  reset-Returns dummies idx maps = elim (Option-cases (get_elem? dummies idx)) [
    | inl n ↦ rw (reset, n) refl
    | inr (d, e) ↦
        rw (reset, e)
          (IsReset-Returns d idx maps (reset_dummy fails d idx maps)
            (reset_dummy-IsReset d idx maps))
  ]

  passes :
      (dummies : List Dummy) (now idx at : ℕ) (released rest : List (ℕ × ℕ))
      (maps after : DummyMaps) (r : Bool × DummyMaps)
      → quarantine ≤ now - at
      → reset fails dummies idx maps ≡ r
      → Returns idx maps r
      → IsPass fails dummies now released rest r.1 after
      → IsPass fails dummies now ((idx, at) ∷ released) rest maps after
  passes dummies now idx at released rest maps after (true, between) old e f p = kept old e f p
  passes dummies now idx at released rest maps after (false, between) old e f p = lost old e f p

  -- A pass of `recycle` takes the first of the released dummies, each out of quarantine, off the
  -- queue and resets them in that order: those whose reset succeeds join the pool at its end, those
  -- whose reset fails do not, and the queue that is left is empty or begins with one in quarantine.
  pub recycle-IsPass :
      (dummies : List Dummy) (now : ℕ) (released : List (ℕ × ℕ)) (maps : DummyMaps)
      → IsPass fails dummies now released
          (recycle fails dummies now released maps).1
          maps
          (recycle fails dummies now released maps).0
  unfolding recycle
  recycle-IsPass dummies now [] maps = stops tt
  recycle-IsPass dummies now ((idx, at) ∷ released) maps =
      elim (Bool-cases (ltb (now - at) quarantine)) [
        | inl young ↦ rw young (stops (ground (arith, young)))
        | inr old ↦ rw old (
            passes dummies now idx at released _ maps _ (reset fails dummies idx maps)
              (ground (arith, old)) refl (reset-Returns dummies idx maps)
              (recycle-IsPass dummies now released (reset fails dummies idx maps).1))
      ]
