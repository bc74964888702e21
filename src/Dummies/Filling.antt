-- ===== src/Dummies/Filling.antt =====
-- About `DummyPool::new` of hyper-fast-path/src/dummies.rs.
use hyper_fast_path.Prelude.{
  ℕ, zero, suc, ◌+◌, ◌*◌, ◌<◌, ◌≡◌, refl, sym, ap, ◌∙◌, Bool, List, [], ◌∷◌, ◌++◌, Option, none,
  some, length, map, ◌||◌, arith, Bool-cases, Option-cases, inl, inr, append-nil, append_assoc,
}
use hyper_fast_path.Dummies.Pool.{Rlimit, Raised, raise_fd_limit, enough, raised, os_error, too_low}
use hyper_fast_path.Dummies.Recycling.{
  Dummy, DummyMaps, Call, add_dummy, add_idx, push_free, put, add_first, numbers, filled, fill, new,
}
use hyper_fast_path.Dummies.Resets.{put_same}

-- A pool that was set up with the dummies from `idx` on: one for each index, each free, in order,
-- and each in its map.
abbrev pub IsFilled : ℕ → ℕ → DummyMaps → Option (List Dummy × DummyMaps) → Type 0
IsFilled idx count maps none = Unit {0}
IsFilled idx count maps (some (ds, after)) =
    (length ds ≡ count)
    × ((after.free_dummies ≡ maps.free_dummies ++ numbers idx count)
        × (map after.dummy_map (numbers idx count) ≡ map (λ d. some d.sender) ds))

abbrev KeepsAt : ℕ → DummyMaps → Option (List Dummy × DummyMaps) → Type 0
KeepsAt j maps none = Unit {0}
KeepsAt j maps (some (ds, after)) = after.dummy_map j ≡ maps.dummy_map j

put_other : (m : ℕ → Option ℕ) (k j : ℕ) (v : Option ℕ) → j < k → put m k v j ≡ m j
put_other m k j v h = ground arith

first-KeepsAt :
    (d : Dummy) (j : ℕ) (maps maps' : DummyMaps) (r : Option (List Dummy × DummyMaps))
    → maps'.dummy_map j ≡ maps.dummy_map j
    → KeepsAt j maps' r
    → KeepsAt j maps (add_first d r)
first-KeepsAt d j maps maps' none e h = tt
first-KeepsAt d j maps maps' (some (ds, after)) e h = h ∙ e

first-IsFilled :
    (d : Dummy) (idx count : ℕ) (maps : DummyMaps) (r : Option (List Dummy × DummyMaps))
    → KeepsAt idx (filled d idx maps) r
    → IsFilled (idx + 1) count (filled d idx maps) r
    → IsFilled idx (suc count) maps (add_first d r)
first-IsFilled d idx count maps none k h = tt
first-IsFilled d idx count maps (some (ds, after)) k (a, (b, c)) = (
  ap suc a,
  (
    b ∙ append_assoc maps.free_dummies (idx ∷ []) (numbers (idx + 1) count),
    rw (k, put_same maps.dummy_map idx (some d.sender)) (ap (◌∷◌ (some d.sender)) c),
  ),
)

module _ (fails : Call → Bool) where
  fill-KeepsBelow :
      (opens : ℕ → Option Dummy) (count idx j : ℕ) (maps : DummyMaps)
      → j < idx
      → KeepsAt j maps (fill fails opens count idx maps)
  unfolding fill
  fill-KeepsBelow opens zero idx j maps h = refl
  fill-KeepsBelow opens (suc count) idx j maps h = elim (Option-cases (opens idx)) [
    | inl n ↦ rw (fill, n) tt
    | inr (d, e) ↦
        elim (Bool-cases (fails (add_dummy idx) || fails (add_idx idx) || fails (push_free idx))) [
          | inl f ↦ rw (fill, e, f) tt
          | inr f ↦
              rw (fill, e, f)
                (first-KeepsAt d j maps (filled d idx maps)
                  (fill fails opens count (idx + 1) (filled d idx maps))
                  (put_other maps.dummy_map idx j (some d.sender) h)
                  (fill-KeepsBelow opens count (idx + 1) j (filled d idx maps) (omega (arith, h))))
        ]
  ]

  fill-IsFilled :
      (opens : ℕ → Option Dummy) (count idx : ℕ) (maps : DummyMaps)
      → IsFilled idx count maps (fill fails opens count idx maps)
  unfolding fill
  fill-IsFilled opens zero idx maps = (refl, (sym (append-nil maps.free_dummies), refl))
  fill-IsFilled opens (suc count) idx maps = elim (Option-cases (opens idx)) [
    | inl n ↦ rw (fill, n) tt
    | inr (d, e) ↦
        elim (Bool-cases (fails (add_dummy idx) || fails (add_idx idx) || fails (push_free idx))) [
          | inl f ↦ rw (fill, e, f) tt
          | inr f ↦
              rw (fill, e, f)
                (first-IsFilled d idx count maps
                  (fill fails opens count (idx + 1) (filled d idx maps))
                  (fill-KeepsBelow opens count (idx + 1) idx (filled d idx maps) (omega arith))
                  (fill-IsFilled opens count (idx + 1) (filled d idx maps)))
        ]
  ]

  -- If the pool can be set up, it has one dummy for each index, all of them free, in order, and the
  -- socket of each is in its map.
  pub new-IsFilled :
      (limit : Option Rlimit) (setrlimit : Rlimit → Bool) (opens : ℕ → Option Dummy) (n : ℕ)
      (maps : DummyMaps)
      → IsFilled 0 n maps (new fails limit setrlimit opens n maps)
  unfolding new
  new-IsFilled limit setrlimit opens n maps =
      by_limit (raise_fd_limit limit setrlimit (2 * n + 1024))
    where
      by_limit :
          (r : Raised)
          → IsFilled 0 n maps (elim r [
            | enough l ↦ fill fails opens n 0 maps
            | raised l ↦ fill fails opens n 0 maps
            | os_error ↦ none
            | too_low hard ↦ none
          ])
      by_limit (enough l) = fill-IsFilled opens n 0 maps
      by_limit (raised l) = fill-IsFilled opens n 0 maps
      by_limit os_error = tt
      by_limit (too_low hard) = tt
