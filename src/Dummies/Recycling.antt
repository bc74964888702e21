-- ===== src/Dummies/Recycling.antt =====
-- hyper-fast-path/src/dummies.rs: `DummyPool::new`, `recycle` and `reset` on the maps that they
-- share with the eBPF program. The sockets, the clock and whether a call of the kernel fails are
-- parameters; the thread is a sequence of passes.
use hyper_fast_path.Prelude.{
  ℕ, zero, suc, ◌+◌, ◌-◌, ◌*◌, Bool, true, false, not, List, [], ◌∷◌, ◌++◌, Option, none, some,
  get_elem?, ltb, ◌==◌, ◌&&◌, ◌||◌, if◌then◌else◌,
}
use hyper_fast_path.Prelude.Bytes.{Bytes, bytes_eq}
use hyper_fast_path.Dummies.Pool.{Rlimit, raise_fd_limit, enough, raised, os_error, too_low}

-- The sender's descriptor and the key of its connection.
pub record Dummy : Type 0 where
  pub sender : ℕ
  pub key : Bytes

-- The maps: `free_dummies` is a queue, and `dynamic_table_info` is known by its keys.
pub record DummyMaps : Type 0 where
  pub dummy_map : ℕ → Option ℕ
  pub dummy_idx : Bytes → Option ℕ
  pub free_dummies : List ℕ
  pub dynamic_table_info : Bytes → Bool

-- The kernel's calls that can fail.
pub data Call : Type 0 where
  connect delete_dummy take_error add_dummy add_idx delete_info push_free : ℕ → Call

abbrev pub put : (ℕ → Option ℕ) → ℕ → Option ℕ → ℕ → Option ℕ
put m k v i = if i == k then v else m i

abbrev pub missing : Option ℕ → Bool
missing none = true
missing (some x) = false

abbrev pub add_first : Dummy → Option (List Dummy × DummyMaps) → Option (List Dummy × DummyMaps)
add_first d none = none
add_first d (some (ds, maps)) = some (d ∷ ds, maps)

-- `QUARANTINE`, in milliseconds.
abbrev pub quarantine : ℕ
quarantine = 100

abbrev pub numbers : ℕ → ℕ → List ℕ
numbers idx zero = []
numbers idx (suc count) = idx ∷ numbers (idx + 1) count

-- The maps with one more dummy in them.
abbrev pub filled : Dummy → ℕ → DummyMaps → DummyMaps
filled dummy idx maps = record maps {
  dummy_map = put maps.dummy_map idx (some dummy.sender);
  dummy_idx = λ k. if bytes_eq k dummy.key then some idx else maps.dummy_idx k;
  free_dummies = maps.free_dummies ++ idx ∷ [];
}

module _ (fails : Call → Bool) where
  -- `reset` past the lookup of the dummy: whether it succeeded, and the maps. `delete` fails on a
  -- missing key, which is no error for `dynamic_table_info`.
  unfoldable pub reset_dummy : Dummy → ℕ → DummyMaps → Bool × DummyMaps
  reset_dummy dummy idx maps =
      let taken = record maps { dummy_map = put maps.dummy_map idx none } in
      let added = record maps { dummy_map = put maps.dummy_map idx (some dummy.sender) } in
      let cleared = record added {
        dynamic_table_info = λ k. not (bytes_eq k dummy.key) && maps.dynamic_table_info k;
      } in
      if fails (delete_dummy idx) || missing (maps.dummy_map idx)
      then (false, maps)
      else if fails (take_error idx)
      then (false, taken)
      else if fails (add_dummy idx)
      then (false, taken)
      else if maps.dynamic_table_info dummy.key && fails (delete_info idx)
      then (false, added)
      else if fails (push_free idx)
      then (false, cleared)
      else (true, record cleared { free_dummies = maps.free_dummies ++ idx ∷ [] })

  unfoldable pub reset : List Dummy → ℕ → DummyMaps → Bool × DummyMaps
  unfolding reset_dummy
  reset dummies idx maps = elim (get_elem? dummies idx) [
    | none ↦ (false, maps)
    | some dummy ↦ reset_dummy dummy idx maps
  ]

  -- The inner loop of `recycle` at the time `now`, on the queue of released dummies and the times
  -- of their release: the maps, and the queue that is left.
  unfoldable pub recycle : List Dummy → ℕ → List (ℕ × ℕ) → DummyMaps → DummyMaps × List (ℕ × ℕ)
  recycle dummies now [] maps = (maps, [])
  recycle dummies now ((idx, at) ∷ released) maps =
      let rest = recycle dummies now released (reset dummies idx maps).1 in
      if ltb (now - at) quarantine then (maps, (idx, at) ∷ released) else rest

  -- The loop of `DummyPool::new` over the `count` dummies from the `idx`th on; `opens` is the
  -- connection made for one and its key.
  unfoldable pub fill : (ℕ → Option Dummy) → ℕ → ℕ → DummyMaps → Option (List Dummy × DummyMaps)
  fill opens zero idx maps = some ([], maps)
  fill opens (suc count) idx maps = elim (opens idx) [
    | none ↦ none
    | some dummy ↦
        let rest = fill opens count (idx + 1) (filled dummy idx maps) in
        if fails (add_dummy idx) || fails (add_idx idx) || fails (push_free idx)
        then none
        else add_first dummy rest
  ]

  -- `DummyPool::new` up to the start of its thread.
  unfoldable pub new :
      Option Rlimit
      → (Rlimit → Bool)
      → (ℕ → Option Dummy)
      → ℕ
      → DummyMaps
      → Option (List Dummy × DummyMaps)
  new limit setrlimit opens n maps = elim (raise_fd_limit limit setrlimit (2 * n + 1024)) [
    | enough l ↦ fill opens n 0 maps
    | raised l ↦ fill opens n 0 maps
    | os_error ↦ none
    | too_low hard ↦ none
  ]
