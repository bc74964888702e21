-- ===== src/Dummies/Recycler.antt =====
-- hyper-fast-path/src/dummies.rs: the thread of `DummyPool`, which runs `recycle` until the pool is
-- dropped. A turn of its loop is told what the thread finds: whether it is to stop, the records that
-- the poll of the ring buffer hands to the callback, each with its time, or that the poll fails, and
-- the time of the pass, and which calls of the kernel fail in it.
use hyper_fast_path.Prelude.{
  ℕ, ◌+◌, ◌*◌, Bool, true, false, ◌≡◌, refl, Bool-cases, Option-cases, inl, inr, List, [], ◌∷◌,
  ◌++◌, Option, none, some, if◌then◌else◌,
}
use hyper_fast_path.Prelude.Bytes.{Bytes}
use hyper_fast_path.Dummies.Recycling.{Dummy, DummyMaps, Call, recycle}

-- The maps, and the dummies that were released, with the times at which the thread learnt of it.
pub record Recycler : Type 0 where
  pub maps : DummyMaps
  pub queue : List (ℕ × ℕ)

-- `data.try_into().map(u32::from_ne_bytes)`: four bytes, and no other number of them.
unfoldable pub read_idx : Bytes → Option ℕ
read_idx (a ∷ b ∷ c ∷ d ∷ []) = some (a + b * 256 + c * 65536 + d * 16777216)
read_idx _ = none

-- The callback, on a record at a time.
unfoldable pub receive : ℕ → Bytes → List (ℕ × ℕ) → List (ℕ × ℕ)
receive now record_bytes queue = elim (read_idx record_bytes) [
  | none ↦ queue
  | some idx ↦ queue ++ (idx, now) ∷ []
]

unfoldable pub receive_all : List (ℕ × Bytes) → List (ℕ × ℕ) → List (ℕ × ℕ)
receive_all [] queue = queue
receive_all ((now, record_bytes) ∷ records) queue =
    receive_all records (receive now record_bytes queue)

pub record Turn : Type 0 where
  pub stop : Bool
  pub polled : Option (List (ℕ × Bytes))
  pub now : ℕ
  pub fails : Call → Bool

-- Whether the thread still runs, was stopped, or gave up.
pub data Ended : Type 0 where
  running stopped failed : Ended

abbrev pub is_running : Ended → Bool
is_running running = true
is_running _ = false

module _ (dummies : List Dummy) where
  -- A turn past the poll: the callback, and the pass over the queue.
  unfoldable pub pass : (Call → Bool) → ℕ → List (ℕ × Bytes) → Recycler → Recycler
  pass fails now records s =
      let r = recycle fails dummies now (receive_all records s.queue) s.maps in
      record { maps = r.0; queue = r.1 }

  -- The loop of the thread.
  unfoldable pub recycle_turns : List Turn → Recycler → Ended × Recycler
  recycle_turns [] s = (running, s)
  recycle_turns (t ∷ ts) s =
      let rest : Ended × Recycler = elim t.polled [
        | none ↦ (failed, s)
        | some records ↦ recycle_turns ts (pass t.fails t.now records s)
      ] in
      if t.stop then (stopped, s) else rest

  -- `recycle`: the ring buffer is set up, unless that fails, and the loop runs on an empty queue.
  unfoldable pub recycle_thread : Bool → List Turn → DummyMaps → Ended × Recycler
  recycle_thread builds turns maps =
      if builds
      then recycle_turns turns (record { maps = maps; queue = [] })
      else (failed, record { maps = maps; queue = [] })

  -- A turn that is to stop ends the thread, if it has not ended before.
  recycle_turns-stop :
      (before after : List Turn) (t : Turn) (s : Recycler)
      → t.stop ≡ true
      → is_running (recycle_turns (before ++ t ∷ after) s).0 ≡ false
  unfolding recycle_turns
  recycle_turns-stop [] after t s e = rw e refl
  recycle_turns-stop (u ∷ before) after t s e = elim (Bool-cases u.stop) [
    | inl y ↦ rw y refl
    | inr n ↦ elim (Option-cases u.polled) [
      | inl p ↦ rw (n, p) refl
      | inr (records, p) ↦
          rw (n, p) (recycle_turns-stop before after t (pass u.fails u.now records s) e)
    ]
  ]
