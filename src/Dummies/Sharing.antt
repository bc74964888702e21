-- ===== src/Dummies/Sharing.antt =====
-- The dummies between hyper-fast-path/src/dummies.rs and hyper-fast-path/src/fast_path.bpf.c: the
-- thread of `DummyPool` takes the released dummies out of the ring buffer that `remove_conn` fills,
-- and puts them back into the queue of free ones that `add_conn` takes them from.
use hyper_fast_path.Prelude.{
  ℕ, ◌+◌, ◌*◌, ◌/◌, ◌%◌, ◌^◌, ◌<◌, ◌≡◌, refl, sym, ap, ◌∙◌, arith, Bool, false, List, [], ◌∷◌, ◌++◌,
  map, append_assoc, append-nil, some,
}
use hyper_fast_path.Prelude.Bytes.{Bytes}
use hyper_fast_path.Dummies.Pool.{to_ne_bytes}
use hyper_fast_path.Dummies.Recycling.{Dummy, DummyMaps, Call}
use hyper_fast_path.Dummies.Resets.{IsPass, stops, lost, kept}
use hyper_fast_path.Dummies.Recycler.{Recycler, read_idx, receive, receive_all, pass}
use hyper_fast_path.Kernel.Lending.{
  Pool, Faults, Callback, monitor_sockets, Step, puts_back, loses, Reaches, here, then_step,
}

-- The eBPF program's maps, the maps of user space alone, and the queue of its thread. The dummies that
-- are free stand in `pool`, and those in the ring buffer are its `released_dummies`.
pub record Machine : Type 0 where
  pub pool : Pool
  pub maps : DummyMaps
  pub queue : List (ℕ × ℕ)

abbrev pub firsts : List (ℕ × ℕ) → List ℕ
firsts queue = map (λ r. r.0) queue

-- A pool with these dummies free and these released.
abbrev pub with_dummies : List ℕ → List ℕ → Pool → Pool
with_dummies free released p = record p { free_dummies = free; released_dummies = released }

-- The maps as the eBPF program's own model has them: the thread's queue is the front of the ring.
abbrev pub view : Machine → Pool
view m = with_dummies m.pool.free_dummies (firsts m.queue ++ m.pool.released_dummies) m.pool

-- What the thread finds.
abbrev pub recycler_of : Machine → Recycler
recycler_of m = record {
  maps = record m.maps { free_dummies = m.pool.free_dummies };
  queue = m.queue;
}

-- What the thread leaves, with the rest of the ring buffer.
abbrev pub resumed : Machine → List ℕ → Recycler → Machine
resumed m rest s = record {
  pool = with_dummies s.maps.free_dummies rest m.pool;
  maps = s.maps;
  queue = s.queue;
}

-- The ring buffer's records carry these dummies.
abbrev pub Carry : List (ℕ × Bytes) → List ℕ → Type 0
Carry [] [] = Unit {0}
Carry ((now, bytes) ∷ records) (idx ∷ ids) =
    (idx < 2 ^ 32) × (bytes ≡ to_ne_bytes idx) × Carry records ids
Carry _ _ = ⊥

-- A callback of the kernel, or a turn of the thread that takes the first records of the ring
-- buffer; which calls fail is another matter in each of them. The kernel deletes an entry of a map
-- that is there.
pub data MachineStep (ip4 port : ℕ) (dummies : List Dummy) : Machine → Machine → Type 0 where
  calls :
      (f : Faults) (c : Callback) (key : Bytes) (m : Machine)
      → f.delete_fails ≡ false
      → MachineStep ip4 port dummies m (record m { pool = monitor_sockets ip4 port f c key m.pool })
  recycles :
      (fails : Call → Bool) (now : ℕ) (records : List (ℕ × Bytes)) (ids rest : List ℕ) (m : Machine)
      → m.pool.released_dummies ≡ ids ++ rest
      → Carry records ids
      → MachineStep ip4 port dummies m
          (resumed m rest (pass dummies fails now records (recycler_of m)))

pub data MachineReaches (ip4 port : ℕ) (dummies : List Dummy) : Machine → Machine → Type 0 where
  at_once : (m : Machine) → MachineReaches ip4 port dummies m m
  and_then :
      {m n o : Machine}
      → MachineReaches ip4 port dummies m n
      → MachineStep ip4 port dummies n o
      → MachineReaches ip4 port dummies m o

pub Reaches-trans :
    (ip4 port : ℕ) (p q r : Pool)
    → Reaches ip4 port p q
    → Reaches ip4 port q r
    → Reaches ip4 port p r
Reaches-trans ip4 port p q _ a (here _) = a
Reaches-trans ip4 port p q r a (then_step {q = m} b s) =
    then_step (Reaches-trans ip4 port p q m a b) s

Reaches-first :
    (ip4 port : ℕ) (p q r : Pool) → Step ip4 port p q → Reaches ip4 port q r → Reaches ip4 port p r
Reaches-first ip4 port p q r s a = Reaches-trans ip4 port p q r (then_step (here p) s) a

-- A pass of the thread is a sequence of steps, each of which puts a dummy back or loses it.
pub IsPass-Reaches :
    (ip4 port now : ℕ) (fails : Call → Bool) (dummies : List Dummy) (q q' : List (ℕ × ℕ))
    (maps after : DummyMaps) (rest : List ℕ) (p : Pool)
    → IsPass fails dummies now q q' maps after
    → Reaches ip4 port
        (with_dummies maps.free_dummies (firsts q ++ rest) p)
        (with_dummies after.free_dummies (firsts q' ++ rest) p)
IsPass-Reaches ip4 port now fails dummies q _ maps _ rest p (stops i) = here _
IsPass-Reaches ip4 port now fails dummies _ q' maps after rest p
      (lost {idx = idx} {released = released} {between = between} a r e s) =
    Reaches-first ip4 port _ _ _
      (loses idx (firsts released ++ rest)
        (with_dummies maps.free_dummies (idx ∷ firsts released ++ rest) p) refl)
      (rw e at (IsPass-Reaches ip4 port now fails dummies released q' between after rest p s))
IsPass-Reaches ip4 port now fails dummies _ q' maps after rest p
      (kept {idx = idx} {released = released} {between = between} a r e s) =
    Reaches-first ip4 port _ _ _
      (puts_back idx (firsts released ++ rest)
        (with_dummies maps.free_dummies (idx ∷ firsts released ++ rest) p) refl)
      (rw e at (IsPass-Reaches ip4 port now fails dummies released q' between after rest p s))

read_idx-to_ne_bytes : (idx : ℕ) → idx < 2 ^ 32 → read_idx (to_ne_bytes idx) ≡ some idx
unfolding read_idx to_ne_bytes
read_idx-to_ne_bytes idx h =
    ap some
      {x = idx % 256
        + (idx / 256) % 256 * 256
        + (idx / 65536) % 256 * 65536
        + (idx / 16777216) % 256 * 16777216}
      {y = idx} (omega (arith, h))

firsts-append : (q r : List (ℕ × ℕ)) → firsts (q ++ r) ≡ firsts q ++ firsts r
firsts-append [] r = refl
firsts-append (x ∷ q) r = ap (◌∷◌ x.0) (firsts-append q r)

-- The thread learns of the dummies in the order of the ring buffer.
pub receive_all-firsts :
    (records : List (ℕ × Bytes)) (ids : List ℕ) (queue : List (ℕ × ℕ))
    → Carry records ids
    → firsts (receive_all records queue) ≡ firsts queue ++ ids
unfolding receive_all receive
receive_all-firsts [] [] queue c = sym (append-nil (firsts queue))
receive_all-firsts [] (idx ∷ ids) queue c = absurd c
receive_all-firsts ((now, bytes) ∷ records) [] queue c = absurd c
receive_all-firsts ((now, bytes) ∷ records) (idx ∷ ids) queue (l, e, c) =
    rw (e, receive, read_idx-to_ne_bytes idx l)
      (receive_all-firsts records ids (queue ++ (idx, now) ∷ []) c
        ∙ ap (λ fs. fs ++ ids) (firsts-append queue ((idx, now) ∷ []))
        ∙ append_assoc (firsts queue) (idx ∷ []) ids)
