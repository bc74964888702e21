-- ===== src/Dummies/Interleaving.antt =====
-- Interleavings of the callbacks of hyper-fast-path/src/fast_path.bpf.c with the turns of the
-- thread of hyper-fast-path/src/dummies.rs.
use hyper_fast_path.Prelude.{
  ℕ, ◌≡◌, refl, sym, ap, ◌∙◌, Bool, true, false, ◌||◌, ◌&&◌, List, [], ◌∷◌, ◌++◌, append_assoc,
  Option, some, ◌==◌, Bool-cases, Option-cases, inl, inr,
}
use hyper_fast_path.Prelude.Bytes.{Bytes}
use hyper_fast_path.Dummies.Pool.{Rlimit}
use hyper_fast_path.Dummies.Recycling.{Dummy, DummyMaps, Call, numbers, new}
use hyper_fast_path.Dummies.Resets.{recycle-IsPass}
use hyper_fast_path.Dummies.Filling.{IsFilled, new-IsFilled}
use hyper_fast_path.Dummies.Recycler.{receive_all, pass}
use hyper_fast_path.Kernel.Lending.{
  Pool, Faults, Callback, established, changed, other, lookup, lend, take_back, add_conn,
  remove_conn, monitor_sockets, calls_back, Reaches, here, then_step, sent_on, skb_verdict,
}
use hyper_fast_path.Kernel.Ownership.{IsFresh, Carries, skb_verdict-Carries}
use hyper_fast_path.Dummies.Sharing.{
  Machine, view, firsts, recycler_of, resumed, Carry, MachineStep, calls, recycles, MachineReaches,
  at_once, and_then, Reaches-trans, IsPass-Reaches, receive_all-firsts,
}

-- More released dummies in front.
abbrev ahead : List ℕ → Pool → Pool
ahead ids p = record p { released_dummies = ids ++ p.released_dummies }

lend-ahead :
    (ids : List ℕ) (f : Faults) (dummy : ℕ) (key : Bytes) (p : Pool)
    → lend f dummy key (ahead ids p) ≡ ahead ids (lend f dummy key p)
lend-ahead ids f dummy key p =
    elim (Bool-cases ((f.owner_fails || f.conn_fails) || (f.flags_fail || f.sock_fails))) [
      | inl e ↦ rw e refl
      | inr e ↦ rw e refl
    ]

add_conn-ahead :
    (ids : List ℕ) (f : Faults) (key : Bytes) (p : Pool)
    → add_conn f key (ahead ids p) ≡ ahead ids (add_conn f key p)
unfolding add_conn
add_conn-ahead ids f key p = popped p.free_dummies
  where
    popped :
        (free : List ℕ)
        → ◌≡◌ {A = Pool}
            (elim free [
              | [] ↦ ahead ids p
              | dummy ∷ rest ↦ lend f dummy key (record (ahead ids p) { free_dummies = rest })
            ])
            (ahead ids (elim free [
              | [] ↦ p
              | dummy ∷ rest ↦ lend f dummy key (record p { free_dummies = rest })
            ]))
    popped [] = refl
    popped (dummy ∷ rest) = lend-ahead ids f dummy key (record p { free_dummies = rest })

take_back-ahead :
    (ids : List ℕ) (f : Faults) (dummy : ℕ) (key : Bytes) (p : Pool)
    → take_back f dummy key (ahead ids p) ≡ ahead ids (take_back f dummy key p)
take_back-ahead ids f dummy key p = elim (Bool-cases f.output_fails) [
  | inl e ↦ rw e refl
  | inr e ↦ rw (e, append_assoc ids p.released_dummies (dummy ∷ [])) refl
]

remove_conn-ahead :
    (ids : List ℕ) (f : Faults) (key : Bytes) (p : Pool)
    → remove_conn f key (ahead ids p) ≡ ahead ids (remove_conn f key p)
unfolding remove_conn
remove_conn-ahead ids f key p = elim (Option-cases (lookup key p.conn_dummy)) [
  | inl e ↦ rw (remove_conn, e) refl
  | inr (dummy, e) ↦ rw (remove_conn, e) (take_back-ahead ids f dummy key p)
]

-- The program's callbacks do not look at the released dummies.
monitor_sockets-ahead :
    (ip4 port : ℕ) (ids : List ℕ) (f : Faults) (c : Callback) (key : Bytes) (p : Pool)
    → monitor_sockets ip4 port f c key (ahead ids p)
      ≡ ahead ids (monitor_sockets ip4 port f c key p)
unfolding monitor_sockets
monitor_sockets-ahead ip4 port ids f other key p = refl
monitor_sockets-ahead ip4 port ids f (changed true) key p = remove_conn-ahead ids f key p
monitor_sockets-ahead ip4 port ids f (changed false) key p = refl
monitor_sockets-ahead ip4 port ids f (established a b) key p =
    elim (Bool-cases ((ip4 == 0 || a == ip4) && b == port)) [
      | inl e ↦ rw e (add_conn-ahead ids f key p)
      | inr e ↦ rw e refl
    ]

module _ (ip4 port : ℕ) (dummies : List Dummy) where
  recycles-Reaches :
      (fails : Call → Bool) (now : ℕ) (records : List (ℕ × Bytes)) (ids rest : List ℕ) (m : Machine)
      → m.pool.released_dummies ≡ ids ++ rest
      → Carry records ids
      → Reaches ip4 port
          (view m)
          (view (resumed m rest (pass dummies fails now records (recycler_of m))))
  unfolding pass
  recycles-Reaches fails now records ids rest m e c = rw source at (
      IsPass-Reaches ip4 port now fails dummies (receive_all records m.queue) _ (recycler_of m).maps
        _ rest m.pool
        (recycle-IsPass fails dummies now (receive_all records m.queue) (recycler_of m).maps))
    where
      source :
          firsts (receive_all records m.queue) ++ rest ≡ firsts m.queue ++ m.pool.released_dummies
      source =
          ap (λ x. x ++ rest) (receive_all-firsts records ids m.queue c)
          ∙ append_assoc (firsts m.queue) ids rest
          ∙ ap (λ x. firsts m.queue ++ x) (sym e)

  -- A step of the two is any number of steps of the eBPF program's own model.
  MachineStep-Reaches :
      (m n : Machine) → MachineStep ip4 port dummies m n → Reaches ip4 port (view m) (view n)
  MachineStep-Reaches m _ (calls f c key _ deletes) =
      let s : Reaches ip4 port (view m) (monitor_sockets ip4 port f c key (view m)) =
        then_step (here (view m)) (calls_back f c key (view m) deletes) in
      rw (monitor_sockets-ahead ip4 port (firsts m.queue) f c key m.pool) at s
  MachineStep-Reaches m _ (recycles fails now records ids rest _ e c) =
      recycles-Reaches fails now records ids rest m e c

  -- Whatever the callbacks and the turns of the thread do, in whatever order, the eBPF program's own
  -- model does in steps that open and close connections and put released dummies back or lose them;
  -- in it, the thread's queue is the front of the ring buffer.
  pub MachineReaches-Reaches :
      (m n : Machine) → MachineReaches ip4 port dummies m n → Reaches ip4 port (view m) (view n)
  MachineReaches-Reaches m _ (at_once _) = here (view m)
  MachineReaches-Reaches m n (and_then {n = o} r s) =
      Reaches-trans ip4 port (view m) (view o) (view n) (MachineReaches-Reaches m o r)
        (MachineStep-Reaches o n s)

-- What `DummyPool::new` leaves, before the program has lent a dummy.
pub record IsOpened (maps : DummyMaps) (m : Machine) : Type 0 where
  pub free_eq : m.pool.free_dummies ≡ maps.free_dummies
  pub lent_eq : m.pool.conn_dummy ≡ []
  pub released_eq : m.pool.released_dummies ≡ []
  pub queue_eq : m.queue ≡ []

IsOpened-IsFresh :
    (count : ℕ) (maps after : DummyMaps) (ds : List Dummy) (m : Machine)
    → maps.free_dummies ≡ []
    → IsFilled 0 count maps (some (ds, after))
    → IsOpened after m
    → IsFresh count (view m)
IsOpened-IsFresh count maps after ds m e f o = record {
  free_eq = o.free_eq ∙ f.1.0 ∙ ap (λ x. x ++ numbers 0 count) e;
  lent_eq = o.lent_eq;
  released_eq = ap (λ q. firsts q ++ m.pool.released_dummies) o.queue_eq ∙ o.released_eq;
}

-- From what `DummyPool::new` leaves when it succeeds on empty maps, whatever connections open and
-- close and whatever the thread is handed by the ring buffer and at which times, whichever calls
-- fail each time, but that the eBPF program can delete an entry of conn_dummy which is there: if
-- the bytes of two connections are sent on the same dummy, they are the same connection; and the
-- dummy's owner is that connection, active, and the dummy is neither free nor in the ring buffer
-- nor in the thread's queue.
pub MachineReaches-Carries :
    (ip4 port count : ℕ) (fails : Call → Bool) (limit : Option Rlimit) (setrlimit : Rlimit → Bool)
    (opens : ℕ → Option Dummy) (maps after : DummyMaps) (ds : List Dummy) (m n : Machine)
    (k1 k2 : Bytes) (len1 len2 i : ℕ)
    → maps.free_dummies ≡ []
    → new fails limit setrlimit opens count maps ≡ some (ds, after)
    → IsOpened after m
    → MachineReaches ip4 port ds m n
    → skb_verdict n.pool k1 len1 ≡ sent_on i
    → skb_verdict n.pool k2 len2 ≡ sent_on i
    → (k1 ≡ k2) × Carries (view n) i k1
unfolding skb_verdict
MachineReaches-Carries ip4 port count fails limit setrlimit opens maps after ds m n k1 k2 len1 len2
      i e u o r =
    skb_verdict-Carries ip4 port count (view m) (view n) k1 k2 len1 len2 i
      (IsOpened-IsFresh count maps after ds m e
        (rw u at (new-IsFilled fails limit setrlimit opens count maps)) o)
      (MachineReaches-Reaches ip4 port ds m n r)
