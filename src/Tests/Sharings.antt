-- ===== src/Tests/Sharings.antt =====
-- The thread of hyper-fast-path/src/dummies.rs and the callbacks of hyper-fast-path/src/fast_path.bpf.c
-- on a pool of two dummies.
use native.Mathlib.Omega.{arith}
use hyper_fast_path.Prelude.{ℕ, Bool, true, false, List, [], ◌∷◌, Option, none, some, ◌≡◌, refl}
use hyper_fast_path.Prelude.Bytes.{Bytes, codes, bytes_eq}
use hyper_fast_path.Dummies.Pool.{Rlimit, raise_fd_limit, to_ne_bytes}
use hyper_fast_path.Dummies.Recycling.{
  Dummy, DummyMaps, Call, reset_dummy, reset, recycle, fill, new,
}
use hyper_fast_path.Dummies.Recycler.{read_idx, receive, receive_all, pass}
use hyper_fast_path.Dummies.Sharing.{
  Machine, view, recycler_of, resumed, MachineReaches, at_once, and_then, calls, recycles,
}
use hyper_fast_path.Dummies.Interleaving.{MachineReaches-Carries}
use hyper_fast_path.Kernel.Lending.{
  Pool, Faults, no_conn, lookup, delete, add_conn, remove_conn, Callback, established, changed,
  monitor_sockets, skb_verdict,
}
use hyper_fast_path.Kernel.Ownership.{Carries}

abbrev pub no_faults : Faults
no_faults = record {
  owner_fails = false;
  conn_fails = false;
  flags_fail = false;
  sock_fails = false;
  delete_fails = false;
  disown_fails = false;
  push_fails = false;
  output_fails = false;
}

abbrev pub fresh : Pool
fresh = record {
  free_dummies = 0 ∷ 1 ∷ [];
  conn_dummy = [];
  dummy_owners = λ i. record { conn = []; active = false };
  released_dummies = [];
  sock_map = λ key. false;
  conns = λ key. no_conn;
}

abbrev sound : Call → Bool
sound c = false

abbrev limit : Rlimit
limit = record { rlim_cur = 1024; rlim_max = 4096 }

abbrev opens : ℕ → Option Dummy
opens idx = some (record { sender = idx; key = idx ∷ [] })

abbrev maps : DummyMaps
maps = record {
  dummy_map = λ i. none;
  dummy_idx = λ k. none;
  free_dummies = [];
  dynamic_table_info = λ k. false;
}

abbrev or_nothing : Option (List Dummy × DummyMaps) → List Dummy × DummyMaps
or_nothing none = ([], maps)
or_nothing (some r) = r

abbrev set_up : List Dummy × DummyMaps
set_up = or_nothing (new sound (some limit) (λ l. true) opens 2 maps)

abbrev opened : Machine
opened = record { pool = fresh; maps = set_up.1; queue = [] }

abbrev call : Callback → Bytes → Machine → Machine
call c key m = record m { pool = monitor_sockets 0 80 no_faults c key m.pool }

abbrev closed : Machine
closed = call (changed true) (codes "a") (call (established 7 80) (codes "a") opened)

-- The thread learns of dummy 0 at 10 and passes over it at 200.
abbrev recycled : Machine
recycled =
    resumed closed [] (pass set_up.0 sound 200 ((10, to_ne_bytes 0) ∷ []) (recycler_of closed))

abbrev last : Machine
last = call (established 7 80) (codes "c") (call (established 7 80) (codes "b") recycled)

opened-last : MachineReaches 0 80 set_up.0 opened last
unfolding monitor_sockets add_conn remove_conn lookup delete bytes_eq new fill raise_fd_limit pass
    receive_all receive read_idx to_ne_bytes recycle reset reset_dummy
opened-last =
    and_then
      (and_then
        (and_then
          (and_then
            (and_then (at_once opened) (calls no_faults (established 7 80) (codes "a") opened refl))
            (calls no_faults (changed true) (codes "a") (call (established 7 80) (codes "a") opened)
              refl))
          (recycles sound 200 ((10, to_ne_bytes 0) ∷ []) (0 ∷ []) [] closed refl
            (omega arith, refl, tt)))
        (calls no_faults (established 7 80) (codes "b") recycled refl))
      (calls no_faults (established 7 80) (codes "c") (call (established 7 80) (codes "b") recycled)
        refl)

MachineReaches-Carries_example : (codes "c" ≡ codes "c") × Carries (view last) 0 (codes "c")
unfolding monitor_sockets add_conn remove_conn lookup delete bytes_eq new fill raise_fd_limit pass
    receive_all receive read_idx to_ne_bytes recycle reset reset_dummy skb_verdict
MachineReaches-Carries_example =
    MachineReaches-Carries 0 80 2 sound (some limit) (λ l. true) opens maps set_up.1 set_up.0 opened
      last (codes "c") (codes "c") 5 9 0 refl refl
      (record { free_eq = refl; lent_eq = refl; released_eq = refl; queue_eq = refl }) opened-last
      refl refl
