-- ===== src/Kernel/Owned.antt =====
-- About `remove_conn` of hyper-fast-path/src/fast_path.bpf.c.
use hyper_fast_path.Prelude.{
  ℕ, ◌+◌, ◌≤◌, true, false, [], ◌∷◌, none, some, ◌≡◌, sym, ap, ◌∙◌, ◌==◌, ==_iff, arith, Bool-cases,
  Option-cases, inl, inr, ◌⊎◌,
}
use hyper_fast_path.Prelude.Bytes.{Bytes, bytes_eq, bytes_eq_iff}
use hyper_fast_path.Kernel.Lending.{Owner, Pool, Faults, lookup, take_back, remove_conn}
use hyper_fast_path.Kernel.Lent.{
  count, count_lent, count-append, count_lent-delete, count_lent-found, lookup-delete,
}

-- Every dummy is in one place at most, and the one that a connection was lent is that connection's.
pub record IsOwned (p : Pool) : Type 0 where
  pub once :
      (i : ℕ) → count i p.free_dummies + count_lent i p.conn_dummy + count i p.released_dummies ≤ 1
  pub owned :
      (key : Bytes) (i : ℕ)
      → lookup key p.conn_dummy ≡ some i
      → p.dummy_owners i ≡ record { conn = key; active = true }

-- A connection's dummy is not another's.
IsOwned-apart :
    (p : Pool) (k key : Bytes) (i dummy : ℕ)
    → IsOwned p
    → lookup key p.conn_dummy ≡ some dummy
    → lookup k p.conn_dummy ≡ some i
    → bytes_eq k key ≡ false
    → (i == dummy) ≡ false
IsOwned-apart p k key i dummy w a b n = elim (Bool-cases (i == dummy)) [
  | inl e ↦ absurd (
      differ (
        ap (λ (o : Owner). o.conn)
          (sym (w.owned k i b) ∙ ap p.dummy_owners ((==_iff i dummy).0 e) ∙ w.owned key dummy a)))
  | inr e ↦ e
]
  where
    differ : k ≡ key → ⊥
    differ e = ground (arith, n, (bytes_eq_iff k key).1 e)

pub remove_conn-IsOwned :
    (f : Faults) (key : Bytes) (p : Pool)
    → f.delete_fails ≡ false
    → IsOwned p
    → IsOwned (remove_conn f key p)
unfolding remove_conn
remove_conn-IsOwned f key p deletes w = found (Option-cases (lookup key p.conn_dummy))
  where
    taken_back :
        (dummy : ℕ) → lookup key p.conn_dummy ≡ some dummy → IsOwned (take_back f dummy key p)
    taken_back dummy l = record {
      once = λ i. elim (Bool-cases f.output_fails) [
        | inl e ↦ rw (e, deletes) (omega (arith, w.once i, count_lent-delete i key p.conn_dummy))
        | inr e ↦
            rw (e, deletes)
              (omega (
                arith,
                w.once i,
                count_lent-found i dummy key p.conn_dummy l,
                count-append i p.released_dummies (dummy ∷ []),
              ))
      ];
      owned = rw deletes (λ k i m.
          let b = lookup-delete k key i p.conn_dummy m in
          elim (Bool-cases f.disown_fails) [
            | inl d ↦ rw d (w.owned k i b.1)
            | inr d ↦ rw (d, IsOwned-apart p k key i dummy w l b.1 b.0) (w.owned k i b.1)
          ]);
    }

    found :
        (lookup key p.conn_dummy ≡ none) ⊎ ((dummy : ℕ) × (lookup key p.conn_dummy ≡ some dummy))
        → IsOwned (remove_conn f key p)
    found (inl e) = rw (remove_conn, e) w
    found (inr (dummy, e)) = rw (remove_conn, e) (taken_back dummy e)
