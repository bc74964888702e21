-- ===== src/Kernel/Taken.antt =====
-- About `add_conn` of hyper-fast-path/src/fast_path.bpf.c: a dummy that was taken out of the queue of
-- free ones is lent, or put back.
use hyper_fast_path.Prelude.{
  ℕ, ◌+◌, ◌≤◌, Bool, true, false, ◌||◌, List, [], ◌∷◌, some, some_eq, ◌≡◌, refl, sym, ap, ◌==◌,
  ==_iff, if◌then◌else◌, arith, Bool-cases, inl, inr, ◌⊎◌,
}
use hyper_fast_path.Prelude.Bytes.{Bytes, bytes_eq, bytes_eq_iff}
use hyper_fast_path.Kernel.Lending.{
  Owner, Pool, Faults, lookup, delete, set_owner, entered, release, lend, add_conn,
}
use hyper_fast_path.Kernel.Lent.{
  hit, count, count_lent, count-append, count_lent-delete, found-counts, lookup-delete,
}
use hyper_fast_path.Kernel.Owned.{IsOwned}

-- A dummy was taken out of the maps.
record IsTaken (dummy : ℕ) (p : Pool) : Type 0 where
  once :
      (i : ℕ)
      → hit i dummy
          + (count i p.free_dummies + count_lent i p.conn_dummy + count i p.released_dummies)
        ≤ 1
  owned :
      (key : Bytes) (i : ℕ)
      → lookup key p.conn_dummy ≡ some i
      → p.dummy_owners i ≡ record { conn = key; active = true }

apart :
    (dummy : ℕ) (p : Pool) (key : Bytes) (i : ℕ)
    → IsTaken dummy p
    → lookup key p.conn_dummy ≡ some i
    → (i == dummy) ≡ false
apart dummy p key i w l = elim (Bool-cases (i == dummy)) [
  | inl e ↦ absurd (omega (arith, w.once i, hit_true i e, found-counts key i p.conn_dummy l))
  | inr e ↦ e
]
  where
    hit_true : (j : ℕ) → (j == dummy) ≡ true → hit j dummy ≡ 1
    hit_true j e = rw e refl

IsTaken-owner :
    (dummy : ℕ) (p : Pool) (owner : Owner) (key : Bytes) (i : ℕ)
    → IsTaken dummy p
    → lookup key p.conn_dummy ≡ some i
    → set_owner p.dummy_owners dummy owner i ≡ record { conn = key; active = true }
IsTaken-owner dummy p owner key i w l = rw (apart dummy p key i w l) (w.owned key i l)

-- The two updates leave no entry but the one that is to be deleted.
entered-lent :
    (f : Faults) (dummy : ℕ) (key : Bytes) (p : Pool) (i : ℕ)
    → count_lent i (delete key (entered f dummy key p).conn_dummy) ≤ count_lent i p.conn_dummy
unfolding delete
entered-lent f dummy key p i = elim (Bool-cases (f.owner_fails || f.conn_fails)) [
  | inl e ↦ rw e (count_lent-delete i key p.conn_dummy)
  | inr e ↦
      rw (e, (bytes_eq_iff key key).1 refl)
        (omega (
          arith,
          count_lent-delete i key p.conn_dummy,
          count_lent-delete i key (delete key p.conn_dummy),
        ))
]

entered-lookup :
    (f : Faults) (dummy : ℕ) (key k : Bytes) (p : Pool) (i : ℕ)
    → lookup k (delete key (entered f dummy key p).conn_dummy) ≡ some i
    → lookup k p.conn_dummy ≡ some i
unfolding delete
entered-lookup f dummy key k p i = elim (Bool-cases (f.owner_fails || f.conn_fails)) [
  | inl e ↦ rw e (λ l. (lookup-delete k key i p.conn_dummy l).1)
  | inr e ↦
      rw (e, (bytes_eq_iff key key).1 refl)
        (λ l.
          (lookup-delete k key i p.conn_dummy
            (lookup-delete k key i (delete key p.conn_dummy) l).1).1)
]

-- The dummy's owner does not matter, whatever of the calls fails.
released-owner :
    (f : Faults) (dummy : ℕ) (p : Pool) (active idle : Owner) (key : Bytes) (i : ℕ)
    → IsTaken dummy p
    → lookup key p.conn_dummy ≡ some i
    → (if f.disown_fails
          then if f.owner_fails then p.dummy_owners else set_owner p.dummy_owners dummy active
          else set_owner
              (if f.owner_fails then p.dummy_owners else set_owner p.dummy_owners dummy active)
              dummy
              idle)
        i
      ≡ record { conn = key; active = true }
released-owner f dummy p active idle key i w l = elim (Bool-cases f.disown_fails) [
  | inl d ↦ elim (Bool-cases f.owner_fails) [
    | inl o ↦ rw (d, o) (w.owned key i l)
    | inr o ↦ rw (d, o) (IsTaken-owner dummy p active key i w l)
  ]
  | inr d ↦ elim (Bool-cases f.owner_fails) [
    | inl o ↦ rw (d, o) (IsTaken-owner dummy p idle key i w l)
    | inr o ↦ rw (d, o, apart dummy p key i w l) (w.owned key i l)
  ]
]

release-IsOwned :
    (f : Faults) (dummy : ℕ) (key : Bytes) (p : Pool)
    → f.delete_fails ≡ false
    → IsTaken dummy p
    → IsOwned (release f dummy key (entered f dummy key p))
release-IsOwned f dummy key p deletes w = record {
  once = λ i. elim (Bool-cases f.push_fails) [
    | inl e ↦ rw (e, deletes) (omega (arith, w.once i, entered-lent f dummy key p i))
    | inr e ↦
        rw (e, deletes)
          (omega (
            arith,
            w.once i,
            entered-lent f dummy key p i,
            count-append i p.free_dummies (dummy ∷ []),
          ))
  ];
  owned =
      rw deletes (λ k i l. released-owner f dummy p _ _ k i w (entered-lookup f dummy key k p i l));
}

or_false : (a b : Bool) → (a || b) ≡ false → (a ≡ false) × (b ≡ false)
or_false a b e = (ground arith, ground arith)

lend-IsOwned :
    (f : Faults) (dummy : ℕ) (key : Bytes) (p : Pool)
    → f.delete_fails ≡ false
    → IsTaken dummy p
    → IsOwned (lend f dummy key p)
unfolding lookup
lend-IsOwned f dummy key p deletes w =
    elim (Bool-cases ((f.owner_fails || f.conn_fails) || (f.flags_fail || f.sock_fails))) [
      | inl e ↦ rw e (release-IsOwned f dummy key p deletes w)
      | inr e ↦
          let tried : (f.owner_fails || f.conn_fails) ≡ false =
            (or_false (f.owner_fails || f.conn_fails) (f.flags_fail || f.sock_fails) e).0 in
          let owned : f.owner_fails ≡ false = (or_false f.owner_fails f.conn_fails tried).0 in
          rw (e, tried, owned)
            (record {
              once = λ i. omega (arith, w.once i, count_lent-delete i key p.conn_dummy);
              owned = λ k i. owner k i (Bool-cases (bytes_eq k key));
            })
    ]
  where
    owner :
        (k : Bytes) (i : ℕ)
        → (bytes_eq k key ≡ true) ⊎ (bytes_eq k key ≡ false)
        → (if bytes_eq k key then some dummy else lookup k (delete key p.conn_dummy)) ≡ some i
        → set_owner p.dummy_owners dummy (record { conn = key; active = true }) i
          ≡ record { conn = k; active = true }
    owner k i (inl e) = rw e (λ l.
        rw (← some_eq dummy i l, (==_iff dummy dummy).1 refl)
          (ap (λ (c : Bytes). record { conn = c; active = true }) (sym ((bytes_eq_iff k key).0 e))))
    owner k i (inr e) =
        rw e (λ l. IsTaken-owner dummy p _ k i w (lookup-delete k key i p.conn_dummy l).1)

pub add_conn-IsOwned :
    (f : Faults) (key : Bytes) (p : Pool)
    → f.delete_fails ≡ false
    → IsOwned p
    → IsOwned (add_conn f key p)
unfolding add_conn
add_conn-IsOwned f key p deletes w = popped p.free_dummies refl
  where
    popped :
        (free : List ℕ)
        → p.free_dummies ≡ free
        → IsOwned (elim free [
          | [] ↦ p
          | dummy ∷ rest ↦ lend f dummy key (record p { free_dummies = rest })
        ])
    popped [] e = w
    popped (dummy ∷ rest) e =
        lend-IsOwned f dummy key (record p { free_dummies = rest }) deletes
          (record { once = λ i. omega (arith, w.once i, ap (count i) e); owned = w.owned })
