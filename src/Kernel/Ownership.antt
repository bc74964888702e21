-- ===== src/Kernel/Ownership.antt =====
-- About which connection a dummy is lent to by hyper-fast-path/src/fast_path.bpf.c.
use hyper_fast_path.Prelude.{
  ℕ, zero, suc, ◌+◌, ◌≤◌, ◌<◌, true, false, ◌||◌, ◌&&◌, [], ◌∷◌, Option, none, some, none-some, ◌≡◌,
  refl, sym, ap, ◌∙◌, ◌==◌, arith, Bool-cases, inl, inr,
}
use hyper_fast_path.Prelude.Bytes.{Bytes}
use hyper_fast_path.Kernel.Lending.{
  Owner, Pool, Faults, lookup, Callback, established, changed, other, monitor_sockets, Step,
  calls_back, puts_back, loses, Reaches, here, then_step, SkbVerdict, skb_dropped, skb_passed,
  sent_on, skb_verdict_on, skb_verdict,
}
use hyper_fast_path.Dummies.Recycling.{numbers}
use hyper_fast_path.Kernel.Lent.{count, count-append, found-counts}
use hyper_fast_path.Kernel.Owned.{IsOwned, remove_conn-IsOwned}
use hyper_fast_path.Kernel.Taken.{add_conn-IsOwned}

monitor_sockets-IsOwned :
    (ip4 port : ℕ) (f : Faults) (c : Callback) (key : Bytes) (p : Pool)
    → f.delete_fails ≡ false
    → IsOwned p
    → IsOwned (monitor_sockets ip4 port f c key p)
unfolding monitor_sockets
monitor_sockets-IsOwned ip4 port f other key p deletes w = w
monitor_sockets-IsOwned ip4 port f (changed true) key p deletes w =
    remove_conn-IsOwned f key p deletes w
monitor_sockets-IsOwned ip4 port f (changed false) key p deletes w = w
monitor_sockets-IsOwned ip4 port f (established a b) key p deletes w =
    elim (Bool-cases ((ip4 == 0 || a == ip4) && b == port)) [
      | inl e ↦ rw e (add_conn-IsOwned f key p deletes w)
      | inr e ↦ rw e w
    ]

pub Step-IsOwned : (ip4 port : ℕ) (p q : Pool) → Step ip4 port p q → IsOwned p → IsOwned q
Step-IsOwned ip4 port _ _ (calls_back f c key p deletes) w =
    monitor_sockets-IsOwned ip4 port f c key p deletes w
Step-IsOwned ip4 port _ _ (puts_back dummy rest p e) w = record {
  once = λ i. omega (arith, w.once i, ap (count i) e, count-append i p.free_dummies (dummy ∷ []));
  owned = w.owned;
}
Step-IsOwned ip4 port _ _ (loses dummy rest p e) w = record {
  once = λ i. omega (arith, w.once i, ap (count i) e);
  owned = w.owned;
}

Reaches-IsOwned : (ip4 port : ℕ) (p q : Pool) → Reaches ip4 port p q → IsOwned p → IsOwned q
Reaches-IsOwned ip4 port _ _ (here p) w = w
Reaches-IsOwned ip4 port p q (then_step {q = m} r s) w =
    Step-IsOwned ip4 port m q s (Reaches-IsOwned ip4 port p m r w)

-- The maps as user space fills them: every dummy is free, and none is lent or released.
pub record IsFresh (n : ℕ) (p : Pool) : Type 0 where
  pub free_eq : p.free_dummies ≡ numbers 0 n
  pub lent_eq : p.conn_dummy ≡ []
  pub released_eq : p.released_dummies ≡ []

count_numbers :
    (i idx n : ℕ) → (count i (numbers idx n) ≤ 1) × (i < idx → count i (numbers idx n) ≡ 0)
count_numbers i idx zero = (omega arith, λ l. refl)
count_numbers i idx (suc n) = elim (Bool-cases (i == idx)) [
  | inl e ↦ rw e (
    omega (arith, (count_numbers i (idx + 1) n).1 (ground (arith, e))),
    λ l. absurd (ground (arith, e, l)),
  )
  | inr e ↦ rw e (
    omega (arith, (count_numbers i (idx + 1) n).0),
    λ l. omega (arith, (count_numbers i (idx + 1) n).1 (omega (arith, l))),
  )
]

pub IsFresh-IsOwned : (n : ℕ) (p : Pool) → IsFresh n p → IsOwned p
unfolding lookup
IsFresh-IsOwned n p w = record {
  once = λ i. rw (w.free_eq, w.lent_eq, w.released_eq) (omega (arith, (count_numbers i 0 n).0));
  owned = λ k i l. absurd (none-some i (rw w.lent_eq at l));
}

abbrev sent_to : SkbVerdict → Option ℕ
sent_to skb_dropped = none
sent_to skb_passed = none
sent_to (sent_on i) = some i

pub sent_on_eq : (len i : ℕ) (o : Option ℕ) → skb_verdict_on len o ≡ sent_on i → o ≡ some i
sent_on_eq len i none e = ap {A = SkbVerdict} {B = Option ℕ} sent_to e
sent_on_eq len i (some j) e = elim (Bool-cases (len == 0)) [
  | inl z ↦ absurd (none-some i (ap sent_to (rw z at e)))
  | inr z ↦ ap sent_to (rw z at e)
]

-- What a dummy that carries a connection's bytes means.
pub record Carries (p : Pool) (i : ℕ) (key : Bytes) : Type 0 where
  pub owner : p.dummy_owners i ≡ record { conn = key; active = true }
  pub not_free : count i p.free_dummies ≡ 0
  pub not_released : count i p.released_dummies ≡ 0

-- From maps in which every dummy is free, whatever connections open and close, whichever calls fail
-- but the deletes and whichever released dummies are put back or lost: if the bytes of two
-- connections are sent on the same dummy, they are the same connection; and the dummy's owner is
-- that connection, active, and the dummy is neither free nor released.
pub skb_verdict-Carries :
    (ip4 port n : ℕ) (p q : Pool) (k1 k2 : Bytes) (len1 len2 i : ℕ)
    → IsFresh n p
    → Reaches ip4 port p q
    → skb_verdict q k1 len1 ≡ sent_on i
    → skb_verdict q k2 len2 ≡ sent_on i
    → (k1 ≡ k2) × Carries q i k1
unfolding skb_verdict
skb_verdict-Carries ip4 port n p q k1 k2 len1 len2 i w r e1 e2 =
    let o = Reaches-IsOwned ip4 port p q r (IsFresh-IsOwned n p w) in
    let l1 = sent_on_eq len1 i (lookup k1 q.conn_dummy) e1 in
    let l2 = sent_on_eq len2 i (lookup k2 q.conn_dummy) e2 in
    let lent = found-counts k1 i q.conn_dummy l1 in
    (
      ap (λ (z : Owner). z.conn) (sym (o.owned k1 i l1) ∙ o.owned k2 i l2),
      record {
        owner = o.owned k1 i l1;
        not_free = omega (arith, o.once i, lent);
        not_released = omega (arith, o.once i, lent);
      },
    )
