-- ===== src/Server/Contract.antt =====
-- What the handler of hyper-fast-path/src/server.rs relies on in the h2 crate, and what its loops over
-- the handles give the codec.
use native.Mathlib.Nat.{add-zero}
use hyper_fast_path.Prelude.{
  lt→ltb, some_eq, ℕ, zero, suc, ◌+◌, List, [], ◌∷◌, ◌++◌, some, ◌≡◌, refl, ap, ◌∙◌, Option-cases,
  inl, inr, append_assoc, arith, map,
}
use hyper_fast_path.Prelude.Bytes.{Bytes}
use hyper_fast_path.Listener.Stream.{BeeperStream}
use hyper_fast_path.Listener.Session.{Handed}
use hyper_fast_path.Listener.Schedule.{poll, run}
use hyper_fast_path.Server.Turns.{Codec, account, prime}

-- What the handler relies on in the h2 crate: `seen` says what a codec was given of the stream, a
-- call that succeeds adds its argument to that, and `poll_accept` uses the stream only by
-- polling it.
pub record Documented {C R : Type 0} (h2 : Codec C R) : Type 1 where
  pub seen : C → Handed
  pub counts :
      (c c' : C) (n : ℕ)
      → h2.consume_send_capacity c n ≡ some c'
      → seen c' ≡ record (seen c) { served = (seen c).served + n }
  pub primes :
      (c c' : C) (block : Bytes)
      → h2.prime_dynamic_table c block ≡ some c'
      → seen c' ≡ record (seen c) { updates = (seen c).updates ++ block ∷ [] }
  pub polls :
      (c : C) (me : BeeperStream)
      → (rooms : List ℕ) × (run (record { handed = seen c; stream = me }) (map poll rooms)
          ≡ record { handed = seen (h2.poll_accept c me).1; stream = (h2.poll_accept c me).2 })

module _ {C R : Type 0} (h2 : Codec C R) (doc : Documented h2) where
  pub account_seen :
      (sent : ℕ) (c c' : C)
      → account h2 sent c ≡ some c'
      → doc.seen c' ≡ record (doc.seen c) { served = (doc.seen c).served + sent }
  unfolding account
  account_seen zero c c' e = rw (add-zero, ← some_eq c c' e) refl
  account_seen (suc n) c c' e = doc.counts c c' (suc n) (rw (lt→ltb 0 (suc n) (omega arith)) at e)

  -- Whatever is left of the updates, the codec has the others.
  pub prime_seen :
      (blocks : List Bytes) (c : C)
      → record (doc.seen (prime h2 blocks c).1) {
        updates = (doc.seen (prime h2 blocks c).1).updates ++ (prime h2 blocks c).0;
      }
        ≡ record (doc.seen c) { updates = (doc.seen c).updates ++ blocks }
  unfolding prime
  prime_seen [] c = refl
  prime_seen (b ∷ bs) c = elim (Option-cases (h2.prime_dynamic_table c b)) [
    | inl n ↦ rw (prime, n) refl
    | inr (d, f) ↦
        rw (prime, f)
          (prime_seen bs d
            ∙ ap (λ (h : Handed). record h { updates = h.updates ++ bs }) (doc.primes c d b f)
            ∙ rw append_assoc refl)
  ]
