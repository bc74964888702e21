-- ===== src/FastPath/Attaching.antt =====
-- About how hyper-fast-path/src/fast_path.rs, `FastPath::attach`, ends.
use hyper_fast_path.Prelude.{
  ℕ, Bool, true, false, List, [], ◌∷◌, ◌++◌, Option, none, some, ◌≡◌, refl, sym, ap, replicate,
  Bool-cases, ◌⊎◌, inl, inr,
}
use hyper_fast_path.Prelude.Bytes.{Bytes}
use hyper_fast_path.FastPath.Render.{File}
use hyper_fast_path.FastPath.Attach.{
  Prepared, loaded, Result, ok, err, prepare, fill_routes, no_route, max_routes, index_updates,
}
use hyper_fast_path.FastPath.Loading.{
  LoadCall, Image, write_arena, open_skel, Ending, attached, unprepared, unresolved, no_address,
  bad_family, broke, Attaching, ip4_of, size_calls, load_calls, attach_calls, perform, attach_at,
  attach_prepared, attach,
}
use hyper_fast_path.Dummies.Pool.{SocketAddr, v4, v6}
use hyper_fast_path.FastPath.Order.{
  is_msg_verdict, is_skb_verdict, is_pool, is_sockops, waits, ends, has, waits-prefix, ends-prefix,
  none_ends, opened_ends, index_waits, index_ends, has-append,
}

-- What was done of the calls: all of them, or those before one that fails.
abbrev Ran : (LoadCall → Bool) → List LoadCall → Attaching → Type 0
Ran fails cs a =
    ((a.done ≡ cs) × (a.ending ≡ attached))
    ⊎ ((c : LoadCall) × (more : List LoadCall) × (cs ≡ a.done ++ c ∷ more)
        × (a.ending ≡ broke c)
        × (fails c ≡ true))

perform-Ran :
    (fails : LoadCall → Bool) (cs : List LoadCall)
    → Ran fails cs (perform fails cs (record { done = []; ending = attached }))
unfolding perform
perform-Ran fails [] = inl (refl, refl)
perform-Ran fails (c ∷ cs) = elim (Bool-cases (fails c)) [
  | inl e ↦ rw e (inr (c, cs, refl, refl, e))
  | inr e ↦ rw e (elim (perform-Ran fails cs) [
    | inl (d, a) ↦ inl (ap (◌∷◌ c) d, a)
    | inr (x, more, s, a, f) ↦ inr (x, more, ap (◌∷◌ c) s, a, f)
  ])
]

abbrev pub is_attached : Ending → Bool
is_attached attached = true
is_attached _ = false

-- What the calls that were done have in common, however `attach` ends: both programs are on their
-- maps before any dummy is opened, the dummies are there before the program sees a connection, and that
-- is the last thing done, if and only if `attach` succeeds.
pub record IsOrdered (a : Attaching) : Type 0 where
  pub msg_verdict_first : waits is_msg_verdict is_pool a.done ≡ true
  pub skb_verdict_first : waits is_skb_verdict is_pool a.done ≡ true
  pub pool_first : waits is_pool is_sockops a.done ≡ true
  pub sockops_last :
      (has is_sockops a.done ≡ is_attached a.ending) × (ends is_sockops a.done ≡ true)

abbrev all_calls : Image → ℕ → Prepared → List LoadCall
all_calls image dummies p = load_calls image dummies p ++ attach_calls dummies

-- Every call in order.
all_calls-IsOrdered :
    (image : Image) (dummies : ℕ) (p : Prepared)
    → IsOrdered (record { done = all_calls image dummies p; ending = attached })
unfolding load_calls attach_calls size_calls
all_calls-IsOrdered image dummies p =
    let us = index_updates 0 p.routes in
    let rest = attach_calls dummies in
    record {
      msg_verdict_first =
          index_waits is_msg_verdict is_pool us rest (λ key i. refl) (λ key i. refl) refl;
      skb_verdict_first =
          index_waits is_skb_verdict is_pool us rest (λ key i. refl) (λ key i. refl) refl;
      pool_first = index_waits is_pool is_sockops us rest (λ key i. refl) (λ key i. refl) refl;
      sockops_last = (
        has-append is_sockops (load_calls image dummies p) rest refl,
        index_ends is_sockops us rest (write_arena (loaded p)) (λ key i. refl) (λ d n. rw n refl)
            refl,
      );
    }

Ran-IsOrdered :
    (fails : LoadCall → Bool) (cs : List LoadCall) (a : Attaching)
    → IsOrdered (record { done = cs; ending = attached })
    → Ran fails cs a
    → IsOrdered a
Ran-IsOrdered fails cs a o (inl (d, e)) = record {
  msg_verdict_first = rw d o.msg_verdict_first;
  skb_verdict_first = rw d o.skb_verdict_first;
  pool_first = rw d o.pool_first;
  sockops_last = rw (d, e) o.sockops_last;
}
Ran-IsOrdered fails cs a o (inr (c, more, s, e, f)) =
    let n = ends-prefix is_sockops a.done more c (rw s at o.sockops_last.1) in
    record {
      msg_verdict_first =
          waits-prefix is_msg_verdict is_pool a.done (c ∷ more) (rw s at o.msg_verdict_first);
      skb_verdict_first =
          waits-prefix is_skb_verdict is_pool a.done (c ∷ more) (rw s at o.skb_verdict_first);
      pool_first = waits-prefix is_pool is_sockops a.done (c ∷ more) (rw s at o.pool_first);
      sockops_last = (rw e n, none_ends is_sockops a.done n);
    }

nothing_done : (e : Ending) → is_attached e ≡ false → IsOrdered (record { done = []; ending = e })
nothing_done e n = record {
  msg_verdict_first = refl;
  skb_verdict_first = refl;
  pool_first = refl;
  sockops_last = (sym n, refl);
}

opened-IsOrdered :
    (a : Attaching) → IsOrdered a → IsOrdered (record a { done = open_skel ∷ a.done })
opened-IsOrdered a o = record {
  msg_verdict_first = o.msg_verdict_first;
  skb_verdict_first = o.skb_verdict_first;
  pool_first = o.pool_first;
  sockops_last = (o.sockops_last.0, opened_ends a.done o.sockops_last.1);
}

attach_prepared-IsOrdered :
    (fails : LoadCall → Bool) (addresses : Option (List SocketAddr)) (dummies : ℕ) (p : Prepared)
    → IsOrdered (attach_prepared fails addresses dummies p)
unfolding attach_prepared perform attach_at
attach_prepared-IsOrdered fails none dummies p = nothing_done unresolved refl
attach_prepared-IsOrdered fails (some []) dummies p = nothing_done no_address refl
attach_prepared-IsOrdered fails (some (address ∷ more)) dummies p =
    elim (Bool-cases (fails open_skel)) [
      | inl e ↦ rw e (nothing_done (broke open_skel) refl)
      | inr e ↦ rw e (opened-IsOrdered (attach_at fails address dummies p) (at address))
    ]
  where
    at : (address : SocketAddr) → IsOrdered (attach_at fails address dummies p)
    at v6 = nothing_done bad_family refl
    at (v4 a b c d port) =
        let image : Image = record {
          ip4 = ip4_of a b c d;
          port = port;
          routes = fill_routes 0 p.routes (replicate max_routes no_route);
        } in
        Ran-IsOrdered fails (all_calls image dummies p) _ (all_calls-IsOrdered image dummies p)
          (perform-Ran fails (all_calls image dummies p))

-- However `attach` ends, whichever call fails: among the calls that it made with success, both verdict
-- programs are on their maps before a dummy is opened, the dummies are opened before the program is
-- attached to the server's connections, and that is done last, and if and only if `attach` succeeds.
pub attach-IsOrdered :
    (fails : LoadCall → Bool) (huffman_encode : Bytes → Bytes)
    (addresses : Option (List SocketAddr)) (routes : List (Bytes × File)) (dummies : ℕ)
    → IsOrdered (attach fails huffman_encode addresses routes dummies)
unfolding attach
attach-IsOrdered fails huffman_encode addresses routes dummies =
    by_result (prepare huffman_encode dummies routes)
  where
    by_result :
        (r : Result Prepared)
        → IsOrdered (elim r [
          | err e ↦ record { done = []; ending = unprepared e }
          | ok p ↦ attach_prepared fails addresses dummies p
        ])
    by_result (err e) = nothing_done (unprepared e) refl
    by_result (ok p) = attach_prepared-IsOrdered fails addresses dummies p
