-- ===== src/Listener/Barrier.antt =====
-- The order in which the users of a connection of hyper-fast-path/src/listener.rs get bytes and
-- updates.
use hyper_fast_path.Prelude.{
  ℕ, zero, suc, ◌≤◌, min, false, List, [], ◌∷◌, ◌++◌, ◌≡◌, refl, sym, ◌∙◌, inl, inr, arith,
  append-nil, append_assoc, length, length-append, length-replicate, take-append-drop, Bool-cases,
  take, replicate,
}
use hyper_fast_path.Prelude.Bytes.{Bytes}
use hyper_fast_path.Listener.FlowHandle
use hyper_fast_path.Listener.SyncHandle
use hyper_fast_path.Listener.Scanner.{Scanner, scan}
use hyper_fast_path.Listener.Bytewise.{
  Reaction, pass, spend, update, update_before, react, react_header, carry_out, feed, feeds,
}
use hyper_fast_path.Listener.Turns.{IsWf}
use hyper_fast_path.Listener.Refinement.{scan-feeds, scan-IsWf}
use hyper_fast_path.Listener.View.{View, start, apply, consume}
use hyper_fast_path.Listener.Stream.{BeeperStream, Read, accept, drain_into}
use hyper_fast_path.Listener.Session.{Handed, core, IsSettled, add_wrapped, feed-IsSettled}
use hyper_fast_path.Listener.Polling.{arrivals, none_handed}
use hyper_fast_path.Listener.Schedule.{Action, opened, run, step, add-add-zero}
use hyper_fast_path.Listener.Induction.{on, IsKept, run-kept}

-- For each byte that the stream passes on: how many updates the client's stream has in front of it.
abbrev pub passed : Reaction → Bytes
passed (pass st bytes) = bytes
passed _ = []

abbrev tag : View → ℕ → List ℕ
tag v c = replicate (length (passed (react v.state c))) (length v.blocks)

abbrev pub tags : View → Bytes → List ℕ
tags v [] = []
tags v (c ∷ cs) = tag v c ++ tags (consume v c) cs

abbrev pub AtMost : ℕ → List ℕ → Type 0
AtMost n [] = Unit {0}
AtMost n (t ∷ ts) = (t ≤ n) × AtMost n ts

AtMost-append : (n : ℕ) (xs ys : List ℕ) → AtMost n xs → AtMost n ys → AtMost n (xs ++ ys)
AtMost-append n [] ys a b = b
AtMost-append n (x ∷ xs) ys (l, a) b = (l, AtMost-append n xs ys a b)

AtMost-replicate : (n k : ℕ) → AtMost n (replicate k n)
AtMost-replicate n zero = tt
AtMost-replicate n (suc k) = (omega arith, AtMost-replicate n k)

AtMost-weaken : (m n : ℕ) (xs : List ℕ) → m ≤ n → AtMost m xs → AtMost n xs
AtMost-weaken m n [] h a = tt
AtMost-weaken m n (x ∷ xs) h (l, a) = (omega (arith, h, l), AtMost-weaken m n xs h a)

AtMost-take :
    (n k : ℕ) (xs ys : List ℕ) → k ≤ length xs → AtMost n xs → AtMost n (take k (xs ++ ys))
AtMost-take n zero xs ys h a = tt
AtMost-take n (suc k) [] ys h a = absurd (omega (arith, h))
AtMost-take n (suc k) (x ∷ xs) ys h (l, a) = (l, AtMost-take n k xs ys (omega (arith, h)) a)

-- The tags of what was made of the stream so far; those of the rest complete the stream's.
record IsOrdered (all : List ℕ) (h : Handed) (s : Scanner) (rest : Bytes) : Type 0 where
  made : List ℕ
  completes : made ++ tags (core h s) (s.hold ++ rest) ≡ all
  counts : length made ≡ length (h.bytes ++ s.out)
  behind : AtMost (length h.updates) made

tags-carry_out :
    (h : Handed) (s : Scanner) (r : Reaction) (c : ℕ) (rest : Bytes)
    → s.hold ≡ []
    → tags (core h (carry_out s r c)) ((carry_out s r c).hold ++ rest)
      ≡ tags (apply (core h s) r c) rest
unfolding carry_out apply FlowHandle.add SyncHandle.push consume react react_header
tags-carry_out h s (pass st bytes) c rest e = rw (e, append_assoc)
tags-carry_out h s (spend n) c rest e = rw (e, add_wrapped)
tags-carry_out h s (update block) c rest e = rw (e, append_assoc)
tags-carry_out h s (update_before block) c rest e = rw (e, append-nil, append_assoc)

out-carry_out : (s : Scanner) (r : Reaction) (c : ℕ) → (carry_out s r c).out ≡ s.out ++ passed r
unfolding carry_out
out-carry_out s (pass st bytes) c = refl
out-carry_out s (spend n) c = sym (append-nil s.out)
out-carry_out s (update block) c = sym (append-nil s.out)
out-carry_out s (update_before block) c = sym (append-nil s.out)

none_pending : (u : SyncHandle.SyncHandle) → SyncHandle.is_pending u ≡ false → u.blocks ≡ []
unfolding SyncHandle.is_pending
none_pending u p = by_blocks u.blocks p
  where
    by_blocks : (b : List Bytes) → SyncHandle.is_nonempty b ≡ false → b ≡ []
    by_blocks [] q = refl
    by_blocks (x ∷ xs) q = cc

carry_out-IsOrdered :
    (all : List ℕ) (h : Handed) (s : Scanner) (c : ℕ) (rest : Bytes)
    → SyncHandle.is_pending s.updates ≡ false
    → s.hold ≡ []
    → IsOrdered all h s (c ∷ rest)
    → IsOrdered all h (carry_out s (react s.state c) c) rest
unfolding consume
carry_out-IsOrdered all h s c rest p e o =
    let n = length (passed (react s.state c)) in
    record {
      made = o.made ++ replicate n (length h.updates);
      completes =
          rw (tags-carry_out h s (react s.state c) c rest e)
            (append_assoc o.made _ _ ∙ sized (none_pending s.updates p) ∙ o.completes);
      counts =
          rw (out-carry_out s (react s.state c) c, ← append_assoc h.bytes)
            (omega (
              arith,
              o.counts,
              length-append o.made (replicate n (length h.updates)),
              length-replicate n (length h.updates),
              length-append (h.bytes ++ s.out) (passed (react s.state c)),
            ));
      behind =
          AtMost-append (length h.updates) o.made _ o.behind
            (AtMost-replicate (length h.updates) n);
    }
  where
    sized :
        s.updates.blocks ≡ []
        → o.made
            ++ (replicate (length (passed (react s.state c))) (length h.updates)
                ++ tags (apply (core h s) (react s.state c) c) rest)
          ≡ o.made ++ tags (core h s) (s.hold ++ c ∷ rest)
    sized f = rw (e, f, append-nil) refl

feed-IsOrdered :
    (all : List ℕ) (h : Handed) (s : Scanner) (c : ℕ) (rest : Bytes)
    → IsSettled s
    → IsOrdered all h s (c ∷ rest)
    → IsOrdered all h (feed s c) rest
unfolding feed
feed-IsOrdered all h s c rest settled o = elim (Bool-cases (SyncHandle.is_pending s.updates)) [
  | inl p ↦ rw p (record {
    made = o.made;
    completes = rw (append_assoc s.hold (c ∷ []) rest) o.completes;
    counts = o.counts;
    behind = o.behind;
  })
  | inr p ↦ rw p (carry_out-IsOrdered all h s c rest p (nothing_held settled p) o)
]
  where
    nothing_held : IsSettled s → SyncHandle.is_pending s.updates ≡ false → s.hold ≡ []
    nothing_held (inl e) p = e
    nothing_held (inr e) p = cc

feeds-IsOrdered :
    (all : List ℕ) (h : Handed) (xs : Bytes) (s : Scanner) (rest : Bytes)
    → IsSettled s
    → IsOrdered all h s (xs ++ rest)
    → IsOrdered all h (feeds s xs) rest
unfolding feeds
feeds-IsOrdered all h [] s rest settled o = o
feeds-IsOrdered all h (x ∷ xs) s rest settled o =
    feeds-IsOrdered all h xs (feed s x) rest (feed-IsSettled s x settled)
      (feed-IsOrdered all h s x (xs ++ rest) settled o)

record IsBarred (all : List ℕ) (h : Handed) (me : BeeperStream) : Type 0 where
  ordered : IsOrdered all h me.scanner (arrivals me.inner)
  wf : IsWf me.scanner.state

scan-IsBarred :
    (all : List ℕ) (h : Handed) (xs : Bytes) (rs : List Read) (s : Scanner)
    → s.hold ≡ []
    → IsWf s.state
    → IsOrdered all h s (xs ++ arrivals rs)
    → IsBarred all h (on rs (scan s xs))
scan-IsBarred all h xs rs s e w o = record {
  ordered = rw (scan-feeds s xs w) (feeds-IsOrdered all h xs s (arrivals rs) (inl e) o);
  wf = scan-IsWf s xs w;
}

IsBarred-IsKept : (all : List ℕ) → IsKept (IsBarred all)
unfolding step drain_into SyncHandle.take FlowHandle.take
IsBarred-IsKept all = record {
  skips = λ h r rs s e b. record { ordered = rw e at b.ordered; wf = b.wf };
  scans = λ h c cs rs s e b. scan-IsBarred all h (c ∷ cs) rs s e b.wf b.ordered;
  resumes = λ h rs s b.
      scan-IsBarred all h s.hold rs (record s { hold = [] }) refl b.wf
        (record {
          made = b.ordered.made;
          completes = b.ordered.completes;
          counts = b.ordered.counts;
          behind = b.ordered.behind;
        });
  drains = λ h me room b. record {
    ordered = record {
      made = b.ordered.made;
      completes =
          rw (append_assoc, take-append-drop (min (length me.scanner.out) room) me.scanner.out)
            b.ordered.completes;
      counts =
          rw (append_assoc, take-append-drop (min (length me.scanner.out) room) me.scanner.out)
            b.ordered.counts;
      behind = b.ordered.behind;
    };
    wf = b.wf;
  };
  takes_updates = λ c b. record {
    ordered = record {
      made = b.ordered.made;
      completes = rw append-nil b.ordered.completes;
      counts = b.ordered.counts;
      behind =
          AtMost-weaken (length c.handed.updates) _ b.ordered.made
            (omega (arith, length-append c.handed.updates c.stream.scanner.updates.blocks))
            b.ordered.behind;
    };
    wf = b.wf;
  };
  takes_served = λ c b. record {
    ordered = record {
      made = b.ordered.made;
      completes = rw add-add-zero b.ordered.completes;
      counts = b.ordered.counts;
      behind = b.ordered.behind;
    };
    wf = b.wf;
  };
}

opened-IsBarred :
    (inner : List Read) → IsBarred (tags start (arrivals inner)) none_handed (accept inner)
opened-IsBarred inner = record {
  ordered = record { made = []; completes = refl; counts = refl; behind = tt };
  wf = omega arith;
}

-- On a fresh connection, under any schedule: no byte is handed over ahead of an update that the
-- client's stream has in front of it, for as many updates were taken as the stream has in front of
-- any byte that was handed over.
pub run-AtMost :
    (inner : List Read) (actions : List Action)
    → AtMost
        (length (run (opened inner) actions).handed.updates)
        (take (length (run (opened inner) actions).handed.bytes) (tags start (arrivals inner)))
run-AtMost inner actions =
    let b =
      run-kept (IsBarred-IsKept (tags start (arrivals inner))) actions (opened inner)
        (opened-IsBarred inner) in
    let c = run (opened inner) actions in
    rw b.ordered.completes at (
      AtMost-take (length c.handed.updates) (length c.handed.bytes) b.ordered.made
        (tags (core c.handed c.stream.scanner) (c.stream.scanner.hold ++ arrivals c.stream.inner))
        (omega (arith, b.ordered.counts, length-append c.handed.bytes c.stream.scanner.out))
        b.ordered.behind)
