-- ===== src/Listener/Session.antt =====
-- What the users of a connection of hyper-fast-path/src/listener.rs were handed, and what its
-- scanner still has for them.
use hyper_fast_path.Prelude.{
  ℕ, ◌+◌, ◌%◌, ◌^◌, true, false, List, [], ◌∷◌, ◌++◌, ◌≡◌, refl, ap, ◌∙◌, ◌⊎◌, inl, inr, arith,
  append-nil, append_assoc, Bool-cases,
}
use hyper_fast_path.Prelude.Bytes.{Bytes}
use hyper_fast_path.Listener.FlowHandle
use hyper_fast_path.Listener.SyncHandle
use hyper_fast_path.Listener.Scanner.{Scanner, scan}
use hyper_fast_path.Listener.Bytewise.{
  Reaction, pass, spend, update, update_before, react, react_header, carry_out, feed, feeds,
}
use hyper_fast_path.Listener.Turns.{IsWf}
use hyper_fast_path.Listener.Refinement.{scan-feeds}
use hyper_fast_path.Listener.View.{View, apply, consume, consumes, consumes-append}

-- What was handed over before: bytes, updates, and the sum of the counts.
pub record Handed : Type 0 where
  pub bytes : Bytes
  pub updates : List Bytes
  pub served : ℕ

-- All that the scanner has made of the stream, with what was handed over before.
abbrev pub core : Handed → Scanner → View
core h s = record {
  state = s.state;
  out = h.bytes ++ s.out;
  blocks = h.updates ++ s.updates.blocks;
  sent = (h.served + s.spent.sent) % 2 ^ 32;
}

-- And what it will make of the bytes held back.
abbrev pub meaning : Handed → Scanner → View
meaning h s = consumes (core h s) s.hold

-- Nothing is held back, or an update is the reason.
abbrev pub IsSettled : Scanner → Type 0
IsSettled s = (s.hold ≡ []) ⊎ (SyncHandle.is_pending s.updates ≡ true)

pending-push :
    (xs : List Bytes) (b : Bytes) → SyncHandle.is_pending (record { blocks = xs ++ b ∷ [] }) ≡ true
unfolding SyncHandle.is_pending
pending-push [] b = refl
pending-push (x ∷ xs) b = refl

carry_out-IsSettled :
    (s : Scanner) (r : Reaction) (c : ℕ) → s.hold ≡ [] → IsSettled (carry_out s r c)
unfolding carry_out SyncHandle.push
carry_out-IsSettled s (pass st bytes) c h = inl h
carry_out-IsSettled s (spend n) c h = inl h
carry_out-IsSettled s (update block) c h = inr (pending-push s.updates.blocks block)
carry_out-IsSettled s (update_before block) c h = inr (pending-push s.updates.blocks block)

pub add_wrapped : (a b c : ℕ) → (a + (b + c) % 2 ^ 32) % 2 ^ 32 ≡ ((a + b) % 2 ^ 32 + c) % 2 ^ 32
add_wrapped a b c = omega arith

pub carry_out-meaning :
    (h : Handed) (s : Scanner) (r : Reaction) (c : ℕ)
    → s.hold ≡ []
    → meaning h (carry_out s r c) ≡ apply (core h s) r c
unfolding carry_out apply SyncHandle.push FlowHandle.add consumes consume react react_header
carry_out-meaning h s (pass st bytes) c e = rw (e, append_assoc)
carry_out-meaning h s (spend n) c e = rw (e, add_wrapped)
carry_out-meaning h s (update block) c e = rw (e, append_assoc)
carry_out-meaning h s (update_before block) c e = rw (e, append-nil, append_assoc)

pub feed-IsSettled : (s : Scanner) (c : ℕ) → IsSettled s → IsSettled (feed s c)
unfolding feed
feed-IsSettled s c h = elim (Bool-cases (SyncHandle.is_pending s.updates)) [
  | inl p ↦ rw p (inr p)
  | inr p ↦ rw p (carry_out-IsSettled s (react s.state c) c (hold_nil h p))
]
  where
    hold_nil : IsSettled s → SyncHandle.is_pending s.updates ≡ false → s.hold ≡ []
    hold_nil (inl e) p = e
    hold_nil (inr e) p = cc

feed-meaning :
    (h : Handed) (s : Scanner) (c : ℕ)
    → IsSettled s
    → meaning h (feed s c) ≡ consume (meaning h s) c
unfolding feed
feed-meaning h s c settled = elim (Bool-cases (SyncHandle.is_pending s.updates)) [
  | inl p ↦ rw p (consumes-append s.hold (core h s) (c ∷ []) ∙ unfold consumes in refl)
  | inr p ↦ rw p (free p (hold_nil settled p))
]
  where
    hold_nil : IsSettled s → SyncHandle.is_pending s.updates ≡ false → s.hold ≡ []
    hold_nil (inl e) p = e
    hold_nil (inr e) p = cc

    free :
        SyncHandle.is_pending s.updates ≡ false
        → s.hold ≡ []
        → meaning h (carry_out s (react s.state c) c) ≡ consume (meaning h s) c
    free p e = carry_out-meaning h s (react s.state c) c e ∙ rw e (unfold consume consumes in refl)

feeds-meaning :
    (xs : Bytes) (h : Handed) (s : Scanner)
    → IsSettled s
    → (meaning h (feeds s xs) ≡ consumes (meaning h s) xs) × IsSettled (feeds s xs)
unfolding feeds
feeds-meaning [] h s settled = (unfold consumes in refl, settled)
feeds-meaning (x ∷ xs) h s settled =
    let rest = feeds-meaning xs h (feed s x) (feed-IsSettled s x settled) in
    (
      rest.0 ∙ ap (λ v. consumes v xs) (feed-meaning h s x settled) ∙ unfold consumes in refl,
      rest.1,
    )

-- A settled scanner that scans more makes of the stream what the bytes mean.
pub scan-meaning :
    (h : Handed) (s : Scanner) (xs : Bytes)
    → IsWf s.state
    → IsSettled s
    → (meaning h (scan s xs) ≡ consumes (meaning h s) xs) × IsSettled (scan s xs)
scan-meaning h s xs w settled = rw (scan-feeds s xs w) (feeds-meaning xs h s settled)
