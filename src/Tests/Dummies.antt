-- ===== src/Tests/Dummies.antt =====
-- The pool of hyper-fast-path/src/dummies.rs, on concrete inputs.
use hyper_fast_path.Prelude.{◌==◌, ℕ, Bool, true, false, List, [], ◌∷◌, none, some}
use hyper_fast_path.Dummies.Pool.{Rlimit}
use hyper_fast_path.Dummies.Recycling.{Dummy, DummyMaps, Call, push_free, reset_dummy, recycle, new}
use hyper_fast_path.Dummies.Resets.{IsReset, reset_dummy-IsReset, IsPass, recycle-IsPass}
use hyper_fast_path.Dummies.Filling.{IsFilled, new-IsFilled}

-- Every call succeeds, but the return of dummy 1.
abbrev fails : Call → Bool
fails (push_free i) = i == 1
fails _ = false

abbrev dummy : Dummy
dummy = record { sender = 7; key = 1 ∷ 2 ∷ [] }

-- Dummies 0 and 1 are lent, and have a dynamic table.
abbrev maps : DummyMaps
maps = record {
  dummy_map = λ i. some 7;
  dummy_idx = λ k. none;
  free_dummies = 5 ∷ [];
  dynamic_table_info = λ k. true;
}

reset_dummy-IsReset_example : IsReset fails dummy 0 maps (reset_dummy fails dummy 0 maps)
reset_dummy-IsReset_example = reset_dummy-IsReset fails dummy 0 maps

abbrev released : List (ℕ × ℕ)
released = (0, 10) ∷ (1, 20) ∷ (2, 950) ∷ []

recycle-IsPass_example :
    IsPass fails
      (dummy ∷ dummy ∷ [])
      1000
      released
      (recycle fails (dummy ∷ dummy ∷ []) 1000 released maps).1
      maps
      (recycle fails (dummy ∷ dummy ∷ []) 1000 released maps).0
recycle-IsPass_example = recycle-IsPass fails (dummy ∷ dummy ∷ []) 1000 released maps

abbrev limit : Rlimit
limit = record { rlim_cur = 1024; rlim_max = 4096 }

new-IsFilled_example :
    IsFilled 0 2 maps (new (λ c. false) (some limit) (λ l. true) (λ i. some dummy) 2 maps)
new-IsFilled_example = new-IsFilled (λ c. false) (some limit) (λ l. true) (λ i. some dummy) 2 maps
