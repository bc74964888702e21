-- ===== src/Listener/SyncHandle.antt =====
-- hyper-fast-path/src/listener.rs, `SyncHandle`: the dynamic table updates received and not yet
-- applied, oldest first. The clones of a handle share one queue, which is the value here; the lock
-- makes each of these operations one step.
use hyper_fast_path.Prelude.{Bool, true, false, List, [], ◌∷◌, ◌++◌}
use hyper_fast_path.Prelude.Bytes.{Bytes}

pub record SyncHandle : Type 0 where
  pub blocks : List Bytes

abbrev pub empty : SyncHandle
empty = record { blocks = [] }

-- `take`: the blocks, and the handle that is left.
unfoldable pub take : SyncHandle → List Bytes × SyncHandle
take h = (h.blocks, record { blocks = [] })

abbrev pub is_nonempty : List Bytes → Bool
is_nonempty [] = false
is_nonempty (b ∷ bs) = true

unfoldable pub is_pending : SyncHandle → Bool
is_pending h = is_nonempty h.blocks

unfoldable pub push : SyncHandle → Bytes → SyncHandle
push h block = record { blocks = h.blocks ++ block ∷ [] }
