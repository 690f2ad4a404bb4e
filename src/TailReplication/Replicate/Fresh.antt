-- ===== src/TailReplication/Replicate/Fresh.antt =====
-- The block that ReplicateSubgraph (BarrierTailReplication.cpp) returns is a new one.
use vari_ocl.Base.{ℕ, ◌≡◌, ◌≤◌, Bool, true, List, [], ◌∷◌, some, lookup, is_some}
use vari_ocl.Base.Reach.{Reach}
use vari_ocl.TailReplication.Replicate.{Block, Copying, replicate_basic_blocks}

-- Every copy has an address from `k` on.
record IsLow (k : ℕ) (s : Copying) : Type 0 where
  next : k ≤ s.function.fresh
  refs : (y n : ℕ) → lookup y s.refs.to_block ≡ some n → k ≤ n

-- The block `y` has a copy.
abbrev has_copy : ℕ → Copying → Bool
has_copy y s = is_some (lookup y s.refs.to_block)

Result : ℕ → List ℕ → List ℕ → ℕ → Copying → Type 0
Result k graph bs y s =
    IsLow k (replicate_basic_blocks graph bs s)
    × (has_copy y (replicate_basic_blocks graph bs s) ≡ true)

ids : List Block → List ℕ
ids [] = []
ids (b ∷ bs) = b.id ∷ ids bs
