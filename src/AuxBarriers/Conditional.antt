-- ===== src/AuxBarriers/Conditional.antt =====
-- ImplicitConditionalBarriers (ImplicitConditionalBarriers.cpp): a barrier at the block that makes a
-- barrier conditional. The predecessors of a block and the dominator trees' queries are parameters:
-- adding barriers changes none of them.
pub mod Starts
pub mod Stops
use vari_ocl.Base.{
  ℕ, zero, suc, ◌≡◌, Bool, true, false, not, ◌&&◌, List, [], ◌∷◌, Option, none, some, ◌==◌,
  if◌then◌else◌, ◌>>=◌,
}
use vari_ocl.Ir.{Block, has_barrier, contains_just_a_barrier}
use vari_ocl.AuxBarriers.{Function, put_front, is_just_barrier}

-- `firstNonBackedgePredecessor`: the first predecessor that the block does not dominate.
abbrev pub first_not : (ℕ → Bool) → List ℕ → Option ℕ
first_not p [] = none
first_not p (x ∷ xs) = let rest = first_not p xs in if p x then rest else some x

-- The loop over the function's blocks: those with a barrier that do not post-dominate the entry.
unfoldable pub conditional_blocks : (ℕ → ℕ → Bool) → ℕ → List Block → List ℕ
unfolding has_barrier
conditional_blocks post_dominates entry [] = []
conditional_blocks post_dominates entry (b ∷ bs) =
    let rest = conditional_blocks post_dominates entry bs in
    if has_barrier b && not (post_dominates b.id entry) then b.id ∷ rest else rest

module _ (preds : ℕ → List ℕ) (dominates post_dominates : ℕ → ℕ → Bool) where
  unfoldable pub first_non_backedge_predecessor : ℕ → Option ℕ
  first_non_backedge_predecessor bb = first_not (dominates bb) (preds bb)

  -- The condition of the `while` loop.
  abbrev pub goes_on : List Block → ℕ → ℕ → Bool
  unfolding contains_just_a_barrier
  goes_on bs b pred = not (is_just_barrier pred bs) && post_dominates b pred

  -- The `while` loop that locates the block: `pos`, with `pred` its predecessor. Without a
  -- predecessor the test reads through a null pointer, which is `none`, as is the end of the fuel.
  unfoldable pub locate : ℕ → List Block → ℕ → ℕ → Option ℕ → Option ℕ
  unfolding first_non_backedge_predecessor contains_just_a_barrier
  locate zero bs b pos pred = none
  locate (suc n) bs b pos none = none
  locate (suc n) bs b pos (some pred) = elim (goes_on bs b pred) [
    | false ↦ some pos
    | true ↦ elim (first_non_backedge_predecessor pred) [
      | none ↦ locate n bs b pred none
      | some next ↦ elim (next == b) [ true ↦ some pred | false ↦ locate n bs b pred (some next) ]
    ]
  ]

  -- The body of the loop over the blocks, with whether it changed the function.
  unfoldable pub process_block : ℕ → ℕ → Function × Bool → Option (Function × Bool)
  unfolding locate put_front contains_just_a_barrier first_non_backedge_predecessor
  process_block n b (f, changed) =
      locate n f.blocks b b (first_non_backedge_predecessor b) >>= λ pos.
      if is_just_barrier pos f.blocks then some (f, changed) else some (put_front pos f, true)

  unfoldable pub process_blocks : ℕ → List ℕ → Function × Bool → Option (Function × Bool)
  unfolding process_block
  process_blocks n [] s = some s
  process_blocks n (b ∷ bs) s = process_block n b s >>= λ t. process_blocks n bs t

  -- `runOnFunction`, with fuel for the steps of each walk.
  unfoldable pub run_on_function : ℕ → ℕ → Function → Option (Function × Bool)
  unfolding process_blocks conditional_blocks
  run_on_function n entry f =
      process_blocks n (conditional_blocks post_dominates entry f.blocks) (f, false)
