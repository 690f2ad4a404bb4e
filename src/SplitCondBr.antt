-- ===== src/SplitCondBr.antt =====
-- class SplitBBAtCondBr (split_bb_at_condbr.cpp): a block that ends in a conditional branch is split
-- in front of it, unless a barrier stands there. SplitBlock is the parameter of HiveOff.
pub mod Split
use vari_ocl.Base.{
  ℕ, ◌-◌, Bool, true, false, not, ◌&&◌, ◌||◌, List, [], ◌∷◌, ◌++◌, Option, none, some, any, length,
  if◌then◌else◌,
}
use vari_ocl.Ir.{Inst, Block, Op, br, get_terminator, ends_with_barrier}
use vari_ocl.HiveOff.{Splitter, terminator_place}

abbrev pub is_conditional_op : Op → Bool
is_conditional_op (br c ss) = c
is_conditional_op _ = false

abbrev pub is_conditional : Option Inst → Bool
is_conditional none = false
is_conditional (some t) = is_conditional_op t.op

unfoldable pub needs_split : Block → Bool
unfolding ends_with_barrier
needs_split b = is_conditional (get_terminator b) && not (ends_with_barrier b)

module _ (s : Splitter) where
  open s use {split}

  -- The body of the loop: what the block becomes.
  unfoldable pub split_branch : Block → List Block
  unfolding needs_split
  split_branch b =
      if needs_split b
      then (split b (terminator_place b)).0 ∷ (split b (terminator_place b)).1 ∷ []
      else b ∷ []

  -- The loop over the blocks that the function has at the start.
  unfoldable pub split_branches : List Block → List Block
  unfolding split_branch
  split_branches [] = []
  split_branches (b ∷ bs) = split_branch b ++ split_branches bs

  -- `runOnFunction`, with whether it changed the function.
  unfoldable pub run_on_function : List Block → List Block × Bool
  unfolding split_branches needs_split
  run_on_function f = (split_branches f, any needs_split f)
