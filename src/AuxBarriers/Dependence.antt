-- ===== src/AuxBarriers/Dependence.antt =====
-- ImplicitCdgBarriers (ImplicitCdgBarriers.cpp): barriers in the blocks that a barrier's block is
-- control dependent on. The dependences are those of ControlDep; the predecessors of a block and the
-- dominator tree's query are parameters.
pub mod Controls
use vari_ocl.Base.{
  ℕ, Bool, true, false, not, ◌&&◌, ◌||◌, List, [], ◌∷◌, ◌++◌, any, ◌==◌, if◌then◌else◌,
}
use vari_ocl.Ir.{Inst, Block, is_barrier}
use vari_ocl.Cdg.ControlDep.{ControlDep, is_iteratively_ctrl_dep, is_reversely_iteratively_ctrl_dep}
use vari_ocl.AuxBarriers.{Function, put_front, put_end, successors_in}

-- The blocks of the barriers, in the order of the instructions.
abbrev pub parents : ℕ → List Inst → List ℕ
parents y [] = []
parents y (i ∷ is) = let rest = parents y is in if is_barrier i then y ∷ rest else rest

unfoldable pub barrier_parents : List Block → List ℕ
barrier_parents [] = []
barrier_parents (b ∷ bs) = parents b.id b.insts ++ barrier_parents bs

abbrev pub put_fronts : List ℕ → Function → Function
unfolding put_front
put_fronts [] f = f
put_fronts (x ∷ xs) f = put_fronts xs (put_front x f)

module _ (c : ControlDep) (preds : ℕ → List ℕ) (dominates : ℕ → ℕ → Bool) where
  -- The two tests of a block `x` against the block `y` of a barrier.
  unfoldable pub controls : ℕ → ℕ → Bool
  unfolding is_iteratively_ctrl_dep is_reversely_iteratively_ctrl_dep
  controls x y =
      if is_iteratively_ctrl_dep c x y && not (x == y)
      then true
      else if is_reversely_iteratively_ctrl_dep c x y && not (x == y)
      then true
      else false

  -- The loop over the blocks, for one barrier, and the loop over the barriers.
  unfoldable pub controlling : ℕ → List Block → List ℕ
  unfolding controls
  controlling y [] = []
  controlling y (b ∷ bs) =
      let rest = controlling y bs in if controls b.id y then b.id ∷ rest else rest

  unfoldable pub all_controlling : List ℕ → List Block → List ℕ
  unfolding controlling
  all_controlling [] bs = []
  all_controlling (y ∷ ys) bs = controlling y bs ++ all_controlling ys bs

  abbrev pub has_back_edge : ℕ → Bool
  has_back_edge x = any (dominates x) (preds x)

  -- The body of the loop over the blocks that were collected.
  unfoldable pub surround : ℕ → Function → Function
  unfolding put_front put_end put_fronts
  surround x f =
      let g = put_end x (put_front x f) in
      if has_back_edge x then g else put_fronts (successors_in x g.blocks) g

  unfoldable pub surround_all : List ℕ → Function → Function
  unfolding surround
  surround_all [] f = f
  surround_all (x ∷ xs) f = surround_all xs (surround x f)

  -- `runOnFunction`, which ends without the `bool` that it is to return.
  unfoldable pub run_on_function : Function → Function
  unfolding surround_all all_controlling barrier_parents
  run_on_function f = surround_all (all_controlling (barrier_parents f.blocks) f.blocks) f
