-- ===== src/BarrierDeleter.antt =====
-- class BarrierDeleter (barrier_deleter.cpp): every call of the barrier function goes, and then its
-- declaration. The functions of the module are lists of blocks; the uses of the barrier function are
-- its direct calls.
pub mod Undone
use vari_ocl.Base.{Bool, true, false, not, List, [], ◌∷◌, keep, map}
use vari_ocl.Ir.{Block, is_barrier}

-- The functions with bodies, and whether the barrier function is declared.
pub record Module : Type 0 where
  pub functions : List (List Block)
  pub declared : Bool

-- The two loops: what is left of a block.
abbrev pub erase_calls : Block → Block
erase_calls b = record b { insts = keep (λ i. not (is_barrier i)) b.insts }

unfoldable pub erase_all : List Block → List Block
erase_all [] = []
erase_all (b ∷ bs) = erase_calls b ∷ erase_all bs

abbrev pub erase_where : Bool → Module → Module × Bool
unfolding erase_all
erase_where false m = (m, false)
erase_where true m = (record { functions = map erase_all m.functions; declared = false }, true)

-- `runOnModule`, with whether it changed the module.
unfoldable pub run_on_module : Module → Module × Bool
unfolding erase_where
run_on_module m = erase_where m.declared m
