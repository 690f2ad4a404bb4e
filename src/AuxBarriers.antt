-- ===== src/AuxBarriers.antt =====
-- The passes that add auxiliary barriers: what they share. A pass has the blocks of the function and
-- the address of the next call that it makes; it adds the calls with BarrierInst::createBarrier.
pub mod Insert
pub mod Adds
pub mod Conditional
pub mod Dependence
pub mod InnerLoop
pub mod AroundLoop
use vari_ocl.Base.{
  ℕ, suc, ◌+◌, ◌≡◌, Bool, true, false, List, [], ◌∷◌, Option, none, some, ◌==◌, if◌then◌else◌,
  length,
}
use vari_ocl.Ir.{
  Inst, Block, create_barrier, contains_just_a_barrier, successors_op, get_terminator,
}
use vari_ocl.HiveOff.{first_non_phi, terminator_place}

pub record Function : Type 0 where
  pub blocks : List Block
  pub fresh : ℕ

-- The block with an address.
abbrev pub block : ℕ → List Block → Option Block
block x [] = none
block x (b ∷ bs) = let rest = block x bs in if b.id == x then some b else rest

abbrev pub test : (Block → Bool) → Option Block → Bool
test p none = false
test p (some b) = p b

abbrev pub change : (Block → Block) → ℕ → List Block → List Block
change g x [] = []
change g x (b ∷ bs) = let rest = change g x bs in if b.id == x then g b ∷ bs else b ∷ rest

-- `createBarrier(Args, BB->getFirstNonPHI())`.
unfoldable pub put_front : ℕ → Function → Function
unfolding create_barrier
put_front x f = record {
  blocks = change (λ b. create_barrier f.fresh (first_non_phi b.insts) b) x f.blocks;
  fresh = suc f.fresh;
}

-- `createBarrier(Args, BB->getTerminator())`.
unfoldable pub put_end : ℕ → Function → Function
unfolding create_barrier
put_end x f = record {
  blocks = change (λ b. create_barrier f.fresh (terminator_place b) b) x f.blocks;
  fresh = suc f.fresh;
}

abbrev pub is_just_barrier : ℕ → List Block → Bool
unfolding contains_just_a_barrier
is_just_barrier x bs = test contains_just_a_barrier (block x bs)

abbrev pub successors : Option Inst → List ℕ
successors none = []
successors (some t) = successors_op t.op

-- The successors of the terminator of the block with an address.
abbrev pub successors_in : ℕ → List Block → List ℕ
successors_in x bs = elim (block x bs) [ none ↦ [] | some b ↦ successors (get_terminator b) ]

-- What the passes ask of a loop: its blocks, how many loops it contains, and the blocks that LLVM
-- names, where there is one.
pub record Loop : Type 0 where
  pub members : List ℕ
  pub sub_loops : ℕ
  pub preheader : Option ℕ
  pub header : Option ℕ
  pub exiting : Option ℕ
  pub latch : Option ℕ

-- The loop's blocks in the function.
abbrev pub members_in : List ℕ → List Block → List Block
members_in [] bs = []
members_in (x ∷ xs) bs =
    let rest = members_in xs bs in elim (block x bs) [ none ↦ rest | some b ↦ b ∷ rest ]
