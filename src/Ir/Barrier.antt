-- ===== src/Ir/Barrier.antt =====
-- The tests for barriers agree with one another.
use vari_ocl.Base.{◌≡◌, refl, true, false, List, [], ◌∷◌, arith}
use vari_ocl.Ir.{
  Inst, Block, Op, is_barrier_op, is_terminator_op, phi, call, alloca, br, terminator, other,
  is_barrier, is_terminator, contains_just_a_barrier, has_only_barrier,
}

-- The block has instructions, the last is a terminator, and no other is.
abbrev pub IsFormedInsts : List Inst → Type 0
IsFormedInsts [] = ⊥
IsFormedInsts (i ∷ []) = is_terminator i ≡ true
IsFormedInsts (i ∷ j ∷ is) = (is_terminator i ≡ false) × IsFormedInsts (j ∷ is)

pub barrier-terminator : (i : Inst) → is_barrier i ≡ true → is_terminator i ≡ false
barrier-terminator i h = go i.op h
  where
    go : (o : Op) → is_barrier_op o ≡ true → is_terminator_op o ≡ false
    go phi h = refl
    go (call n) h = refl
    go alloca h = refl
    go (br c ss) h = cc
    go (terminator ss) h = cc
    go other h = refl

-- In a well-formed block the two tests for a block of just a barrier agree.
pub has_only_barrier_lem :
    (b : Block) → IsFormedInsts b.insts → has_only_barrier b ≡ contains_just_a_barrier b
unfolding has_only_barrier contains_just_a_barrier
has_only_barrier_lem b h = go b.insts h
  where
    go :
        (is : List Inst)
        → IsFormedInsts is
        → has_only_barrier (record b { insts = is })
          ≡ contains_just_a_barrier (record b { insts = is })
    go [] f = refl
    go (i ∷ []) f = ground arith
    go (i ∷ j ∷ []) f = ground arith
    go (i ∷ j ∷ k ∷ is) f = ground arith
