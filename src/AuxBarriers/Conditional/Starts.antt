-- ===== src/AuxBarriers/Conditional/Starts.antt =====
-- The blocks that ImplicitConditionalBarriers (ImplicitConditionalBarriers.cpp) takes up, and those
-- that it finds to be just a barrier.
use vari_ocl.Base.{
  ℕ, ◌≡◌, refl, sym, subst, Bool, true, false, not, ◌&&◌, List, [], ◌∷◌, arith, elem, Option, none,
  some, ◌==◌, if◌then◌else◌, Bool-cases, inl, inr, ==_iff,
}
use vari_ocl.Ir.{Inst, Block, contains_just_a_barrier, is_phi_op, has_barrier}
use vari_ocl.AuxBarriers.{block, test, is_just_barrier}
use vari_ocl.AuxBarriers.Insert.{starts_with_barrier, starts, clash}
use vari_ocl.AuxBarriers.Conditional.{conditional_blocks}

just-starts : (b : Block) → contains_just_a_barrier b ≡ true → starts b.insts ≡ true
unfolding contains_just_a_barrier
just-starts b h = go b.insts h
  where
    go :
        (is : List Inst)
        → contains_just_a_barrier (record b { insts = is }) ≡ true
        → starts is ≡ true
    go [] e = cc
    go (i ∷ []) e = cc
    go (i ∷ j ∷ []) e = elim (Bool-cases (is_phi_op i.op)) [
      | inl p ↦ absurd (clash i.op p e)
      | inr p ↦ rw p e
    ]
    go (i ∷ j ∷ k ∷ is) e = ground arith

pub just-starts-at :
    (x : ℕ) (bs : List Block)
    → is_just_barrier x bs ≡ true
    → test starts_with_barrier (block x bs) ≡ true
unfolding is_just_barrier
just-starts-at x bs h = go (block x bs) h
  where
    go :
        (o : Option Block)
        → test contains_just_a_barrier o ≡ true
        → test starts_with_barrier o ≡ true
    go none e = e
    go (some b) e = just-starts b e

pub conditional_blocks-conditional :
    (post_dominates : ℕ → ℕ → Bool) (entry b : ℕ) (bs : List Block)
    → elem b (conditional_blocks post_dominates entry bs) ≡ true
    → post_dominates b entry ≡ false
unfolding conditional_blocks
conditional_blocks-conditional post_dominates entry b [] h = cc
conditional_blocks-conditional post_dominates entry b (c ∷ bs) h =
    elim (Bool-cases (has_barrier c && not (post_dominates c.id entry))) [
      | inr e ↦ conditional_blocks-conditional post_dominates entry b bs (skip _ e h)
      | inl e ↦ elim (Bool-cases (b == c.id)) [
        | inl at ↦
            subst (λ v. post_dominates v entry ≡ false) (sym ((==_iff b c.id).0 at)) (fails _ _ e)
        | inr away ↦ conditional_blocks-conditional post_dominates entry b bs (later _ e away h)
      ]
    ]
  where
    rest : List ℕ
    rest = conditional_blocks post_dominates entry bs

    skip :
        (t : Bool)
        → t ≡ false
        → elem b (if t then c.id ∷ rest else rest) ≡ true
        → elem b rest ≡ true
    skip true e k = cc
    skip false e k = k

    later :
        (t : Bool)
        → t ≡ true
        → (b == c.id) ≡ false
        → elem b (if t then c.id ∷ rest else rest) ≡ true
        → elem b rest ≡ true
    later true e a k = ground arith
    later false e a k = k

    fails : (x y : Bool) → (x && not y) ≡ true → y ≡ false
    fails true true e = cc
    fails true false e = refl
    fails false y e = cc
