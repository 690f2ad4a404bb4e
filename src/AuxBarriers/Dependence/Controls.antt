-- ===== src/AuxBarriers/Dependence/Controls.antt =====
-- The blocks that ImplicitCdgBarriers (ImplicitCdgBarriers.cpp) surrounds with barriers.
use vari_ocl.Base.{
  ℕ, ◌≡◌, sym, subst, Bool, true, false, List, [], ◌∷◌, any, ◌==◌, if◌then◌else◌, elem, elem-append,
  arith, Bool-cases, inl, inr, ==_iff,
}
use vari_ocl.Ir.{Inst, Block, is_barrier, has_barrier}
use vari_ocl.Cdg.ControlDep.{ControlDep}
use vari_ocl.AuxBarriers.{Function, put_front, put_end, block, test, successors_in}
use vari_ocl.AuxBarriers.Adds.{
  Adds, done, front, end, Adds-trans, Adds-plain, Adds-starts, Adds-stops, Adds-has_inst,
  put_front-here, put_end-here,
}
use vari_ocl.AuxBarriers.Insert.{
  has_inst, starts_with_barrier, stops_with_barrier, without_barriers,
}
use vari_ocl.AuxBarriers.Dependence.{
  parents, barrier_parents, put_fronts, controls, controlling, all_controlling, has_back_edge,
  surround, surround_all, run_on_function,
}

put_fronts-Adds : {f : Function} (xs : List ℕ) (g : Function) → Adds f g → Adds f (put_fronts xs g)
unfolding put_fronts
put_fronts-Adds [] g p = p
put_fronts-Adds (x ∷ xs) g p = put_fronts-Adds xs (put_front x g) (front p x)

parents-any : (y : ℕ) (is : List Inst) → any is_barrier is ≡ true → elem y (parents y is) ≡ true
parents-any y [] h = h
parents-any y (i ∷ is) h = ground (arith, parents-any y is)

barrier_parents-elem :
    (y : ℕ) (bs : List Block)
    → test has_barrier (block y bs) ≡ true
    → elem y (barrier_parents bs) ≡ true
unfolding barrier_parents has_barrier
barrier_parents-elem y [] h = h
barrier_parents-elem y (b ∷ bs) h = ground (
  arith,
  parents-any y b.insts,
  barrier_parents-elem y bs,
  elem-append y (parents b.id b.insts) (barrier_parents bs),
)

module _ (c : ControlDep) (preds : ℕ → List ℕ) (dominates : ℕ → ℕ → Bool) where
  controlling-elem :
      (x y : ℕ) (bs : List Block)
      → test has_inst (block x bs) ≡ true
      → controls c preds dominates x y ≡ true
      → elem x (controlling c preds dominates y bs) ≡ true
  unfolding controlling
  controlling-elem x y [] h k = h
  controlling-elem x y (b ∷ bs) h k = elim (Bool-cases (x == b.id)) [
    | inl at ↦
        ground (arith, subst (λ v. controls c preds dominates v y ≡ true) ((==_iff x b.id).0 at) k)
    | inr away ↦ ground (arith, controlling-elem x y bs)
  ]

  all_controlling-elem :
      (x y : ℕ) (ys : List ℕ) (bs : List Block)
      → elem y ys ≡ true
      → elem x (controlling c preds dominates y bs) ≡ true
      → elem x (all_controlling c preds dominates ys bs) ≡ true
  unfolding all_controlling
  all_controlling-elem x y [] bs m h = m
  all_controlling-elem x y (z ∷ ys) bs m h = elim (Bool-cases (y == z)) [
    | inl at ↦ ground (
      arith,
      elem-append x (controlling c preds dominates z bs) (all_controlling c preds dominates ys bs),
      subst (λ v. elem x (controlling c preds dominates v bs) ≡ true) ((==_iff y z).0 at) h,
    )
    | inr away ↦ ground (
      arith,
      all_controlling-elem x y ys bs,
      elem-append x (controlling c preds dominates z bs) (all_controlling c preds dominates ys bs),
    )
  ]

  -- What comes after the two barriers.
  surround-rest :
      (x : ℕ) (f : Function) → Adds (put_end x (put_front x f)) (surround c preds dominates x f)
  unfolding surround
  surround-rest x f =
      go (has_back_edge c preds dominates x) (successors_in x (put_end x (put_front x f)).blocks)
        (put_end x (put_front x f))
    where
      go : (t : Bool) (xs : List ℕ) (g : Function) → Adds g (if t then g else put_fronts xs g)
      go true xs g = done
      go false xs g = put_fronts-Adds xs g done

  surround-Adds : (x : ℕ) (f : Function) → Adds f (surround c preds dominates x f)
  surround-Adds x f = Adds-trans (end (front done x) x) (surround-rest x f)

  surround_all-Adds : (xs : List ℕ) (f : Function) → Adds f (surround_all c preds dominates xs f)
  unfolding surround_all
  surround_all-Adds [] f = done
  surround_all-Adds (x ∷ xs) f =
      Adds-trans (surround-Adds x f) (surround_all-Adds xs (surround c preds dominates x f))

  -- The block has a barrier at its front and one before its terminator.
  abbrev pub Surrounded : Function → ℕ → Type 0
  Surrounded f x =
      (test starts_with_barrier (block x f.blocks) ≡ true)
      × (test stops_with_barrier (block x f.blocks) ≡ true)

  surround-Surrounded :
      (x : ℕ) (f : Function)
      → test has_inst (block x f.blocks) ≡ true
      → Surrounded (surround c preds dominates x f) x
  surround-Surrounded x f h = (
    Adds-starts (Adds-trans (end done x) (surround-rest x f)) x (put_front-here x f h),
    Adds-stops (surround-rest x f) x
        (put_end-here x (put_front x f) (Adds-has_inst (front done x) x h)),
  )

  surround_all-Surrounded :
      (x : ℕ) (xs : List ℕ) (f : Function)
      → elem x xs ≡ true
      → test has_inst (block x f.blocks) ≡ true
      → Surrounded (surround_all c preds dominates xs f) x
  unfolding surround_all
  surround_all-Surrounded x [] f m h = cc
  surround_all-Surrounded x (z ∷ xs) f m h = elim (Bool-cases (x == z)) [
    | inr away ↦
        surround_all-Surrounded x xs (surround c preds dominates z f) (ground arith)
          (Adds-has_inst (surround-Adds z f) x h)
    | inl at ↦
        let (p, q) =
          surround-Surrounded z f
            (subst (λ v. test has_inst (block v f.blocks) ≡ true) ((==_iff x z).0 at) h) in
        let rest = surround_all-Adds xs (surround c preds dominates z f) in
        subst
          (λ v. Surrounded (surround_all c preds dominates xs (surround c preds dominates z f)) v)
          (sym ((==_iff x z).0 at)) (Adds-starts rest z p, Adds-stops rest z q)
  ]

  -- The pass adds nothing but barriers, and a block that the block of a barrier is iteratively control
  -- dependent on, in the graph or in the reverse graph, and that is another block and has an
  -- instruction, has then a barrier behind its PHIs and one before its terminator.
  pub run_on_function-surrounds :
      (f : Function) (x y : ℕ)
      → test has_inst (block x f.blocks) ≡ true
      → test has_barrier (block y f.blocks) ≡ true
      → controls c preds dominates x y ≡ true
      → (without_barriers (run_on_function c preds dominates f).blocks ≡ without_barriers f.blocks)
        × Surrounded (run_on_function c preds dominates f) x
  unfolding run_on_function
  run_on_function-surrounds f x y h b k = (
    Adds-plain (surround_all-Adds found f),
    surround_all-Surrounded x found f
        (all_controlling-elem x y (barrier_parents f.blocks) f.blocks
          (barrier_parents-elem y f.blocks b) (controlling-elem x y f.blocks h k))
        h,
  )
    where
      found : List ℕ
      found = all_controlling c preds dominates (barrier_parents f.blocks) f.blocks
