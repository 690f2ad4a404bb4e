-- ===== src/AuxBarriers/Conditional/Stops.antt =====
-- The walk of ImplicitConditionalBarriers (ImplicitConditionalBarriers.cpp) ends at a block, and the
-- pass puts a barrier there.
use vari_ocl.Base.{
  ℕ, zero, suc, ◌≡◌, refl, sym, subst, ◌<◌, ◌≤◌, Bool, true, false, not, ◌&&◌, List, [], ◌∷◌, arith,
  elem, some, ◌==◌, Bool-cases, inl, inr, ◌⊎◌, ap, ◌∙◌, ==_iff,
}
use vari_ocl.Ir.{Block, contains_just_a_barrier}
use vari_ocl.AuxBarriers.{Function, put_front, block, test, is_just_barrier}
use vari_ocl.AuxBarriers.Adds.{
  Adds, done, front, Adds-trans, Adds-plain, Adds-starts, Adds-has_inst, put_front-here,
  put_front-away,
}
use vari_ocl.AuxBarriers.Insert.{has_inst, starts_with_barrier, without_barriers}
use vari_ocl.AuxBarriers.Conditional.{
  first_non_backedge_predecessor, goes_on, locate, process_block, process_blocks, run_on_function,
  conditional_blocks,
}
use vari_ocl.AuxBarriers.Conditional.Starts.{just-starts-at, conditional_blocks-conditional}

module _ (preds : ℕ → List ℕ) (dominates post_dominates : ℕ → ℕ → Bool) where
  -- From `b` to `pos` lead first forward predecessors that `b` post-dominates, that are not `b` and
  -- that are not just a barrier in `f`.
  pub data Leads (f : Function) (b : ℕ) : ℕ → Type 0 where
    here : Leads f b b
    back :
        {pos pred : ℕ}
        → Leads f b pos
        → first_non_backedge_predecessor preds dominates post_dominates pos ≡ some pred
        → post_dominates b pred ≡ true
        → is_just_barrier pred f.blocks ≡ false
        → (pred == b) ≡ false
        → Leads f b pred

  -- There is no reason to go on from `pos`: its first forward predecessor is just a barrier in `bs`, or
  -- `b` does not post-dominate it, or it is `b`.
  abbrev pub Ended : List Block → ℕ → ℕ → Type 0
  Ended bs b pos =
      (p : ℕ) × (first_non_backedge_predecessor preds dominates post_dominates pos ≡ some p)
      × ((is_just_barrier p bs ≡ true) ⊎ ((post_dominates b p ≡ false) ⊎ (p ≡ b)))

  -- In `g` a barrier stands where the walk from `b` ends, in the function that was `f`.
  abbrev pub Guarded : Function → Function → ℕ → Type 0
  Guarded f g b =
      (pos : ℕ) × Leads f b pos
      × Ended g.blocks b pos
      × (test starts_with_barrier (block pos g.blocks) ≡ true)

  -- Where a block is just a barrier, it stays one.
  abbrev pub Keeps : Function → Function → Type 0
  Keeps f g = (u : ℕ) → is_just_barrier u f.blocks ≡ true → is_just_barrier u g.blocks ≡ true

  put_front-Keeps :
      (x : ℕ) (f : Function) → is_just_barrier x f.blocks ≡ false → Keeps f (put_front x f)
  unfolding is_just_barrier
  put_front-Keeps x f h u k = elim (Bool-cases (x == u)) [
    | inl e ↦
        absurd
          (ground (arith, subst (λ v. is_just_barrier v f.blocks ≡ false) ((==_iff x u).0 e) h))
    | inr e ↦ ap (test contains_just_a_barrier) (put_front-away x u f e) ∙ k
  ]

  -- The flow graph: its entry, the blocks that it reaches, and a rank that falls along the first
  -- forward predecessors, which every such block but the entry has.
  pub record Enters (entry : ℕ) (reached : ℕ → Bool) (rank : ℕ → ℕ) : Type 0 where
    pub enters :
        (u : ℕ)
        → reached u ≡ true
        → (u == entry) ≡ false
        → (p : ℕ) × (first_non_backedge_predecessor preds dominates post_dominates u ≡ some p)
          × (reached p ≡ true)
          × (rank p < rank u)

  module _ {entry : ℕ} {reached : ℕ → Bool} {rank : ℕ → ℕ} (e : Enters entry reached rank) where
    open e use {enters}

    not_entry :
        (b u : ℕ)
        → post_dominates b entry ≡ false
        → post_dominates b u ≡ true
        → (u == entry) ≡ false
    not_entry b u h k = elim (Bool-cases (u == entry)) [
      | inr a ↦ a
      | inl a ↦
          absurd (ground (arith, subst (λ v. post_dominates b v ≡ true) ((==_iff u entry).0 a) k))
    ]

    goes-just :
        (bs : List Block) (b u : ℕ)
        → goes_on preds dominates post_dominates bs b u ≡ true
        → is_just_barrier u bs ≡ false
    unfolding goes_on
    goes-just bs b u h = left (is_just_barrier u bs) (post_dominates b u) h
      where
        left : (x y : Bool) → (not x && y) ≡ true → x ≡ false
        left true y k = cc
        left false y k = refl

    goes-not :
        (bs : List Block) (b u : ℕ)
        → goes_on preds dominates post_dominates bs b u ≡ false
        → (is_just_barrier u bs ≡ true) ⊎ ((post_dominates b u ≡ false) ⊎ (u ≡ b))
    unfolding goes_on
    goes-not bs b u h = either (is_just_barrier u bs) (post_dominates b u) h
      where
        either : (x y : Bool) → (not x && y) ≡ false → (x ≡ true) ⊎ ((y ≡ false) ⊎ (u ≡ b))
        either true y k = inl refl
        either false y k = inr (inl k)

    goes-post :
        (bs : List Block) (b u : ℕ)
        → goes_on preds dominates post_dominates bs b u ≡ true
        → post_dominates b u ≡ true
    unfolding goes_on
    goes-post bs b u h = right (not (is_just_barrier u bs)) (post_dominates b u) h
      where
        right : (x y : Bool) → (x && y) ≡ true → y ≡ true
        right true y k = k
        right false y k = cc

    locate-Leads :
        (f : Function) (n : ℕ) (bs : List Block) (b pos pred : ℕ)
        → ((u : ℕ) → is_just_barrier u f.blocks ≡ true → is_just_barrier u bs ≡ true)
        → post_dominates b entry ≡ false
        → Leads f b pos
        → reached pos ≡ true
        → first_non_backedge_predecessor preds dominates post_dominates pos ≡ some pred
        → (pred == b) ≡ false
        → reached pred ≡ true
        → rank pred < n
        → (q : ℕ) × (locate preds dominates post_dominates n bs b pos (some pred) ≡ some q)
          × Leads f b q
          × Ended bs b q
          × (reached q ≡ true)
    unfolding locate
    locate-Leads f zero bs b pos pred keep h l m e1 d r k = absurd (omega arith)
    locate-Leads f (suc n) bs b pos pred keep h l m e1 d r k =
        elim (Bool-cases (goes_on preds dominates post_dominates bs b pred)) [
          | inr g ↦ (pos, rw (locate, g) refl, l, (pred, e1, goes-not bs b pred g), m)
          | inl g ↦
              let post = goes-post bs b pred g in
              let (p, f', r', k') = enters pred r (not_entry b pred h post) in
              let on = back l e1 post (new pred (goes-just bs b pred g)) d in
              elim (Bool-cases (p == b)) [
                | inl a ↦
                    (pred, rw (locate, g, f', a) refl, on, (p, f', inr (inr ((==_iff p b).0 a))), r)
                | inr a ↦
                    let (q, c, l', w, m') =
                      locate-Leads f n bs b pred p keep h on r f' a r' (omega arith) in
                    (q, rw (locate, g, f', a) c, l', w, m')
              ]
        ]
      where
        new : (u : ℕ) → is_just_barrier u bs ≡ false → is_just_barrier u f.blocks ≡ false
        new u x = elim (Bool-cases (is_just_barrier u f.blocks)) [
          | inl y ↦ absurd (ground (arith, keep u y))
          | inr y ↦ y
        ]

    -- What the pass does for one block, and for the rest of them.
    module _ (n : ℕ) (bound : (u : ℕ) → reached u ≡ true → rank u ≤ n) where
      abbrev HasBlocks : Function → Type 0
      HasBlocks f = (u : ℕ) → reached u ≡ true → test has_inst (block u f.blocks) ≡ true

      Ended-Keeps :
          (g h : Function) (b pos : ℕ) → Keeps g h → Ended g.blocks b pos → Ended h.blocks b pos
      Ended-Keeps g h b pos k (u, e1, inl y) = (u, e1, inl (k u y))
      Ended-Keeps g h b pos k (u, e1, inr y) = (u, e1, inr y)

      Guarded-Adds :
          (f g h : Function) (b : ℕ) → Adds g h → Keeps g h → Guarded f g b → Guarded f h b
      Guarded-Adds f g h b p k (pos, l, w, s) =
          (pos, l, Ended-Keeps g h b pos k w, Adds-starts p pos s)

      process_block-guards :
          (o : Function) (b : ℕ) (f : Function) (c : Bool)
          → Keeps o f
          → HasBlocks f
          → reached b ≡ true
          → post_dominates b entry ≡ false
          → post_dominates b b ≡ true
          → (g : Function) × (c' : Bool) × (process_block preds dominates post_dominates n b (f, c)
              ≡ some (g, c'))
            × Adds f g
            × Keeps f g
            × Guarded o g b
      unfolding process_block
      process_block-guards o b f c old has r h self =
          let (p, e1, r1, k1) = enters b r (not_entry b b h self) in
          let (q, e2, l, w, m) =
            locate-Leads o n f.blocks b b p old h here r e1 (ground arith) r1
              (omega (arith, bound b r)) in
          elim (Bool-cases (is_just_barrier q f.blocks)) [
            | inl j ↦ (
              f,
              c,
              rw (process_block, e1, e2, j) refl,
              done,
              λ u k. k,
              (q, l, w, just-starts-at q f.blocks j),
            )
            | inr j ↦ (
              put_front q f,
              true,
              rw (process_block, e1, e2, j) refl,
              front done q,
              put_front-Keeps q f j,
              (
                q,
                l,
                Ended-Keeps f (put_front q f) b q (put_front-Keeps q f j) w,
                put_front-here q f (has q m),
              ),
            )
          ]

      process_blocks-guards :
          (o : Function) (bs : List ℕ) (f : Function) (c : Bool)
          → Keeps o f
          → HasBlocks f
          → ((b : ℕ) → elem b bs ≡ true → (reached b ≡ true) × (post_dominates b entry ≡ false))
          → ((b : ℕ) → post_dominates b b ≡ true)
          → (g : Function) × (c' : Bool) × (process_blocks preds dominates post_dominates n bs
                (f, c)
              ≡ some (g, c'))
            × Adds f g
            × Keeps f g
            × ((b : ℕ) → elem b bs ≡ true → Guarded o g b)
      unfolding process_blocks
      process_blocks-guards o [] f c old has live self = (f, c, refl, done, λ u k. k, λ b h. cc)
      process_blocks-guards o (b ∷ bs) f c old has live self =
          let (r, h) = live b (ground arith) in
          let (g, c1, e1, a1, k1, q1) = process_block-guards o b f c old has r h (self b) in
          let (k, c2, e2, a2, k2, q2) =
            process_blocks-guards o bs g c1 (λ u m. k1 u (old u m))
              (λ u m. Adds-has_inst a1 u (has u m)) (λ x m. live x (ground arith)) self in
          (
            k,
            c2,
            rw (process_blocks, e1) e2,
            Adds-trans a1 a2,
            λ u m. k2 u (k1 u m),
            λ x m. elim (Bool-cases (x == b)) [
              | inl at ↦
                  subst (λ v. Guarded o k v) (sym ((==_iff x b).0 at))
                    (Guarded-Adds o g k b a2 k2 q1)
              | inr away ↦ q2 x (ground arith)
            ],
          )

      -- In a function whose reached blocks all have an instruction, and whose blocks with a conditional
      -- barrier are reached, with each reached block but the entry having a first forward predecessor
      -- that is reached and of lower rank, and with fuel for the ranks: the pass ends without reading
      -- through a null pointer, and only barriers are new. For each block with a conditional barrier a
      -- barrier starts the block where its walk ends: first forward predecessors that the block
      -- post-dominates, none of them the block itself or just a barrier before the pass, lead back to
      -- it, and its own first forward predecessor is just a barrier in the end, or the block does not
      -- post-dominate it, or it is the block.
      pub run_on_function-guards :
          (f : Function)
          → HasBlocks f
          → ((b : ℕ)
              → elem b (conditional_blocks post_dominates entry f.blocks) ≡ true
              → reached b ≡ true)
          → ((b : ℕ) → post_dominates b b ≡ true)
          → (g : Function) × (c : Bool) × (run_on_function preds dominates post_dominates n entry f
              ≡ some (g, c))
            × (without_barriers g.blocks ≡ without_barriers f.blocks)
            × ((b : ℕ)
                → elem b (conditional_blocks post_dominates entry f.blocks) ≡ true
                → Guarded f g b)
      unfolding run_on_function
      run_on_function-guards f has live self =
          let (g, c, e, a, k, q) =
            process_blocks-guards f (conditional_blocks post_dominates entry f.blocks) f false
              (λ u k. k) has
              (λ b m. (live b m, conditional_blocks-conditional post_dominates entry b f.blocks m))
              self in
          (g, c, e, Adds-plain a, q)
