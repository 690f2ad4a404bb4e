-- ===== src/AuxBarriers/Adds.antt =====
-- What adding barriers to a function keeps: all that is no barrier, the barriers at the front of a
-- block and those before its terminator.
use vari_ocl.Base.{
  ◌+◌, ℕ, ◌≡◌, refl, ◌∙◌, Bool, true, false, List, [], ◌∷◌, arith, length, ◌==◌, ltb,
}
use vari_ocl.Ir.{Inst, Block, create_barrier}
use vari_ocl.HiveOff.{first_non_phi, terminator_place}
use vari_ocl.AuxBarriers.{Function, put_front, put_end, block, test}
use vari_ocl.AuxBarriers.Insert.{
  barriers_at, one_if, change-count, insert_at-count, without_barriers, stops, has_inst,
  starts_with_barrier, stops_with_barrier, insert_at-plain, front-starts, end-starts, end-stops,
  front-stops, insert_at-has_inst, change-test, change-at, change-away, change-plain,
}

-- The function `g` is `f` with barriers added, at the front or at the end of its blocks.
pub data Adds (f : Function) : Function → Type 0 where
  done : Adds f f
  front : {g : Function} → Adds f g → (x : ℕ) → Adds f (put_front x g)
  end : {g : Function} → Adds f g → (x : ℕ) → Adds f (put_end x g)

module _ (x : ℕ) (f : Function) where
  put_front-plain : without_barriers (put_front x f).blocks ≡ without_barriers f.blocks
  unfolding put_front create_barrier
  put_front-plain =
      change-plain _ x f.blocks
        (λ b. rw (insert_at-plain f.fresh (first_non_phi b.insts) b.insts) refl)

  put_end-plain : without_barriers (put_end x f).blocks ≡ without_barriers f.blocks
  unfolding put_end create_barrier
  put_end-plain =
      change-plain _ x f.blocks
        (λ b. rw (insert_at-plain f.fresh (terminator_place b) b.insts) refl)

  -- At the front: what is asked of every block stays, and the block has a barrier there.
  put_front-starts :
      (y : ℕ)
      → test starts_with_barrier (block y f.blocks) ≡ true
      → test starts_with_barrier (block y (put_front x f).blocks) ≡ true
  unfolding put_front create_barrier
  put_front-starts y =
      change-test starts_with_barrier _ x y f.blocks (λ b. refl)
        (λ b h. front-starts f.fresh b.insts)

  put_front-stops :
      (y : ℕ)
      → test stops_with_barrier (block y f.blocks) ≡ true
      → test stops_with_barrier (block y (put_front x f).blocks) ≡ true
  unfolding put_front create_barrier
  put_front-stops y =
      change-test stops_with_barrier _ x y f.blocks (λ b. refl)
        (λ b h. front-stops f.fresh b.insts h)

  put_front-has_inst :
      (y : ℕ)
      → test has_inst (block y f.blocks) ≡ true
      → test has_inst (block y (put_front x f).blocks) ≡ true
  unfolding put_front create_barrier
  put_front-has_inst y =
      change-test has_inst _ x y f.blocks (λ b. refl)
        (λ b h. insert_at-has_inst _ (first_non_phi b.insts) b.insts)

  pub put_front-count :
      (y : ℕ)
      → test has_inst (block y f.blocks) ≡ true
      → barriers_at y (put_front x f).blocks ≡ barriers_at y f.blocks + one_if (x == y)
  unfolding put_front create_barrier
  put_front-count y =
      change-count _ x y f.blocks (λ b. refl)
        (λ b. insert_at-count f.fresh (first_non_phi b.insts) b.insts)

  pub put_end-count :
      (y : ℕ)
      → test has_inst (block y f.blocks) ≡ true
      → barriers_at y (put_end x f).blocks ≡ barriers_at y f.blocks + one_if (x == y)
  unfolding put_end create_barrier
  put_end-count y =
      change-count _ x y f.blocks (λ b. refl)
        (λ b. insert_at-count f.fresh (terminator_place b) b.insts)

  pub put_front-here :
      test has_inst (block x f.blocks) ≡ true
      → test starts_with_barrier (block x (put_front x f).blocks) ≡ true
  unfolding put_front create_barrier
  put_front-here =
      change-at has_inst starts_with_barrier _ x f.blocks (λ b. refl)
        (λ b h. front-starts f.fresh b.insts)

  put_end-starts :
      (y : ℕ)
      → test starts_with_barrier (block y f.blocks) ≡ true
      → test starts_with_barrier (block y (put_end x f).blocks) ≡ true
  unfolding put_end create_barrier
  put_end-starts y =
      change-test starts_with_barrier _ x y f.blocks (λ b. refl)
        (λ b h. end-starts f.fresh b.insts h)

  put_end-has_inst :
      (y : ℕ)
      → test has_inst (block y f.blocks) ≡ true
      → test has_inst (block y (put_end x f).blocks) ≡ true
  unfolding put_end create_barrier
  put_end-has_inst y =
      change-test has_inst _ x y f.blocks (λ b. refl)
        (λ b h. insert_at-has_inst _ (terminator_place b) b.insts)

  put_end-stops :
      (y : ℕ)
      → test stops_with_barrier (block y f.blocks) ≡ true
      → test stops_with_barrier (block y (put_end x f).blocks) ≡ true
  unfolding put_end create_barrier
  put_end-stops y =
      change-test stops_with_barrier _ x y f.blocks (λ b. refl)
        (λ b h. end-stops f.fresh b.insts (some-inst b.insts h))
    where
      some-inst : (is : List Inst) → stops is ≡ true → ltb 0 (length is) ≡ true
      some-inst [] e = cc
      some-inst (i ∷ is) e = ground arith

  pub put_end-here :
      test has_inst (block x f.blocks) ≡ true
      → test stops_with_barrier (block x (put_end x f).blocks) ≡ true
  unfolding put_end create_barrier
  put_end-here =
      change-at has_inst stops_with_barrier _ x f.blocks (λ b. refl)
        (λ b h. end-stops f.fresh b.insts h)

pub put_front-away :
    (x y : ℕ) (f : Function) → (x == y) ≡ false → block y (put_front x f).blocks ≡ block y f.blocks
unfolding put_front create_barrier
put_front-away x y f = change-away _ x y f.blocks (λ b. refl)

pub put_end-away :
    (x y : ℕ) (f : Function) → (x == y) ≡ false → block y (put_end x f).blocks ≡ block y f.blocks
unfolding put_end create_barrier
put_end-away x y f = change-away _ x y f.blocks (λ b. refl)

-- Adding barriers keeps the rest of the function.
pub Adds-plain : {f g : Function} → Adds f g → without_barriers g.blocks ≡ without_barriers f.blocks
Adds-plain done = refl
Adds-plain (front {g} p x) = put_front-plain x g ∙ Adds-plain p
Adds-plain (end {g} p x) = put_end-plain x g ∙ Adds-plain p

-- A property of a block that adding barriers keeps.
pub Adds-keep :
    {f g : Function} (p : Block → Bool)
    → ((x y : ℕ) (h : Function)
        → test p (block y h.blocks) ≡ true
        → test p (block y (put_front x h).blocks) ≡ true)
    → ((x y : ℕ) (h : Function)
        → test p (block y h.blocks) ≡ true
        → test p (block y (put_end x h).blocks) ≡ true)
    → Adds f g
    → (y : ℕ) → test p (block y f.blocks) ≡ true
    → test p (block y g.blocks) ≡ true
Adds-keep p k l done y h = h
Adds-keep p k l (front {g} s x) y h = k x y g (Adds-keep p k l s y h)
Adds-keep p k l (end {g} s x) y h = l x y g (Adds-keep p k l s y h)

pub Adds-starts :
    {f g : Function}
    → Adds f g
    → (y : ℕ) → test starts_with_barrier (block y f.blocks) ≡ true
    → test starts_with_barrier (block y g.blocks) ≡ true
Adds-starts =
    Adds-keep starts_with_barrier (λ x y h. put_front-starts x h y) (λ x y h. put_end-starts x h y)

pub Adds-stops :
    {f g : Function}
    → Adds f g
    → (y : ℕ) → test stops_with_barrier (block y f.blocks) ≡ true
    → test stops_with_barrier (block y g.blocks) ≡ true
Adds-stops =
    Adds-keep stops_with_barrier (λ x y h. put_front-stops x h y) (λ x y h. put_end-stops x h y)

pub Adds-has_inst :
    {f g : Function}
    → Adds f g
    → (y : ℕ) → test has_inst (block y f.blocks) ≡ true
    → test has_inst (block y g.blocks) ≡ true
Adds-has_inst =
    Adds-keep has_inst (λ x y h. put_front-has_inst x h y) (λ x y h. put_end-has_inst x h y)

pub Adds-trans : {f g h : Function} → Adds f g → Adds g h → Adds f h
Adds-trans p done = p
Adds-trans p (front q x) = front (Adds-trans p q) x
Adds-trans p (end q x) = end (Adds-trans p q) x
