-- ===== src/AuxBarriers/AroundLoop/Counts.antt =====
-- What each insertion of LoopBarriers (LoopBarriers.cpp) keeps, and how many barriers a block gets
-- from it.
use vari_ocl.Base.{
  ◌&&◌, ◌+◌, keep, ℕ, ◌≡◌, ap, sym, subst, Bool, true, false, List, [], ◌∷◌, Option, none, some,
  elem, ◌==◌, if◌then◌else◌, Bool-cases, inl, inr, ==_iff, arith,
}
use vari_ocl.AuxBarriers.{Function, put_end, block, test, Loop}
use vari_ocl.AuxBarriers.Adds.{
  Adds, done, front, end, Adds-trans, Adds-stops, Adds-has_inst, put_end-here, put_front-count,
  put_end-count,
}
use vari_ocl.AuxBarriers.Insert.{barriers_at, one_if, has_inst, stops_with_barrier}
use vari_ocl.AuxBarriers.AroundLoop.{
  has_phis, put_header, put_exiting, differs, is_latch, put_latches, put_latch,
}

either-Adds : (t : Bool) (f g h : Function) → Adds f g → Adds f h → Adds f (if t then g else h)
either-Adds true f g h p q = p
either-Adds false f g h p q = q

pub put_header-Adds : (h : ℕ) (f : Function) → Adds f (put_header h f)
unfolding put_header
put_header-Adds h f = either-Adds (test has_phis (block h f.blocks)) f _ f (front done h) done

pub put_exiting-Adds : (e : Option ℕ) (f : Function) → Adds f (put_exiting e f)
unfolding put_exiting
put_exiting-Adds none f = done
put_exiting-Adds (some e) f = end done e

module _ (preds : ℕ → List ℕ) (dominates : ℕ → ℕ → Bool) (l : Loop) (j : ℕ) where
  pub put_latches-Adds :
      (ns : List ℕ) (f : Function) → Adds f (put_latches preds dominates l j ns f)
  unfolding put_latches
  put_latches-Adds [] f = done
  put_latches-Adds (n ∷ ns) f =
      Adds-trans (either-Adds (is_latch preds dominates l j n) f (put_end n f) f (end done n) done)
        (put_latches-Adds ns _)

  put_latches-one :
      (n : ℕ) (ns : List ℕ) (f : Function)
      → is_latch preds dominates l j n ≡ true
      → put_latches preds dominates l j (n ∷ ns) f
        ≡ put_latches preds dominates l j ns (put_end n f)
  unfolding put_latches
  put_latches-one n ns f h =
      ap (λ t. put_latches preds dominates l j ns (if t then put_end n f else f)) h

  pub put_latches-stops :
      (n : ℕ) (ns : List ℕ) (f : Function)
      → elem n ns ≡ true
      → is_latch preds dominates l j n ≡ true
      → test has_inst (block n f.blocks) ≡ true
      → test stops_with_barrier (block n (put_latches preds dominates l j ns f).blocks) ≡ true
  unfolding put_latches
  put_latches-stops n [] f m k h = cc
  put_latches-stops n (o ∷ ns) f m k h = elim (Bool-cases (n == o)) [
    | inr away ↦ put_latches-stops n ns _ (ground arith) k (
        Adds-has_inst
          (either-Adds (is_latch preds dominates l j o) f (put_end o f) f (end done o) done) n h)
    | inl at ↦
        subst (λ g. test stops_with_barrier (block n g.blocks) ≡ true)
          (sym (
            put_latches-one o ns f
              (subst (λ v. is_latch preds dominates l j v ≡ true) ((==_iff n o).0 at) k)))
          (Adds-stops (put_latches-Adds ns (put_end o f)) n (
            subst (λ v. test stops_with_barrier (block n (put_end v f).blocks) ≡ true)
              ((==_iff n o).0 at) (put_end-here n f h)))
  ]

  pub put_latch-Adds :
      (latch : Option ℕ) (h : ℕ) (f : Function) → Adds f (put_latch preds dominates l latch j h f).0
  unfolding put_latch
  put_latch-Adds none h f = put_latches-Adds (preds h) f
  put_latch-Adds (some n) h f = elim (Bool-cases (differs l.exiting n)) [
    | inl d ↦ rw d (end done n)
    | inr d ↦ rw d (put_latches-Adds (preds h) f)
  ]

-- How often an address stands in a list, and whether it is there at all.
abbrev pub times : ℕ → List ℕ → ℕ
times y [] = 0
times y (x ∷ xs) = one_if (x == y) + times y xs

abbrev pub hits : Option ℕ → ℕ → ℕ
hits none y = 0
hits (some x) y = one_if (x == y)

either-count :
    (t : Bool) (f g h : Function) (y n m : ℕ)
    → barriers_at y g.blocks ≡ barriers_at y f.blocks + n
    → barriers_at y h.blocks ≡ barriers_at y f.blocks + m
    → barriers_at y (if t then g else h).blocks ≡ barriers_at y f.blocks + (if t then n else m)
either-count true f g h y n m p q = p
either-count false f g h y n m p q = q

module _ (f : Function) (y : ℕ) (i : test has_inst (block y f.blocks) ≡ true) where
  pub put_header-count :
      (h : ℕ)
      → barriers_at y (put_header h f).blocks
        ≡ barriers_at y f.blocks + one_if (test has_phis (block h f.blocks) && h == y)
  unfolding put_header
  put_header-count h = elim (Bool-cases (test has_phis (block h f.blocks))) [
    | inl e ↦ rw e (put_front-count h f y i)
    | inr e ↦ rw e (omega arith)
  ]

  pub put_exiting-count :
      (e : Option ℕ) → barriers_at y (put_exiting e f).blocks ≡ barriers_at y f.blocks + hits e y
  unfolding put_exiting
  put_exiting-count none = omega arith
  put_exiting-count (some e) = put_end-count e f y i

module _ (preds : ℕ → List ℕ) (dominates : ℕ → ℕ → Bool) (l : Loop) (j : ℕ) where
  put_latches-count :
      (ns : List ℕ) (f : Function) (y : ℕ)
      → test has_inst (block y f.blocks) ≡ true
      → barriers_at y (put_latches preds dominates l j ns f).blocks
        ≡ barriers_at y f.blocks + times y (keep (is_latch preds dominates l j) ns)
  unfolding put_latches
  put_latches-count [] f y i = omega arith
  put_latches-count (n ∷ ns) f y i =
      go (put_latches-count ns (put_end n f) y (Adds-has_inst (end done n) y i))
        (put_latches-count ns f y i) (is_latch preds dominates l j n)
    where
      rest : List ℕ
      rest = keep (is_latch preds dominates l j) ns

      Counts : Function → Type 0
      Counts g =
          barriers_at y (put_latches preds dominates l j ns g).blocks
          ≡ barriers_at y g.blocks + times y rest

      go :
          Counts (put_end n f)
          → Counts f
          → (t : Bool)
          → barriers_at y (put_latches preds dominates l j ns (if t then put_end n f else f)).blocks
            ≡ barriers_at y f.blocks + times y (if t then n ∷ rest else rest)
      go p q true = omega (arith, put_end-count n f y i, p)
      go p q false = q

  -- What the code from the latch on puts into a block: one barrier into a latch apart, and else one
  -- for each edge to the header that comes from a latch.
  abbrev pub latch_count : Option ℕ → ℕ → ℕ → ℕ
  latch_count none h y = times y (keep (is_latch preds dominates l j) (preds h))
  latch_count (some n) h y =
      if differs l.exiting n
      then one_if (n == y)
      else times y (keep (is_latch preds dominates l j) (preds h))

  pub put_latch-count :
      (latch : Option ℕ) (h : ℕ) (f : Function) (y : ℕ)
      → test has_inst (block y f.blocks) ≡ true
      → barriers_at y (put_latch preds dominates l latch j h f).0.blocks
        ≡ barriers_at y f.blocks + latch_count latch h y
  unfolding put_latch
  put_latch-count none h f y i = put_latches-count (preds h) f y i
  put_latch-count (some n) h f y i = elim (Bool-cases (differs l.exiting n)) [
    | inl d ↦ rw d (put_end-count n f y i)
    | inr d ↦ rw d (put_latches-count (preds h) f y i)
  ]
