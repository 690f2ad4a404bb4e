-- ===== src/AuxBarriers/AroundLoop/Placed.antt =====
-- Where LoopBarriers (LoopBarriers.cpp) puts the barriers of a loop with a barrier.
use vari_ocl.Base.{
  ◌&&◌, ◌+◌, ℕ, ◌≡◌, refl, ap, sym, subst, Bool, true, false, not, List, [], ◌∷◌, Option, none,
  some, elem, length, ltb, ◌==◌, Bool-cases, inl, inr, arith,
}
use vari_ocl.Ir.{Inst, Block}
use vari_ocl.HiveOff.{Splitter, first_non_phi}
use vari_ocl.AuxBarriers.{Function, put_end, block, test, Loop, members_in}
use vari_ocl.AuxBarriers.Adds.{
  Adds, done, end, Adds-trans, Adds-plain, Adds-starts, Adds-stops, Adds-has_inst, put_front-here,
  put_end-here, put_end-count, put_end-away,
}
use vari_ocl.AuxBarriers.Insert.{
  barriers_at, one_if, has_inst, starts_with_barrier, stops_with_barrier, without_barriers,
}
use vari_ocl.AuxBarriers.AroundLoop.{
  first_barrier_block, has_phis, put_header, put_exiting, differs, is_latch, put_latch,
  process_loop,
}
use vari_ocl.AuxBarriers.AroundLoop.Counts.{
  put_header-Adds, put_exiting-Adds, put_latches-Adds, put_latches-stops, put_latch-Adds, hits,
  put_header-count, put_exiting-count, latch_count, put_latch-count,
}

-- A loop with a preheader and a header.
abbrev pub canonical : List ℕ → ℕ → ℕ → ℕ → Option ℕ → Option ℕ → Loop
canonical members subs p h exiting latch = record {
  members = members;
  sub_loops = subs;
  preheader = some p;
  header = some h;
  exiting = exiting;
  latch = latch;
}

-- The code returns false where the latch is not the exiting block, and true otherwise.
abbrev pub is_apart : Option ℕ → Option ℕ → Bool
is_apart e none = false
is_apart e (some n) = differs e n

module _ (preds : ℕ → List ℕ) (dominates : ℕ → ℕ → Bool) (s : Splitter) where
  abbrev pub IsIn : Function → ℕ → Type 0
  IsIn f x = test has_inst (block x f.blocks) ≡ true

  abbrev pub Stops : Function → ℕ → Type 0
  Stops f x = test stops_with_barrier (block x f.blocks) ≡ true

  -- Where a loop with the barrier's block `j` has its barriers in `g`, when it is as in `f` before.
  pub record Placed (l : Loop) (p h j : ℕ) (f g : Function) : Type 0 where
    pub rest : without_barriers g.blocks ≡ without_barriers f.blocks
    pub at_preheader : IsIn f p → Stops g p
    pub at_header :
        (p == h) ≡ false
        → test has_phis (block h f.blocks) ≡ true
        → test starts_with_barrier (block h g.blocks) ≡ true
    pub at_exiting : (e : ℕ) → l.exiting ≡ some e → IsIn f e → Stops g e
    pub at_latch : (n : ℕ) → l.latch ≡ some n → IsIn f n → Stops g n
    pub at_latches :
        (n : ℕ)
        → l.latch ≡ none
        → elem n (preds h) ≡ true
        → is_latch preds dominates l j n ≡ true
        → IsIn f n
        → Stops g n
    pub number :
        (y : ℕ)
        → (p == h) ≡ false
        → IsIn f y
        → barriers_at y g.blocks
          ≡ barriers_at y f.blocks
            + one_if (p == y)
            + one_if (test has_phis (block h f.blocks) && h == y)
            + hits l.exiting y
            + latch_count preds dominates l j l.latch h y

  -- The state before the latch.
  before : Loop → ℕ → ℕ → Function → Function
  before l p h f = put_exiting l.exiting (put_header h (put_end p f))

  header-Adds : (p h : ℕ) (f : Function) → Adds f (put_header h (put_end p f))
  header-Adds p h f = Adds-trans (end done p) (put_header-Adds h (put_end p f))

  before-Adds : (l : Loop) (p h : ℕ) (f : Function) → Adds f (before l p h f)
  unfolding before
  before-Adds l p h f = Adds-trans (header-Adds p h f) (put_exiting-Adds l.exiting _)

  put_header-starts :
      (h : ℕ) (f : Function)
      → test has_phis (block h f.blocks) ≡ true
      → test starts_with_barrier (block h (put_header h f).blocks) ≡ true
  unfolding put_header
  put_header-starts h f e = rw e (put_front-here h f (phis-inst (block h f.blocks) e))
    where
      go : (is : List Inst) → ltb 0 (first_non_phi is) ≡ true → ltb 0 (length is) ≡ true
      go [] q = q
      go (i ∷ is) q = ground arith

      phis-inst : (o : Option Block) → test has_phis o ≡ true → test has_inst o ≡ true
      phis-inst none q = q
      phis-inst (some b) q = go b.insts q

  around-Placed :
      (l : Loop) (p h j : ℕ) (f : Function)
      → Placed l p h j f (put_latch preds dominates l l.latch j h (before l p h f)).0
  unfolding before put_exiting put_end put_latch
  around-Placed l p h j f = record {
    rest = Adds-plain (Adds-trans (before-Adds l p h f) after);
    at_preheader = λ i.
        Adds-stops
          (Adds-trans
            (Adds-trans (put_header-Adds h (put_end p f)) (exits (put_header h (put_end p f))))
            after)
          p (put_end-here p f i);
    at_header = λ a q. Adds-starts (Adds-trans (exits _) after) h (
        put_header-starts h (put_end p f)
          (subst (λ o. test has_phis o ≡ true) (sym (put_end-away p h f a)) q));
    at_exiting = λ e q i. Adds-stops after e (
        exiting-stops l.exiting e (put_header h (put_end p f)) q
          (Adds-has_inst (header-Adds p h f) e i));
    at_latch = λ n q i.
        latch-stops l.latch n (before l p h f) q (Adds-has_inst (before-Adds l p h f) n i) (λ d.
          exiting-stops l.exiting n (put_header h (put_end p f)) (differs-same l.exiting n d)
            (Adds-has_inst (header-Adds p h f) n i));
    at_latches = λ n q m k i.
        subst (λ o. Stops (put_latch preds dominates l o j h (before l p h f)).0 n) (sym q)
          (put_latches-stops preds dominates l j n (preds h) (before l p h f) m k
            (Adds-has_inst (before-Adds l p h f) n i));
    number = λ y a i.
        let c1 = put_end-count p f y i in
        let c2 = put_header-count (put_end p f) y (Adds-has_inst (end done p) y i) h in
        let c3 =
          put_exiting-count (put_header h (put_end p f)) y (Adds-has_inst (header-Adds p h f) y i)
            l.exiting in
        let c4 =
          put_latch-count preds dominates l j l.latch h (before l p h f) y
            (Adds-has_inst (before-Adds l p h f) y i) in
        let same = ap (λ o. one_if (test has_phis o && h == y)) (put_end-away p h f a) in
        omega (arith, c1, c2, c3, c4, same);
  }
    where
      after : Adds (before l p h f) (put_latch preds dominates l l.latch j h (before l p h f)).0
      after = put_latch-Adds preds dominates l j l.latch h (before l p h f)

      exits : (g : Function) → Adds g (put_exiting l.exiting g)
      exits g = put_exiting-Adds l.exiting g

      exiting-stops :
          (o : Option ℕ) (e : ℕ) (g : Function) → o ≡ some e → IsIn g e → Stops (put_exiting o g) e
      exiting-stops o e g q i = subst (λ u. Stops (put_exiting u g) e) (sym q) (put_end-here e g i)

      differs-same : (o : Option ℕ) (n : ℕ) → differs o n ≡ false → o ≡ some n
      differs-same none n d = cc
      differs-same (some e) n d = ap some (ground arith)

      latch-stops :
          (o : Option ℕ) (n : ℕ) (g : Function)
          → o ≡ some n
          → IsIn g n
          → (differs l.exiting n ≡ false → Stops g n)
          → Stops (put_latch preds dominates l o j h g).0 n
      latch-stops o n g q i d =
          subst (λ u. Stops (put_latch preds dominates l u j h g).0 n) (sym q)
            (elim (Bool-cases (differs l.exiting n)) [
              | inl e ↦ rw e (put_end-here n g i)
              | inr e ↦ rw e (Adds-stops (put_latches-Adds preds dominates l j (preds h) g) n (d e))
            ])

  -- A loop with a preheader, a header and a barrier, the first one in block `j`, is left with a barrier
  -- before the terminators of its preheader, its exiting block and its latch, where there is one, and
  -- without a latch of those predecessors of the header in the loop that `j` dominates, and with a
  -- barrier behind the PHIs of the header if it has some; each of these blocks has an instruction,
  -- and the preheader is not the header. All that is no barrier stays, and a block with an
  -- instruction gets one barrier for being the preheader, one for being the header with PHIs, one for
  -- being the exiting block and one for being a latch apart from it, or, where there is no such latch,
  -- one for each of its edges to the header, if it is one of these predecessors, and no other. The pass
  -- returns false if there is a latch that is not the exiting block, and true otherwise.
  pub process_loop-Placed :
      (members : List ℕ) (subs p h j : ℕ) (exiting latch : Option ℕ) (f : Function)
      → first_barrier_block (members_in members f.blocks) ≡ some j
      → (g : Function) × (process_loop preds dominates s
            (canonical members subs p h exiting latch)
            f
          ≡ some (g, not (is_apart exiting latch)))
        × Placed (canonical members subs p h exiting latch) p h j f g
  unfolding process_loop before
  process_loop-Placed members subs p h j exiting latch f e = (
    (put_latch preds dominates l latch j h (before l p h f)).0,
    rw (process_loop, e) (ap some (returned latch)),
    around-Placed l p h j f,
  )
    where
      l : Loop
      l = canonical members subs p h exiting latch

      returned :
          (o : Option ℕ)
          → put_latch preds dominates l o j h (before l p h f)
            ≡ ((put_latch preds dominates l o j h (before l p h f)).0, not (is_apart exiting o))
      returned none = refl
      returned (some n) = elim (Bool-cases (differs exiting n)) [
        | inl d ↦ rw d refl
        | inr d ↦ rw d refl
      ]
