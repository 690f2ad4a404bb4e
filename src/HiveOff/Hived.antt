-- ===== src/HiveOff/Hived.antt =====
-- After the pass over the barriers each stands alone in its block: the assertion of
-- `verifyAnalysis` holds.
use vari_ocl.Base.{
  ℕ, ◌≡◌, refl, sym, subst, ◌∙◌, Bool, true, false, ◌||◌, List, [], ◌∷◌, ◌++◌, elem, arith,
  Option-cases, inl, inr, elem-append, append_assoc, IsDistinct, ==_iff, ==_refl,
}
use vari_ocl.Ir.{Inst, Block, contains_just_a_barrier, has_barrier}
use vari_ocl.Ir.Barrier.{IsFormedInsts, barrier-terminator}
use vari_ocl.HiveOff.{
  Splitter, position, barriers_in, collect_barriers, hive, process_one, process_all,
}
use vari_ocl.HiveOff.Shape.{
  At, position-some, position-none, formed-cut, All, All-append, Pieces, hive_rule,
}
use vari_ocl.HiveOff.Order.{collect-process_one, collect-process_all}
use vari_ocl.HiveOff.Alone.{
  Hived, IsFormed, NoPhi, barriers_in-append, distinct_apart, IsDistinct-right, IsDistinct-left,
  barriers_in-jump, barriers_in-parts, ys-IsFormed, not_before, not_after, some_barrier,
  contains_just_a_barrier_lem,
}
use vari_ocl.HiveOff.Front.{process_one-NoPhi}

-- The pieces of a block whose barriers among `done` stand alone, after the round for `a`.
Hived-pieces :
    (s : Splitter) (a : ℕ) (done : List ℕ) (b : Block) (k : ℕ) (t : At a k b.insts)
    → IsFormed b
    → IsDistinct (barriers_in b.insts)
    → Hived done b.insts
    → Pieces s (Hived (a ∷ done)) t.xs t.ys t.i
Hived-pieces s a done b k t f d h = record {
  before = λ j to e c m n.
      let all = barriers_in-append t.xs (j ∷ []) in
      let in_xs : elem c (barriers_in t.xs) ≡ true =
        ground (arith, all, barriers_in-jump j to e, elem-append c (barriers_in t.xs) []) in
      let old : elem c done ≡ true = ground (arith, t.first, ==_iff c a) in
      absurd (
        not_before t c f in_xs (
          h c
            (ground
              (arith, barriers_in-parts t, elem-append c (barriers_in t.xs) (a ∷ barriers_in t.ys)))
            old));
  alone = λ j e c m n. rw t.barrier;
  after = λ c m n.
      let apart = distinct_apart (barriers_in t.xs ++ a ∷ []) (barriers_in t.ys) c (
        subst IsDistinct
          (barriers_in-parts t ∙ sym (append_assoc (barriers_in t.xs) (a ∷ []) (barriers_in t.ys)))
          d) in
      let old : elem c done ≡ true =
        ground (arith, apart, elem-append c (barriers_in t.xs) (a ∷ [])) in
      absurd (
        not_after t c f m (
          h c
            (ground
              (arith, barriers_in-parts t, elem-append c (barriers_in t.xs) (a ∷ barriers_in t.ys)))
            old));
}

formed_pieces :
    (s : Splitter) (a : ℕ) (b : Block) (k : ℕ) (t : At a k b.insts)
    → IsFormed b
    → Pieces s IsFormedInsts t.xs t.ys t.i
formed_pieces s a b k t f =
    let f' = subst IsFormedInsts t.parts f in
    record {
      before = λ j to e. formed-cut t.xs t.i j t.ys f' (rw e);
      alone = λ j e. (barrier-terminator t.i t.barrier, e);
      after = ys-IsFormed t f;
    }

Hived-more :
    (a : ℕ) (done : List ℕ) (is : List Inst)
    → elem a (barriers_in is) ≡ false
    → Hived done is
    → Hived (a ∷ done) is
Hived-more a done is e h c m n = h c m (ground (arith, ==_iff c a))

All-Hived-more :
    (a : ℕ) (done : List ℕ) (f : List Block)
    → elem a (collect_barriers f) ≡ false
    → All (λ b. Hived done b.insts) f
    → All (λ b. Hived (a ∷ done) b.insts) f
unfolding collect_barriers
All-Hived-more a done [] e h = tt
All-Hived-more a done (b ∷ bs) e h =
    let split = elem-append a (barriers_in b.insts) (collect_barriers bs) in
    (Hived-more a done b.insts (ground arith) h.0, All-Hived-more a done bs (ground arith) h.1)

module _ (s : Splitter) where
  process_one-Hived :
      (a : ℕ) (done : List ℕ) (front : Bool) (f : List Block)
      → (front ≡ true → NoPhi f)
      → All IsFormed f
      → IsDistinct (collect_barriers f)
      → All (λ b. Hived done b.insts) f
      → All (λ b. Hived (a ∷ done) b.insts) (process_one s a front f)
  unfolding process_one collect_barriers
  process_one-Hived a done front [] entry w d h = tt
  process_one-Hived a done front (b ∷ bs) entry w d h = elim (Option-cases (position a b.insts)) [
    | inl e ↦
        rw (e, process_one)
          (
            Hived-more a done b.insts (position-none a b.insts e) h.0,
            process_one-Hived a done false bs (λ n. cc) w.1
                (IsDistinct-right (barriers_in b.insts) (collect_barriers bs) d) h.1,
          )
    | inr (k, e) ↦
        let t = position-some a k b.insts e in
        let here = IsDistinct-left (barriers_in b.insts) (collect_barriers bs) d in
        let in_b : elem a (barriers_in b.insts) ≡ true = ground (
          arith,
          barriers_in-parts t,
          elem-append a (barriers_in t.xs) (a ∷ barriers_in t.ys),
          ==_refl a,
        ) in
        rw (e, process_one)
          (All-append (λ c. Hived (a ∷ done) c.insts) (hive s front b k) bs
            (hive_rule s (Hived (a ∷ done)) t.xs t.ys t.i front b k
              (Hived-pieces s a done b k t w.0 here h.0) t.barrier (ys-IsFormed t w.0) t.place entry
              t.parts)
            (All-Hived-more a done bs
              (distinct_apart (barriers_in b.insts) (collect_barriers bs) a d in_b) h.1))
  ]

  process_one-IsFormed :
      (a : ℕ) (front : Bool) (f : List Block)
      → (front ≡ true → NoPhi f)
      → All IsFormed f
      → All IsFormed (process_one s a front f)
  unfolding process_one
  process_one-IsFormed a front [] entry w = tt
  process_one-IsFormed a front (b ∷ bs) entry w = elim (Option-cases (position a b.insts)) [
    | inl e ↦ rw (e, process_one) (w.0, process_one-IsFormed a false bs (λ n. cc) w.1)
    | inr (k, e) ↦
        let t = position-some a k b.insts e in
        rw (e, process_one)
          (All-append IsFormed (hive s front b k) bs
            (hive_rule s IsFormedInsts t.xs t.ys t.i front b k (formed_pieces s a b k t w.0)
              t.barrier (ys-IsFormed t w.0) t.place entry t.parts)
            w.1)
  ]

  process_all-Hived :
      (set done : List ℕ) (f : List Block)
      → NoPhi f
      → All IsFormed f
      → IsDistinct (collect_barriers f)
      → All (λ b. Hived done b.insts) f
      → (fin : List ℕ) × ((c : ℕ) → elem c fin ≡ (elem c set || elem c done))
        × All (λ b. Hived fin b.insts) (process_all s set f)
  unfolding process_all
  process_all-Hived [] done f n w d h = (done, λ c. refl, h)
  process_all-Hived (a ∷ set) done f n w d h =
      let f' = process_one s a true f in
      let (fin, e, g) =
        process_all-Hived set (a ∷ done) f' (process_one-NoPhi s a f w n)
          (process_one-IsFormed a true f (λ t. n) w)
          (subst IsDistinct (sym (collect-process_one s a f)) d)
          (process_one-Hived a done true f (λ t. n) w d h) in
      (fin, λ c. ground (arith, e c), g)

  Hived-nil : (f : List Block) → All (λ b. Hived [] b.insts) f
  Hived-nil [] = tt
  Hived-nil (b ∷ bs) = (λ c m n. cc, Hived-nil bs)

  alone_of_Hived :
      (fin : List ℕ) (f : List Block)
      → ((c : ℕ) → elem c (collect_barriers f) ≡ true → elem c fin ≡ true)
      → All (λ b. Hived fin b.insts) f
      → All (λ b. has_barrier b ≡ true → contains_just_a_barrier b ≡ true) f
  unfolding collect_barriers
  alone_of_Hived fin [] all h = tt
  alone_of_Hived fin (b ∷ bs) all h = (
    λ m.
        let (c, e) = some_barrier b m in
        rw (contains_just_a_barrier_lem b) (
          h.0 c e
            (all c (ground (arith, elem-append c (barriers_in b.insts) (collect_barriers bs))))),
    alone_of_Hived fin bs
        (λ c m. all c (ground (arith, elem-append c (barriers_in b.insts) (collect_barriers bs))))
        h.1,
  )

  -- Run over the barriers of a function in any order of the set, every block that holds a barrier
  -- ends as a barrier and a terminator, so the assertion of `verifyAnalysis` holds. The blocks are
  -- well formed, the barriers have distinct addresses, and the first block starts with no PHI.
  pub process_all-alone :
      (set : List ℕ) (f : List Block)
      → ((c : ℕ) → elem c (collect_barriers f) ≡ true → elem c set ≡ true)
      → NoPhi f
      → All IsFormed f
      → IsDistinct (collect_barriers f)
      → All (λ b. has_barrier b ≡ true → contains_just_a_barrier b ≡ true) (process_all s set f)
  process_all-alone set f covers n w d =
      let (fin, e, g) = process_all-Hived set [] f n w d (Hived-nil f) in
      alone_of_Hived fin (process_all s set f)
        (λ c m.
          ground
            (arith, e c, covers c (subst (λ l. elem c l ≡ true) (collect-process_all s set f) m)))
        g
