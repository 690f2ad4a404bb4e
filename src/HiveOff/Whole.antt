-- ===== src/HiveOff/Whole.antt =====
-- The whole of runOnFunction of hive_off_barrier.cpp: the entry and the exits, then the loop over the
-- barriers.
use vari_ocl.Base.{
  ℕ, zero, suc, ◌-◌, ◌≡◌, refl, sym, subst, true, false, not, ◌&&◌, List, [], ◌∷◌, ◌++◌, length,
  take, drop, arith, Bool-cases, inl, inr, ◌<◌, IsDistinct,
}
use vari_ocl.Ir.{
  Inst, Block, br, is_terminator, contains_just_a_barrier, has_barrier, ends_with_barrier,
  get_terminator, insert_at, barrier_call, create_barrier,
}
use vari_ocl.Ir.Barrier.{IsFormedInsts}
use vari_ocl.HiveOff.{
  Splitter, terminator_place, is_exit, hive_entry, hive_exit, hive_exits, run_on_function,
  process_barrier, collect_barriers, first_non_phi,
}
use vari_ocl.HiveOff.Shape.{All, All-append, barrier-phi}
use vari_ocl.HiveOff.Alone.{just, IsFormed, NoPhi, formed_pos}
use vari_ocl.HiveOff.Ends.{front_just, hive_exits-front, hive_entry-front}
use vari_ocl.HiveOff.Hived.{process_all-alone}

formed-take :
    (k : ℕ) (is : List Inst) (j : Inst)
    → IsFormedInsts is
    → k < length is
    → is_terminator j ≡ true
    → IsFormedInsts (take k is ++ j ∷ [])
formed-take zero is j f l t = t
formed-take (suc k) [] j f l t = absurd f
formed-take (suc k) (i ∷ []) j f l t = absurd (omega arith)
formed-take (suc zero) (i ∷ i' ∷ is) j f l t = (f.0, t)
formed-take (suc (suc k)) (i ∷ i' ∷ is) j f l t =
    (f.0, formed-take (suc k) (i' ∷ is) j f.1 (omega arith) t)

formed-drop :
    (k : ℕ) (is : List Inst) → IsFormedInsts is → k < length is → IsFormedInsts (drop k is)
formed-drop zero is f l = f
formed-drop (suc k) [] f l = absurd f
formed-drop (suc k) (i ∷ []) f l = absurd (omega arith)
formed-drop (suc k) (i ∷ j ∷ is) f l = formed-drop k (j ∷ is) f.1 (omega arith)

-- A call before the terminator leaves the block well formed.
formed-insert_last :
    (addr : ℕ) (i : Inst) (is : List Inst)
    → IsFormedInsts (i ∷ is)
    → IsFormedInsts (insert_at (length is) (barrier_call addr) (i ∷ is))
formed-insert_last addr i [] f = (refl, f)
formed-insert_last addr i (j ∷ []) f = (f.0, (refl, f.1))
formed-insert_last addr i (j ∷ k ∷ is) f = (f.0, formed-insert_last addr j (k ∷ is) f.1)

formed-insert_at :
    (addr : ℕ) (is : List Inst)
    → IsFormedInsts is
    → IsFormedInsts (insert_at (length is - 1) (barrier_call addr) is)
formed-insert_at addr [] f = absurd f
formed-insert_at addr (i ∷ is) f =
    let e : suc (length is) - 1 ≡ length is = omega arith in
    subst (λ n. IsFormedInsts (insert_at n (barrier_call addr) (i ∷ is))) (sym e)
      (formed-insert_last addr i is f)

jump-terminator : (j : Inst) (t : ℕ) → j.op ≡ br false (t ∷ []) → is_terminator j ≡ true
jump-terminator j t e = ground (arith, e)

front-NoPhi : (f : List Block) → front_just f ≡ true → NoPhi f
front-NoPhi [] h = tt
front-NoPhi (b ∷ bs) h = go b.insts h
  where
    go : (is : List Inst) → just is ≡ true → first_non_phi is ≡ 0
    go [] h = refl
    go (i ∷ is) h = rw (barrier-phi i (ground arith))

module _ (s : Splitter) where
  open s use {split, jump, jump_br, split_old, split_new}

  split_old-IsFormed :
      (b : Block) (k : ℕ) → IsFormed b → k < length b.insts → IsFormed (split b k).0
  split_old-IsFormed b k f l = subst IsFormedInsts (sym (split_old b k)) (
      formed-take k b.insts (jump b k) f l
        (jump-terminator (jump b k) (split b k).1.id (jump_br b k)))

  split_new-IsFormed :
      (b : Block) (k : ℕ) → IsFormed b → k < length b.insts → IsFormed (split b k).1
  split_new-IsFormed b k f l = subst IsFormedInsts (sym (split_new b k)) (formed-drop k b.insts f l)

  create_barrier-IsFormed :
      (addr : ℕ) (b : Block) → IsFormed b → IsFormed (create_barrier addr (terminator_place b) b)
  unfolding create_barrier
  create_barrier-IsFormed addr b f = formed-insert_at addr b.insts f

  hive_entry-IsFormed :
      (addr : ℕ) (f : List Block) → All IsFormed f → All IsFormed (hive_entry s addr f)
  unfolding hive_entry
  hive_entry-IsFormed addr [] w = tt
  hive_entry-IsFormed addr (b ∷ bs) w = elim (Bool-cases (contains_just_a_barrier b)) [
    | inl j ↦ rw j w
    | inr j ↦
        let l = formed_pos b.insts w.0 in
        rw j (
          create_barrier-IsFormed addr (split b 0).0 (split_old-IsFormed b 0 w.0 l),
          (split_new-IsFormed b 0 w.0 l, w.1),
        )
  ]

  hive_exit-IsFormed : (addr : ℕ) (b : Block) → IsFormed b → All IsFormed (hive_exit s addr b)
  unfolding hive_exit
  hive_exit-IsFormed addr b w =
      let pos = formed_pos b.insts w in
      elim (Bool-cases (is_exit s (get_terminator b) && not (contains_just_a_barrier b))) [
        | inr keep ↦ rw keep (w, tt)
        | inl cut ↦ elim (Bool-cases (ends_with_barrier b)) [
          | inl e ↦
              let l : length b.insts - 2 < length b.insts = omega arith in
              rw (cut, e)
                (
                  split_old-IsFormed b (length b.insts - 2) w l,
                  (split_new-IsFormed b (length b.insts - 2) w l, tt),
                )
          | inr e ↦
              let k = length b.insts - 1 in
              let l : k < length b.insts = omega arith in
              rw (cut, e)
                (
                  split_old-IsFormed b k w l,
                  (create_barrier-IsFormed addr (split b k).1 (split_new-IsFormed b k w l), tt),
                )
        ]
      ]

  hive_exits-IsFormed :
      (addr : ℕ → ℕ) (f : List Block) → All IsFormed f → All IsFormed (hive_exits s addr f)
  unfolding hive_exits
  hive_exits-IsFormed addr [] w = tt
  hive_exits-IsFormed addr (b ∷ bs) w =
      All-append IsFormed (hive_exit s (addr b.id) b) (hive_exits s addr bs)
        (hive_exit-IsFormed (addr b.id) b w.0) (hive_exits-IsFormed addr bs w.1)

  -- On a function of well-formed blocks, every block that holds a barrier after runOnFunction is just
  -- a barrier and a terminator: the assertion of `verifyAnalysis`. The barriers have distinct
  -- addresses once the pass has made those of the entry and the exits.
  pub run_on_function-alone :
      (entry_addr : ℕ) (exit_addr : ℕ → ℕ) (f : List Block)
      → All IsFormed f
      → IsDistinct (collect_barriers (hive_exits s exit_addr (hive_entry s entry_addr f)))
      → All
          (λ b. has_barrier b ≡ true → contains_just_a_barrier b ≡ true)
          (run_on_function s entry_addr exit_addr f)
  unfolding run_on_function process_barrier
  run_on_function-alone entry_addr exit_addr f w d =
      let g = hive_exits s exit_addr (hive_entry s entry_addr f) in
      process_all-alone s (collect_barriers g) g (λ c m. m)
        (front-NoPhi g (
          hive_exits-front s exit_addr (hive_entry s entry_addr f)
            (hive_entry-front s entry_addr f)))
        (hive_exits-IsFormed exit_addr (hive_entry s entry_addr f)
          (hive_entry-IsFormed entry_addr f w))
        d
