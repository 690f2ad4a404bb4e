-- ===== src/HiveOff/Order.antt =====
-- Splitting adds jumps and moves nothing: what is kept by a test that jumps fail stays in order.
use vari_ocl.Base.{
  ℕ, zero, suc, ◌+◌, ◌≡◌, refl, sym, ap, ◌∙◌, Bool, true, false, not, List, [], ◌∷◌, ◌++◌, length,
  take, drop, ◌==◌, keep, map, arith, Bool-cases, Option-cases, inl, inr, append_assoc, append-nil,
}
use vari_ocl.Ir.{Inst, Block, Op, br, is_barrier}
use vari_ocl.HiveOff.{
  Splitter, position, barriers_in, collect_barriers, split_before, hive, process_one, process_all,
}

keep-append : (p : Inst → Bool) (xs ys : List Inst) → keep p (xs ++ ys) ≡ keep p xs ++ keep p ys
keep-append p [] ys = refl
keep-append p (x ∷ xs) ys = ground (arith, keep-append p xs ys)

take-drop : (k : ℕ) (xs : List Inst) → take k xs ++ drop k xs ≡ xs
take-drop zero xs = refl
take-drop (suc k) [] = refl
take-drop (suc k) (x ∷ xs) = ap (λ zs. x ∷ zs) (take-drop k xs)

-- The instructions of a function that pass a test, in the order of the blocks.
abbrev pub flat : (Inst → Bool) → List Block → List Inst
flat p [] = []
flat p (b ∷ bs) = keep p b.insts ++ flat p bs

flat-append : (p : Inst → Bool) (bs cs : List Block) → flat p (bs ++ cs) ≡ flat p bs ++ flat p cs
flat-append p [] cs = refl
flat-append p (b ∷ bs) cs =
    ap (λ zs. keep p b.insts ++ zs) (flat-append p bs cs)
    ∙ sym (append_assoc (keep p b.insts) (flat p bs) (flat p cs))

module _ (s : Splitter) (p : Inst → Bool)
    (no_jump : (j : Inst) (t : ℕ) → j.op ≡ br false (t ∷ []) → p j ≡ false) where
  flat-split :
      (b : Block) (k : ℕ)
      → keep p (s.split b k).0.insts ++ keep p (s.split b k).1.insts ≡ keep p b.insts
  flat-split b k =
      let j = s.jump b k in
      let skip : keep p (j ∷ []) ≡ [] = rw (no_jump j (s.split b k).1.id (s.jump_br b k)) in
      ap (λ zs. keep p zs ++ keep p (s.split b k).1.insts) (s.split_old b k)
      ∙ ap (λ zs. keep p (take k b.insts ++ j ∷ []) ++ keep p zs) (s.split_new b k)
      ∙ ap (λ zs. zs ++ keep p (drop k b.insts))
          (keep-append p (take k b.insts) (j ∷ [])
            ∙ ap (λ zs. keep p (take k b.insts) ++ zs) skip
            ∙ append-nil (keep p (take k b.insts)))
      ∙ sym (keep-append p (take k b.insts) (drop k b.insts))
      ∙ ap (keep p) (take-drop k b.insts)

  flat-split_before :
      (front : Bool) (b : Block) (k : ℕ) → flat p (split_before s front b k) ≡ keep p b.insts
  unfolding split_before
  flat-split_before front b k = ground (
    arith,
    append-nil (keep p b.insts),
    flat-split b k,
    append-nil (keep p (s.split b k).1.insts),
  )

  flat-hive : (front : Bool) (b : Block) (k : ℕ) → flat p (hive s front b k) ≡ keep p b.insts
  unfolding hive
  flat-hive front b k = elim (Bool-cases (k + 2 == length b.insts)) [
    | inl last ↦
        rw (last, hive)
          (flat-append p (split_before s front b k) []
            ∙ append-nil (flat p (split_before s front b k))
            ∙ flat-split_before front b k)
    | inr more ↦
        rw (more, hive)
          (flat-append p (split_before s front (s.split b (k + 1)).0 k) ((s.split b (k + 1)).1 ∷ [])
            ∙ ground (
              arith,
              flat-split_before front (s.split b (k + 1)).0 k,
              append-nil (keep p (s.split b (k + 1)).1.insts),
              flat-split b (k + 1),
            ))
  ]

  flat-process_one :
      (a : ℕ) (front : Bool) (f : List Block) → flat p (process_one s a front f) ≡ flat p f
  unfolding process_one
  flat-process_one a front [] = refl
  flat-process_one a front (b ∷ bs) = elim (Option-cases (position a b.insts)) [
    | inl none_here ↦
        rw (none_here, process_one) (ap (λ zs. keep p b.insts ++ zs) (flat-process_one a false bs))
    | inr (k, here) ↦
        rw (here, process_one)
          (flat-append p (hive s front b k) bs ∙ ap (λ zs. zs ++ flat p bs) (flat-hive front b k))
  ]

  pub flat-process_all : (set : List ℕ) (f : List Block) → flat p (process_all s set f) ≡ flat p f
  unfolding process_all
  flat-process_all [] f = refl
  flat-process_all (a ∷ set) f =
      flat-process_all set (process_one s a true f) ∙ flat-process_one a true f

abbrev pub is_jump_op : Op → Bool
is_jump_op (br false (t ∷ [])) = true
is_jump_op _ = false

-- Hiving off the barriers, in any order of the set, neither adds nor removes nor reorders an
-- instruction that is not an unconditional branch.
pub process_all-order :
    (s : Splitter) (set : List ℕ) (f : List Block)
    → flat (λ i. not (is_jump_op i.op)) (process_all s set f) ≡ flat (λ i. not (is_jump_op i.op)) f
process_all-order s set f = flat-process_all s (λ i. not (is_jump_op i.op)) (λ j t e. rw e) set f

barriers_in-keep : (is : List Inst) → barriers_in is ≡ map (λ i. i.id) (keep is_barrier is)
barriers_in-keep [] = refl
barriers_in-keep (i ∷ is) = ground (arith, barriers_in-keep is)

map-append :
    (xs ys : List Inst) → map (λ i. i.id) (xs ++ ys) ≡ map (λ i. i.id) xs ++ map (λ i. i.id) ys
map-append [] ys = refl
map-append (x ∷ xs) ys = ap (λ zs. x.id ∷ zs) (map-append xs ys)

collect-flat : (f : List Block) → collect_barriers f ≡ map (λ i. i.id) (flat is_barrier f)
unfolding collect_barriers
collect-flat [] = refl
collect-flat (b ∷ bs) =
    ap (λ zs. zs ++ collect_barriers bs) (barriers_in-keep b.insts)
    ∙ ap (λ zs. map (λ i. i.id) (keep is_barrier b.insts) ++ zs) (collect-flat bs)
    ∙ sym (map-append (keep is_barrier b.insts) (flat is_barrier bs))

-- Hiving off the barriers, in any order of the set, neither adds nor loses nor reorders a barrier.
pub collect-process_all :
    (s : Splitter) (set : List ℕ) (f : List Block)
    → collect_barriers (process_all s set f) ≡ collect_barriers f
collect-process_all s set f =
    collect-flat (process_all s set f)
    ∙ ap (map (λ i. i.id)) (flat-process_all s is_barrier (λ j t e. rw e) set f)
    ∙ sym (collect-flat f)

pub collect-process_one :
    (s : Splitter) (a : ℕ) (f : List Block)
    → collect_barriers (process_one s a true f) ≡ collect_barriers f
collect-process_one s a f =
    collect-flat (process_one s a true f)
    ∙ ap (map (λ i. i.id)) (flat-process_one s is_barrier (λ j t e. rw e) a true f)
    ∙ sym (collect-flat f)
