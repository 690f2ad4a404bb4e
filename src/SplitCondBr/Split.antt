-- ===== src/SplitCondBr/Split.antt =====
-- What SplitBBAtCondBr (split_bb_at_condbr.cpp) leaves of the blocks.
use vari_ocl.Base.{
  ℕ, suc, ◌-◌, ◌≡◌, refl, sym, ap, subst, ◌∙◌, Bool, true, false, not, ◌&&◌, ◌||◌, List, [], ◌∷◌,
  ◌++◌, Option, none, some, length, take, drop, any, all, ◌==◌, if◌then◌else◌, arith, Bool-cases,
  inl, inr,
}
use vari_ocl.Ir.{Inst, Block, get_terminator, ends_with_barrier, last?, is_terminator}
use vari_ocl.HiveOff.{Splitter, terminator_place}
use vari_ocl.SplitCondBr.{
  is_conditional_op, is_conditional, needs_split, split_branch, split_branches, run_on_function,
}

-- A conditional branch stands alone in its block, or a barrier comes before it.
abbrev pub is_apart : Block → Bool
unfolding ends_with_barrier
is_apart b = not (is_conditional (get_terminator b)) || length b.insts == 1 || ends_with_barrier b

suc-minus : (n : ℕ) → suc n - 1 ≡ n
suc-minus n = omega arith

drop-last : (is : List Inst) (t : Inst) → last? is ≡ some t → drop (length is - 1) is ≡ t ∷ []
drop-last [] t h = cc
drop-last (i ∷ []) t h = ap (λ x. x ∷ []) (cc)
drop-last (i ∷ j ∷ is) t h =
    rw (suc-minus (suc (length is)))
      (subst (λ n. drop n (j ∷ is) ≡ t ∷ []) (suc-minus (length is)) (drop-last (j ∷ is) t h))

last?-append : (is : List Inst) (t : Inst) → last? (is ++ t ∷ []) ≡ some t
last?-append [] t = refl
last?-append (i ∷ []) t = refl
last?-append (i ∷ j ∷ is) t = last?-append (j ∷ is) t

get_terminator-none : (b : Block) → last? b.insts ≡ none → get_terminator b ≡ none
get_terminator-none b e = rw (get_terminator, e) refl

get_terminator-last :
    (b : Block) (t : Inst)
    → last? b.insts ≡ some t
    → get_terminator b ≡ (if is_terminator t then some t else none)
get_terminator-last b t e = rw (get_terminator, e) refl

-- Of a conditional terminator, that it is the last instruction.
conditional-last :
    (b : Block) → is_conditional (get_terminator b) ≡ true → (t : Inst) × (last? b.insts ≡ some t)
conditional-last b h = go (last? b.insts) refl
  where
    none-false : is_conditional none ≡ true → ⊥
    none-false q = cc

    go : (o : Option Inst) → last? b.insts ≡ o → (t : Inst) × (last? b.insts ≡ some t)
    go none e = absurd (none-false (sym (ap is_conditional (get_terminator-none b e)) ∙ h))
    go (some t) e = (t, e)

last-plain :
    (b : Block) (t : Inst)
    → last? b.insts ≡ some t
    → is_conditional_op t.op ≡ false
    → is_conditional (get_terminator b) ≡ false
last-plain b t e h = ap is_conditional (get_terminator-last b t e) ∙ plain (is_terminator t)
  where
    plain : (k : Bool) → is_conditional (if k then some t else none) ≡ false
    plain true = h
    plain false = refl

unsplit : (x y z : Bool) → (x && not z) ≡ false → (not x || y || z) ≡ true
unsplit true true true h = refl
unsplit true true false h = refl
unsplit true false true h = refl
unsplit true false false h = cc
unsplit false y z h = refl

is_apart-plain : (b : Block) → is_conditional (get_terminator b) ≡ false → is_apart b ≡ true
unfolding is_apart
is_apart-plain b h = ap (λ x. not x || length b.insts == 1 || ends_with_barrier b) h

is_apart-alone : (b : Block) (t : Inst) → b.insts ≡ t ∷ [] → is_apart b ≡ true
unfolding is_apart
is_apart-alone b t h =
    alone (is_conditional (get_terminator b)) (ends_with_barrier b) (ap (λ is. length is == 1) h)
  where
    alone : (x z : Bool) {y : Bool} → y ≡ true → (not x || y || z) ≡ true
    alone true z {y} k = rw k refl
    alone false z {y} k = refl

module _ (s : Splitter) where
  open s use {split, jump, jump_br, split_old, split_new}

  split_branch-apart : (b : Block) → all is_apart (split_branch s b) ≡ true
  unfolding split_branch needs_split is_apart
  split_branch-apart b = elim (Bool-cases (needs_split b)) [
    | inr e ↦ rw e (
        ap (λ x. x && true)
          (unsplit (is_conditional (get_terminator b)) (length b.insts == 1) (ends_with_barrier b)
            e))
    | inl e ↦
        rw e
          (ap (λ x. x && (is_apart new && true)) (old-apart k) ∙ ap (λ x. x && true) (new-apart e))
  ]
    where
      k : ℕ
      k = terminator_place b

      new : Block
      new = (split b k).1

      old-apart : (n : ℕ) → is_apart (split b n).0 ≡ true
      old-apart n = is_apart-plain (split b n).0 (
          last-plain (split b n).0 (jump b n)
            (ap last? (split_old b n) ∙ last?-append (take n b.insts) (jump b n))
            (ap is_conditional_op (jump_br b n)))

      new-apart : needs_split b ≡ true → is_apart new ≡ true
      new-apart e =
          let (t, q) = conditional-last b (left _ _ e) in
          is_apart-alone new t (split_new b k ∙ drop-last b.insts t q)
        where
          left : (x y : Bool) → (x && y) ≡ true → x ≡ true
          left true y h = refl
          left false y h = cc

  all-append :
      (xs ys : List Block)
      → all is_apart xs ≡ true
      → all is_apart ys ≡ true
      → all is_apart (xs ++ ys) ≡ true
  all-append [] ys h k = k
  all-append (x ∷ xs) ys h k = ground (arith, all-append xs ys)

  split_branches-apart : (f : List Block) → all is_apart (split_branches s f) ≡ true
  unfolding split_branches
  split_branches-apart [] = refl
  split_branches-apart (b ∷ bs) =
      all-append (split_branch s b) (split_branches s bs) (split_branch-apart b)
        (split_branches-apart bs)

  split_branches-same : (f : List Block) → any needs_split f ≡ false → split_branches s f ≡ f
  unfolding split_branches split_branch
  split_branches-same [] h = refl
  split_branches-same (b ∷ bs) h = elim (Bool-cases (needs_split b)) [
    | inl e ↦ absurd (ground arith)
    | inr e ↦ rw (e, split_branches-same bs (ground arith)) refl
  ]

  -- After runOnFunction every conditional branch is alone in its block or comes behind a barrier, and
  -- where the pass says that it changed nothing, the function is as it was.
  pub run_on_function-apart :
      (f : List Block)
      → (all is_apart (run_on_function s f).0 ≡ true)
        × ((run_on_function s f).1 ≡ false → (run_on_function s f).0 ≡ f)
  unfolding run_on_function
  run_on_function-apart f = (split_branches-apart f, split_branches-same f)
