-- ===== src/HiveOff/Shape.antt =====
-- What one split round makes of a block: the pieces, by the place of the barrier.
use vari_ocl.Base.{
  ℕ, suc, ◌+◌, ◌≡◌, refl, sym, ap, subst, ◌∙◌, Bool, true, false, ◌&&◌, List, [], ◌∷◌, ◌++◌, none,
  some, length, take, drop, ◌==◌, elem, Option-cases, arith, length-append, take-length,
  drop-length, Bool-cases, inl, inr, append_assoc,
}
use vari_ocl.Ir.{
  Inst, Block, Op, br, is_barrier, is_terminator, is_phi_op, is_barrier_op, phi, call, alloca,
  terminator, other,
}
use vari_ocl.Ir.Barrier.{IsFormedInsts}
use vari_ocl.HiveOff.{Splitter, first_non_phi, position, barriers_in, split_before, hive}

-- The barrier at a place, with the instructions before and behind it.
pub record At (a k : ℕ) (is : List Inst) : Type 0 where
  pub xs : List Inst
  pub i : Inst
  pub ys : List Inst
  pub parts : is ≡ xs ++ i ∷ ys
  pub place : k ≡ length xs
  pub barrier : is_barrier i ≡ true
  pub addr : i.id ≡ a
  pub first : elem a (barriers_in xs) ≡ false

At-cons :
    (a k m : ℕ) (j : Inst) (is : List Inst)
    → (is_barrier j && j.id == a) ≡ false
    → k ≡ suc m
    → At a m is
    → At a k (j ∷ is)
At-cons a k m j is miss e t = record {
  xs = j ∷ t.xs;
  i = t.i;
  ys = t.ys;
  parts = ap (λ zs. j ∷ zs) t.parts;
  place = ground (arith, t.place);
  barrier = t.barrier;
  addr = t.addr;
  first = ground (arith, t.first);
}

pub position-some : (a k : ℕ) (is : List Inst) → position a is ≡ some k → At a k is
position-some a k [] e = cc
position-some a k (j ∷ is) e = elim (Bool-cases (is_barrier j && j.id == a)) [
  | inl hit ↦ record {
    xs = [];
    i = j;
    ys = is;
    parts = refl;
    place = ground arith;
    barrier = ground arith;
    addr = ground arith;
    first = refl;
  }
  | inr miss ↦ elim (Option-cases (position a is)) [
    | inl no_place ↦ let h : position a (j ∷ is) ≡ none = ground arith in cc
    | inr (m, at) ↦ At-cons a k m j is miss (ground arith) (position-some a m is at)
  ]
]

pub position-none :
    (a : ℕ) (is : List Inst) → position a is ≡ none → elem a (barriers_in is) ≡ false
position-none a [] e = refl
position-none a (j ∷ is) e = ground (arith, position-none a is)

pub formed-tail :
    (xs : List Inst) (i : Inst) (ys : List Inst)
    → IsFormedInsts (xs ++ i ∷ ys)
    → is_terminator i ≡ false
    → IsFormedInsts ys
formed-tail [] i [] f h = cc
formed-tail [] i (y ∷ ys) f h = f.1
formed-tail (x ∷ []) i ys f h = formed-tail [] i ys f.1 h
formed-tail (x ∷ w ∷ xs) i ys f h = formed-tail (w ∷ xs) i ys f.1 h

pub formed-cut :
    (xs : List Inst) (i j : Inst) (ys : List Inst)
    → IsFormedInsts (xs ++ i ∷ ys)
    → is_terminator j ≡ true
    → IsFormedInsts (xs ++ j ∷ [])
formed-cut [] i j ys f h = h
formed-cut (x ∷ []) i j ys f h = (f.0, h)
formed-cut (x ∷ w ∷ xs) i j ys f h = (f.0, formed-cut (w ∷ xs) i j ys f.1 h)

abbrev pub All {ℓ} : (Block → Type ℓ) → List Block → Type ℓ
All P [] = Unit
All P (b ∷ bs) = P b × All P bs

pub All-append {ℓ} :
    (P : Block → Type ℓ) (bs cs : List Block) → All P bs → All P cs → All P (bs ++ cs)
All-append P [] cs h k = k
All-append P (b ∷ bs) cs h k = (h.0, All-append P bs cs h.1 k)

pub barrier-phi : (i : Inst) → is_barrier i ≡ true → is_phi_op i.op ≡ false
barrier-phi i h = go i.op h
  where
    go : (o : Op) → is_barrier_op o ≡ true → is_phi_op o ≡ false
    go phi h = cc
    go (call n) h = refl
    go alloca h = refl
    go (br c ss) h = refl
    go (terminator ss) h = refl
    go other h = refl

nil_of_length : (xs : List Inst) → length xs ≡ 0 → xs ≡ []
nil_of_length [] h = refl
nil_of_length (x ∷ xs) h = absurd (omega arith)

singleton :
    (ys : List Inst)
    → length ys ≡ 1
    → IsFormedInsts ys
    → (t : Inst) × (ys ≡ t ∷ []) × (is_terminator t ≡ true)
singleton [] l f = absurd (omega arith)
singleton (y ∷ []) l f = (y, refl, f)
singleton (y ∷ z ∷ ys) l f = absurd (omega arith)

first_non_phi-prefix :
    (xs : List Inst) (i : Inst) (ys zs : List Inst)
    → is_barrier i ≡ true
    → first_non_phi (xs ++ i ∷ ys) ≡ 0
    → first_non_phi (xs ++ i ∷ zs) ≡ 0
first_non_phi-prefix [] i ys zs h e = rw (barrier-phi i h)
first_non_phi-prefix (x ∷ xs) i ys zs h e = ground arith

take_place : (xs ys : List Inst) (k : ℕ) → k ≡ length xs → take k (xs ++ ys) ≡ xs
take_place xs ys k e = subst (λ n. take n (xs ++ ys) ≡ xs) (sym e) (take-length xs ys)

drop_place : (xs ys : List Inst) (k : ℕ) → k ≡ length xs → drop k (xs ++ ys) ≡ ys
drop_place xs ys k e = subst (λ n. drop n (xs ++ ys) ≡ ys) (sym e) (drop-length xs ys)

module _ (s : Splitter) where
  -- A property of the instructions holds of every piece if it holds of the instructions before the
  -- barrier with a jump, of the barrier with a terminator, and of the rest.
  module _ {ℓ} (Q : List Inst → Type ℓ) (xs ys : List Inst) (i : Inst) where
    pub record Pieces : Type ℓ where
      pub before : (j : Inst) → (t : ℕ) → j.op ≡ br false (t ∷ []) → Q (xs ++ j ∷ [])
      pub alone : (j : Inst) → is_terminator j ≡ true → Q (i ∷ j ∷ [])
      pub after : Q ys

    split_before_rule :
        (front : Bool) (b : Block) (k : ℕ) (t : Inst)
        → Pieces
        → is_terminator t ≡ true
        → k ≡ length xs
        → (front ≡ true → first_non_phi b.insts ≡ 0)
        → b.insts ≡ xs ++ i ∷ t ∷ []
        → All (λ c. Q c.insts) (split_before s front b k)
    unfolding split_before
    split_before_rule front b k t p h e entry parts =
        elim (Bool-cases (front && first_non_phi b.insts == k)) [
          | inl whole ↦
              let bare : b.insts ≡ i ∷ t ∷ [] =
                subst (λ zs. b.insts ≡ zs ++ i ∷ t ∷ [])
                  (nil_of_length xs (ground (arith, entry (ground arith)))) parts in
              rw (whole, split_before) (subst Q (sym bare) (p.alone t h), tt)
          | inr cut ↦ rw (cut, split_before) (old, (new, tt))
        ]
      where
        old : Q (s.split b k).0.insts
        old =
            subst Q
              (sym (
                s.split_old b k
                ∙ ap (λ zs. take k zs ++ s.jump b k ∷ []) parts
                ∙ ap (λ zs. zs ++ s.jump b k ∷ []) (take_place xs (i ∷ t ∷ []) k e)))
              (p.before (s.jump b k) (s.split b k).1.id (s.jump_br b k))

        new : Q (s.split b k).1.insts
        new =
            subst Q (sym (s.split_new b k ∙ ap (drop k) parts ∙ drop_place xs (i ∷ t ∷ []) k e))
              (p.alone t h)

    pub hive_rule :
        (front : Bool) (b : Block) (k : ℕ)
        → Pieces
        → is_barrier i ≡ true
        → IsFormedInsts ys
        → k ≡ length xs
        → (front ≡ true → first_non_phi b.insts ≡ 0)
        → b.insts ≡ xs ++ i ∷ ys
        → All (λ c. Q c.insts) (hive s front b k)
    unfolding hive
    hive_rule front b k p h f e entry parts = elim (Bool-cases (k + 2 == length b.insts)) [
      | inl last ↦
          let (t, only, ends) = singleton ys (ground (arith, counted)) f in
          let bare = parts ∙ ap (λ zs. xs ++ i ∷ zs) only in
          rw (last, hive)
            (All-append (λ c. Q c.insts) (split_before s front b k) []
              (split_before_rule front b k t p ends e entry bare) tt)
      | inr more ↦
          rw (more, hive)
            (All-append (λ c. Q c.insts) (split_before s front (s.split b (k + 1)).0 k)
              ((s.split b (k + 1)).1 ∷ [])
              (split_before_rule front (s.split b (k + 1)).0 k (s.jump b (k + 1)) p
                (rw (s.jump_br b (k + 1))) e
                (λ fr. rw old (
                  first_non_phi-prefix xs i ys (s.jump b (k + 1) ∷ []) h
                    (subst (λ zs. first_non_phi zs ≡ 0) parts (entry fr))))
                old)
              (
                subst Q
                    (sym (
                      s.split_new b (k + 1)
                      ∙ ap (drop (k + 1)) shifted
                      ∙ drop_place (xs ++ i ∷ []) ys (k + 1) place'))
                    p.after,
                tt,
              ))
    ]
      where
        counted : length b.insts ≡ length xs + suc (length ys)
        counted = ap length parts ∙ length-append xs (i ∷ ys)

        shifted : b.insts ≡ (xs ++ i ∷ []) ++ ys
        shifted = parts ∙ sym (append_assoc xs (i ∷ []) ys)

        place' : k + 1 ≡ length (xs ++ i ∷ [])
        place' = omega (arith, length-append xs (i ∷ []))

        old : (s.split b (k + 1)).0.insts ≡ xs ++ i ∷ s.jump b (k + 1) ∷ []
        old =
            s.split_old b (k + 1)
            ∙ ap (λ zs. take (k + 1) zs ++ s.jump b (k + 1) ∷ []) shifted
            ∙ ap (λ zs. zs ++ s.jump b (k + 1) ∷ []) (take_place (xs ++ i ∷ []) ys (k + 1) place')
            ∙ append_assoc xs (i ∷ []) (s.jump b (k + 1) ∷ [])
