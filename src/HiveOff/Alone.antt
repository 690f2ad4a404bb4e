-- ===== src/HiveOff/Alone.antt =====
-- Barriers that stand alone in their blocks (hive_off_barrier.cpp): what that says of the
-- instructions around a barrier.
use vari_ocl.Base.{
  ℕ, suc, ◌+◌, ◌≡◌, refl, ap, subst, ◌∙◌, Bool, true, false, List, [], ◌∷◌, ◌++◌, length, ◌==◌,
  if◌then◌else◌, elem, any, arith, Bool-cases, inl, inr, elem-append, ◌<◌, IsDistinct, ==_iff,
  ==_refl, length-append,
}
use vari_ocl.Ir.{
  Inst, Block, br, is_barrier, first_is_barrier, contains_just_a_barrier, has_barrier,
}
use vari_ocl.Ir.Barrier.{IsFormedInsts, barrier-terminator}
use vari_ocl.HiveOff.{first_non_phi, barriers_in}
use vari_ocl.HiveOff.Shape.{At, formed-tail}

abbrev pub just : List Inst → Bool
just is = if length is == 2 then first_is_barrier is else false

-- The barriers among `done` stand alone.
abbrev pub Hived : List ℕ → List Inst → Type 0
Hived done is = (c : ℕ) → elem c (barriers_in is) ≡ true → elem c done ≡ true → just is ≡ true

abbrev pub IsFormed : Block → Type 0
IsFormed b = IsFormedInsts b.insts

-- The first block has no PHI in front.
abbrev pub NoPhi : List Block → Type 0
NoPhi [] = Unit {0}
NoPhi (b ∷ bs) = first_non_phi b.insts ≡ 0

pub barriers_in-append :
    (xs ys : List Inst) → barriers_in (xs ++ ys) ≡ barriers_in xs ++ barriers_in ys
barriers_in-append [] ys = refl
barriers_in-append (x ∷ xs) ys = ground (arith, barriers_in-append xs ys)

pub distinct_apart :
    (xs ys : List ℕ) (c : ℕ) → IsDistinct (xs ++ ys) → elem c xs ≡ true → elem c ys ≡ false
distinct_apart [] ys c d h = cc
distinct_apart (x ∷ xs) ys c d h = elim (Bool-cases (c == x)) [
  | inl e ↦ let same = (==_iff c x).0 e in ground (arith, d.0, elem-append c xs ys, same)
  | inr e ↦ distinct_apart xs ys c d.1 (ground arith)
]

pub IsDistinct-right : (xs ys : List ℕ) → IsDistinct (xs ++ ys) → IsDistinct ys
IsDistinct-right [] ys d = d
IsDistinct-right (x ∷ xs) ys d = IsDistinct-right xs ys d.1

pub IsDistinct-left : (xs ys : List ℕ) → IsDistinct (xs ++ ys) → IsDistinct xs
IsDistinct-left [] ys d = tt
IsDistinct-left (x ∷ xs) ys d =
    (ground (arith, d.0, elem-append x xs ys), IsDistinct-left xs ys d.1)

pub barriers_in-jump : (j : Inst) (t : ℕ) → j.op ≡ br false (t ∷ []) → barriers_in (j ∷ []) ≡ []
barriers_in-jump j t e = rw e

pub pos_of_elem : (c : ℕ) (is : List Inst) → elem c (barriers_in is) ≡ true → 0 < length is
pos_of_elem c [] h = cc
pos_of_elem c (i ∷ is) h = omega arith

pub formed_pos : (is : List Inst) → IsFormedInsts is → 0 < length is
formed_pos [] f = absurd f
formed_pos (i ∷ is) f = omega arith

pub just-length : (is : List Inst) → just is ≡ true → length is ≡ 2
just-length is h = ground arith

pub end_no_barrier :
    (ys : List Inst) (c : ℕ) → IsFormedInsts ys → length ys ≡ 1 → elem c (barriers_in ys) ≡ false
end_no_barrier [] c f l = absurd f
end_no_barrier (y ∷ []) c f l = ground (arith, barrier-terminator y)
end_no_barrier (y ∷ z ∷ ys) c f l = absurd (omega arith)

module _ {a k : ℕ} {is : List Inst} (t : At a k is) where
  pub barriers_in-parts : barriers_in is ≡ barriers_in t.xs ++ a ∷ barriers_in t.ys
  barriers_in-parts =
      ap barriers_in t.parts
      ∙ barriers_in-append t.xs (t.i ∷ t.ys)
      ∙ ap (λ zs. barriers_in t.xs ++ zs) (ground (arith, t.barrier, t.addr))

  pub length-parts : length is ≡ length t.xs + suc (length t.ys)
  length-parts = ap length t.parts ∙ length-append t.xs (t.i ∷ t.ys)

  pub ys-IsFormed : IsFormedInsts is → IsFormedInsts t.ys
  ys-IsFormed f =
      formed-tail t.xs t.i t.ys (subst IsFormedInsts t.parts f) (barrier-terminator t.i t.barrier)

  -- A barrier before `a` does not stand alone, and neither does one behind it.
  pub not_before :
      (c : ℕ) → IsFormedInsts is → elem c (barriers_in t.xs) ≡ true → just is ≡ true → ⊥
  not_before c f m h =
      omega (
        arith,
        just-length is h,
        length-parts,
        pos_of_elem c t.xs m,
        formed_pos t.ys (ys-IsFormed f),
      )

  pub not_after : (c : ℕ) → IsFormedInsts is → elem c (barriers_in t.ys) ≡ true → just is ≡ true → ⊥
  not_after c f m h =
      let g = ys-IsFormed f in
      let l : length t.ys ≡ 1 = omega (arith, just-length is h, length-parts, formed_pos t.ys g) in
      let none_there = end_no_barrier t.ys c g l in cc

pub some_barrier :
    (b : Block) → has_barrier b ≡ true → (c : ℕ) × (elem c (barriers_in b.insts) ≡ true)
unfolding has_barrier
some_barrier b h = go b.insts h
  where
    go : (is : List Inst) → any is_barrier is ≡ true → (c : ℕ) × (elem c (barriers_in is) ≡ true)
    go [] h = cc
    go (i ∷ is) h = elim (Bool-cases (is_barrier i)) [
      | inl e ↦ (i.id, ground (arith, ==_refl i.id))
      | inr e ↦ let (c, m) = go is (ground arith) in (c, ground arith)
    ]

pub contains_just_a_barrier_lem : (b : Block) → contains_just_a_barrier b ≡ just b.insts
unfolding contains_just_a_barrier
contains_just_a_barrier_lem b = refl
