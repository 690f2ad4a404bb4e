-- ===== src/AuxBarriers/Insert.antt =====
-- What BarrierInst::createBarrier (barrier_inst.h) keeps of a block, at the two places where the passes
-- put barriers, and what the change of one block keeps of a function.
use vari_ocl.Base.{
  ℕ, zero, suc, ◌+◌, ◌-◌, Option, none, Bool-cases, inl, inr, ◌≡◌, refl, ap, sym, subst, ◌∙◌, Bool,
  true, false, not, List, [], ◌∷◌, arith, length, some, ◌==◌, if◌then◌else◌, keep, ltb,
}
use vari_ocl.Ir.{
  Inst, Block, Op, phi, call, alloca, br, terminator, other, is_barrier_op, is_barrier, is_phi_op,
  insert_at, barrier_call, before_last?, barrier_at,
}
use vari_ocl.HiveOff.{first_non_phi}
use vari_ocl.AuxBarriers.{change, block, test}

-- The instructions that are no barriers, and the function without its barriers.
abbrev pub plain : List Inst → List Inst
plain is = keep (λ i. not (is_barrier i)) is

abbrev pub without_barriers : List Block → List Block
without_barriers [] = []
without_barriers (b ∷ bs) = record b { insts = plain b.insts } ∷ without_barriers bs

-- A barrier comes first behind the PHIs.
abbrev pub starts : List Inst → Bool
starts [] = false
starts (i ∷ is) = let rest = starts is in if is_phi_op i.op then rest else is_barrier i

-- A barrier stands before the last instruction.
abbrev pub stops : List Inst → Bool
stops is = barrier_at (before_last? is)

pub insert_at-plain :
    (a k : ℕ) (is : List Inst) → plain (insert_at k (barrier_call a) is) ≡ plain is
insert_at-plain a zero is = refl
insert_at-plain a (suc k) [] = refl
insert_at-plain a (suc k) (i ∷ is) = rw (insert_at-plain a k is)

pub front-starts :
    (a : ℕ) (is : List Inst) → starts (insert_at (first_non_phi is) (barrier_call a) is) ≡ true
front-starts a [] = refl
front-starts a (i ∷ is) = elim (Bool-cases (is_phi_op i.op)) [
  | inl e ↦ rw (e, e) (front-starts a is)
  | inr e ↦ rw e
]

starts-phi :
    (i : Inst) (is : List Inst) → is_phi_op i.op ≡ true → starts (i ∷ is) ≡ true → starts is ≡ true
starts-phi i is e h = ground arith

starts-other :
    (i : Inst) (is : List Inst)
    → is_phi_op i.op ≡ false
    → starts (i ∷ is) ≡ true
    → is_barrier i ≡ true
starts-other i is e h = ground arith

suc-minus : (n : ℕ) → suc n - 1 ≡ n
suc-minus n = omega arith

pub end-starts :
    (a : ℕ) (is : List Inst)
    → starts is ≡ true
    → starts (insert_at (length is - 1) (barrier_call a) is) ≡ true
end-starts a [] h = refl
end-starts a (i ∷ []) h = refl
end-starts a (i ∷ j ∷ is) h = rw (suc-minus (suc (length is))) (elim (Bool-cases (is_phi_op i.op)) [
  | inl e ↦ rw e (
      subst (λ n. starts (insert_at n (barrier_call a) (j ∷ is)) ≡ true) (suc-minus (length is))
        (end-starts a (j ∷ is) (starts-phi i (j ∷ is) e h)))
  | inr e ↦ rw e (starts-other i (j ∷ is) e h)
])

stops-cons :
    (i x : Inst) (n : ℕ) (j k : Inst) (is : List Inst)
    → stops (i ∷ insert_at n x (j ∷ k ∷ is)) ≡ stops (insert_at n x (j ∷ k ∷ is))
stops-cons i x zero j k is = refl
stops-cons i x (suc zero) j k is = refl
stops-cons i x (suc (suc n)) j k [] = elim n [ zero ↦ refl | suc m ↦ refl ]
stops-cons i x (suc (suc n)) j k (l ∷ is) = elim n [ zero ↦ refl | suc m ↦ refl ]

pub end-stops :
    (a : ℕ) (is : List Inst)
    → ltb 0 (length is) ≡ true
    → stops (insert_at (length is - 1) (barrier_call a) is) ≡ true
end-stops a [] h = cc
end-stops a (i ∷ []) h = refl
end-stops a (i ∷ j ∷ []) h = refl
end-stops a (i ∷ j ∷ k ∷ is) h = rw (suc-minus (suc (suc (length is)))) (
    stops-cons i (barrier_call a) (suc (length is)) j k is
    ∙ subst (λ n. stops (insert_at n (barrier_call a) (j ∷ k ∷ is)) ≡ true)
        (suc-minus (suc (length is))) (end-stops a (j ∷ k ∷ is) (ground arith)))

pub clash : (o : Op) → is_phi_op o ≡ true → is_barrier_op o ≡ true → ⊥
clash phi e h = cc
clash (call n) e h = cc
clash alloca e h = cc
clash (br c ss) e h = cc
clash (terminator ss) e h = cc
clash other e h = cc

pub front-stops :
    (a : ℕ) (is : List Inst)
    → stops is ≡ true
    → stops (insert_at (first_non_phi is) (barrier_call a) is) ≡ true
front-stops a [] h = cc
front-stops a (i ∷ []) h = cc
front-stops a (i ∷ j ∷ []) h = elim (Bool-cases (is_phi_op i.op)) [
  | inr e ↦ rw e h
  | inl e ↦ elim (Bool-cases (is_phi_op j.op)) [
    | inl e' ↦ absurd (clash i.op e h)
    | inr e' ↦ rw (e, e')
  ]
]
front-stops a (i ∷ j ∷ k ∷ is) h = elim (Bool-cases (is_phi_op i.op)) [
  | inl e ↦ rw e (
      stops-cons i (barrier_call a) (first_non_phi (j ∷ k ∷ is)) j k is
      ∙ front-stops a (j ∷ k ∷ is) h)
  | inr e ↦ rw e h
]

-- What is asked of each block: it has an instruction.
abbrev pub has_inst : Block → Bool
has_inst b = ltb 0 (length b.insts)

abbrev pub starts_with_barrier : Block → Bool
starts_with_barrier b = starts b.insts

abbrev pub stops_with_barrier : Block → Bool
stops_with_barrier b = stops b.insts

pub insert_at-has_inst :
    (x : Inst) (k : ℕ) (is : List Inst) → ltb 0 (length (insert_at k x is)) ≡ true
insert_at-has_inst x zero is = ground arith
insert_at-has_inst x (suc k) [] = ground arith
insert_at-has_inst x (suc k) (i ∷ is) = ground arith

-- A test of blocks that a change keeps holds of the changed block with the address.
pub change-test :
    (p : Block → Bool) (g : Block → Block) (x y : ℕ) (bs : List Block)
    → ((b : Block) → (g b).id ≡ b.id)
    → ((b : Block) → p b ≡ true → p (g b) ≡ true)
    → test p (block y bs) ≡ true
    → test p (block y (change g x bs)) ≡ true
change-test p g x y [] same k h = h
change-test p g x y (b ∷ bs) same k h = ground (arith, same b, k b, change-test p g x y bs same k)

-- At the address of the change, what it brings about.
pub change-at :
    (p q : Block → Bool) (g : Block → Block) (x : ℕ) (bs : List Block)
    → ((b : Block) → (g b).id ≡ b.id)
    → ((b : Block) → p b ≡ true → q (g b) ≡ true)
    → test p (block x bs) ≡ true
    → test q (block x (change g x bs)) ≡ true
change-at p q g x [] same k h = h
change-at p q g x (b ∷ bs) same k h = ground (arith, same b, k b, change-at p q g x bs same k)

block-miss :
    (b : Block) (y : ℕ) (bs : List Block) → (b.id == y) ≡ false → block y (b ∷ bs) ≡ block y bs
block-miss b y bs h = rw h refl

-- At any other address, nothing.
pub change-away :
    (g : Block → Block) (x y : ℕ) (bs : List Block)
    → ((b : Block) → (g b).id ≡ b.id)
    → (x == y) ≡ false
    → block y (change g x bs) ≡ block y bs
change-away g x y [] same a = refl
change-away g x y (b ∷ bs) same a = elim (Bool-cases (b.id == x)) [
  | inl e ↦
      rw e (block-miss (g b) y bs (ground (arith, same b)) ∙ sym (block-miss b y bs (ground arith)))
  | inr e ↦ rw e (ap (λ o. if b.id == y then some b else o) (change-away g x y bs same a))
]

pub change-plain :
    (g : Block → Block) (x : ℕ) (bs : List Block)
    → ((b : Block)
        → record (g b) { insts = plain (g b).insts } ≡ record b { insts = plain b.insts })
    → without_barriers (change g x bs) ≡ without_barriers bs
change-plain g x [] k = refl
change-plain g x (b ∷ bs) k = elim (Bool-cases (b.id == x)) [
  | inl e ↦ rw (e, k b) refl
  | inr e ↦ rw (e, change-plain g x bs k) refl
]

-- How many barriers there are in a block, and in the block with an address.
abbrev pub count : List Inst → ℕ
count is = length (keep is_barrier is)

abbrev pub count_in : Option Block → ℕ
count_in none = 0
count_in (some b) = count b.insts

abbrev pub barriers_at : ℕ → List Block → ℕ
barriers_at y bs = count_in (block y bs)

abbrev pub one_if : Bool → ℕ
one_if true = 1
one_if false = 0

pub insert_at-count :
    (a k : ℕ) (is : List Inst) → count (insert_at k (barrier_call a) is) ≡ suc (count is)
insert_at-count a zero is = refl
insert_at-count a (suc k) [] = refl
insert_at-count a (suc k) (i ∷ is) = elim (Bool-cases (is_barrier i)) [
  | inl e ↦ rw (e, insert_at-count a k is) refl
  | inr e ↦ rw (e, insert_at-count a k is) refl
]

-- A change that adds a barrier adds it at its address and nowhere else.
pub change-count :
    (g : Block → Block) (x y : ℕ) (bs : List Block)
    → ((b : Block) → (g b).id ≡ b.id)
    → ((b : Block) → count (g b).insts ≡ suc (count b.insts))
    → test has_inst (block y bs) ≡ true
    → barriers_at y (change g x bs) ≡ barriers_at y bs + one_if (x == y)
change-count g x y [] same more h = cc
change-count g x y (b ∷ bs) same more h =
    ground (arith, same b, more b, change-count g x y bs same more)
