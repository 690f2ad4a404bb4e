-- ===== src/HiveOff/Front.antt =====
-- The first block starts with no PHI, before and after a barrier is hived off
-- (hive_off_barrier.cpp).
use vari_ocl.Base.{
  ℕ, zero, suc, ◌+◌, ◌≡◌, Bool, true, false, ◌&&◌, List, [], ◌∷◌, ◌++◌, length, take, ◌==◌, arith,
  Bool-cases, Option-cases, inl, inr, append_assoc,
}
use vari_ocl.Ir.{Inst, Block, br}
use vari_ocl.HiveOff.{Splitter, first_non_phi, position, split_before, hive, process_one}
use vari_ocl.HiveOff.Shape.{All}
use vari_ocl.HiveOff.Alone.{IsFormed, NoPhi}

pub take-NoPhi :
    (k : ℕ) (is : List Inst) (j : Inst) (to : ℕ)
    → j.op ≡ br false (to ∷ [])
    → first_non_phi is ≡ 0
    → first_non_phi (take k is ++ j ∷ []) ≡ 0
take-NoPhi zero is j to e h = rw e
take-NoPhi (suc k) [] j to e h = rw e
take-NoPhi (suc k) (i ∷ is) j to e h = ground arith

module _ (s : Splitter) where
  pub split-NoPhi :
      (b : Block) (k : ℕ) → first_non_phi b.insts ≡ 0 → first_non_phi (s.split b k).0.insts ≡ 0
  split-NoPhi b k h =
      rw (s.split_old b k) (take-NoPhi k b.insts (s.jump b k) (s.split b k).1.id (s.jump_br b k) h)

  pub split_before-NoPhi :
      (front : Bool) (b : Block) (k : ℕ) (bs : List Block)
      → first_non_phi b.insts ≡ 0
      → NoPhi (split_before s front b k ++ bs)
  unfolding split_before
  split_before-NoPhi front b k bs h = elim (Bool-cases (front && first_non_phi b.insts == k)) [
    | inl e ↦ rw (e, split_before) h
    | inr e ↦ rw (e, split_before) (split-NoPhi b k h)
  ]

  pub hive-NoPhi :
      (front : Bool) (b : Block) (k : ℕ) (bs : List Block)
      → first_non_phi b.insts ≡ 0
      → NoPhi (hive s front b k ++ bs)
  unfolding hive
  hive-NoPhi front b k bs h = elim (Bool-cases (k + 2 == length b.insts)) [
    | inl e ↦
        rw (e, hive)
          (rw (append_assoc (split_before s front b k) [] bs) (split_before-NoPhi front b k bs h))
    | inr e ↦
        let b' = (s.split b (k + 1)).0 in
        let rest = (s.split b (k + 1)).1 ∷ [] in
        rw (e, hive)
          (rw (append_assoc (split_before s front b' k) rest bs)
            (split_before-NoPhi front b' k (rest ++ bs) (split-NoPhi b (k + 1) h)))
  ]

  pub process_one-NoPhi :
      (a : ℕ) (f : List Block) → All IsFormed f → NoPhi f → NoPhi (process_one s a true f)
  unfolding process_one
  process_one-NoPhi a [] w h = tt
  process_one-NoPhi a (b ∷ bs) w h = elim (Option-cases (position a b.insts)) [
    | inl e ↦ rw (e, process_one) h
    | inr (k, e) ↦ rw (e, process_one) (hive-NoPhi true b k bs h)
  ]
