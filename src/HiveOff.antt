-- ===== src/HiveOff.antt =====
-- hive_off_barrier.cpp: the pass that puts each barrier into a block of its own. SplitBlock is
-- LLVM's, a parameter with the law that its documentation states. The flag that runOnFunction and
-- ProcessBarrier return is not modelled.
pub mod Shape
pub mod Hived
pub mod Alone
pub mod Front
pub mod Ends
pub mod Whole
pub mod Order
use vari_ocl.Base.{
  ℕ, zero, suc, ◌+◌, ◌-◌, ◌≡◌, Bool, true, false, not, ◌||◌, ◌&&◌, List, [], ◌∷◌, ◌++◌, Option,
  none, some, length, take, drop, any, ltb, ◌==◌, if◌then◌else◌, elem,
}
use vari_ocl.Ir.{
  Inst, Block, Op, br, is_barrier, is_terminator, is_phi_op, last?, get_terminator, successors_op,
  contains_just_a_barrier, ends_with_barrier, create_barrier,
}

-- SplitBlock(Old, SplitPt, P): the split point is given by its place in the block. The instructions
-- from there on move to a new block, to which an unconditional branch now ends the old one.
pub record Splitter : Type 0 where
  pub split : Block → ℕ → Block × Block
  pub jump : Block → ℕ → Inst
  pub jump_br : (b : Block) (k : ℕ) → (jump b k).op ≡ br false ((split b k).1.id ∷ [])
  pub split_id : (b : Block) (k : ℕ) → (split b k).0.id ≡ b.id
  pub split_old : (b : Block) (k : ℕ) → (split b k).0.insts ≡ take k b.insts ++ jump b k ∷ []
  pub split_new : (b : Block) (k : ℕ) → (split b k).1.insts ≡ drop k b.insts

-- `getFirstNonPHI`, as a place.
abbrev pub first_non_phi : List Inst → ℕ
first_non_phi [] = 0
first_non_phi (i ∷ is) = if is_phi_op i.op then suc (first_non_phi is) else 0

-- The place of the barrier with an address.
abbrev pub position : ℕ → List Inst → Option ℕ
position a [] = none
position a (i ∷ is) =
    if is_barrier i && i.id == a
    then some 0
    else elim (position a is) [ none ↦ none | some k ↦ some (suc k) ]

abbrev pub terminator_place : Block → ℕ
terminator_place b = length b.insts - 1

-- `CollectBarriers`.
abbrev pub barriers_in : List Inst → List ℕ
barriers_in [] = []
barriers_in (i ∷ is) = let rest = barriers_in is in if is_barrier i then i.id ∷ rest else rest

unfoldable pub collect_barriers : List Block → List ℕ
collect_barriers [] = []
collect_barriers (b ∷ bs) = barriers_in b.insts ++ collect_barriers bs

module _ (s : Splitter) where
  open s use {split}

  -- The body of the loop of `ProcessBarrier`, for the barrier at place `k` of the block `b`: what
  -- the block becomes. `front` says whether it is the function's first.
  unfoldable pub split_after : Block → ℕ → Block × List Block
  split_after b k =
      if k + 2 == length b.insts then (b, []) else ((split b (k + 1)).0, (split b (k + 1)).1 ∷ [])

  unfoldable pub split_before : Bool → Block → ℕ → List Block
  split_before front b k =
      if front && first_non_phi b.insts == k then b ∷ [] else (split b k).0 ∷ (split b k).1 ∷ []

  unfoldable pub hive : Bool → Block → ℕ → List Block
  unfolding split_after split_before
  hive front b k = let (b', after) = split_after b k in split_before front b' k ++ after

  unfoldable pub process_one : ℕ → Bool → List Block → List Block
  unfolding hive
  process_one a front [] = []
  process_one a front (b ∷ bs) = elim (position a b.insts) [
    | none ↦ b ∷ process_one a false bs
    | some k ↦ hive front b k ++ bs
  ]

  -- The loop, over the barriers in the order of the set.
  unfoldable pub process_all : List ℕ → List Block → List Block
  unfolding process_one
  process_all [] f = f
  process_all (a ∷ set) f = process_all set (process_one a true f)

  -- `ProcessBarrier`, with the set in the order of collection.
  unfoldable pub process_barrier : List Block → List Block
  unfolding process_all collect_barriers
  process_barrier f = process_all (collect_barriers f) f

  -- The entry: unless it has just a barrier, it becomes a block of a barrier alone. `addr` is the
  -- address of the call that is made.
  unfoldable pub hive_entry : ℕ → List Block → List Block
  unfolding contains_just_a_barrier create_barrier
  hive_entry addr [] = []
  hive_entry addr (b ∷ bs) =
      if contains_just_a_barrier b
      then b ∷ bs
      else create_barrier addr (terminator_place (split b 0).0) (split b 0).0 ∷ (split b 0).1 ∷ bs

  -- The loop over the exits. A new exit block comes next in the loop; it has just a barrier, and so
  -- is left alone.
  abbrev pub is_exit : Option Inst → Bool
  is_exit none = false
  is_exit (some t) = length (successors_op t.op) == 0

  unfoldable pub hive_exit : ℕ → Block → List Block
  unfolding contains_just_a_barrier ends_with_barrier create_barrier
  hive_exit addr b =
      if is_exit (get_terminator b) && not (contains_just_a_barrier b)
      then (if ends_with_barrier b
          then (let k = length b.insts in (split b (k - 2)).0 ∷ (split b (k - 2)).1 ∷ [])
          else (let k = length b.insts in
              (split b (k - 1)).0
              ∷ create_barrier addr (terminator_place (split b (k - 1)).1) (split b (k - 1)).1
              ∷ []))
      else b ∷ []

  unfoldable pub hive_exits : (ℕ → ℕ) → List Block → List Block
  unfolding hive_exit
  hive_exits addr [] = []
  hive_exits addr (b ∷ bs) = hive_exit (addr b.id) b ++ hive_exits addr bs

  -- `runOnFunction`. The addresses of the calls that it makes are parameters.
  unfoldable pub run_on_function : ℕ → (ℕ → ℕ) → List Block → List Block
  unfolding hive_entry hive_exits process_barrier
  run_on_function entry_addr exit_addr f =
      process_barrier (hive_exits exit_addr (hive_entry entry_addr f))
