-- ===== src/Ir.antt =====
-- The part of an LLVM function that the barrier passes read: blocks of instructions, an instruction
-- being its address and what the passes ask of it. BarrierInst (barrier_inst.h) and
-- barrier_utils.cpp are the questions about barriers.
pub mod Barrier
use Prim.Native.String.{String}
use text.Mathlib.Text.{◌==◌ as str_eq}
use vari_ocl.Base.{
  ℕ, zero, suc, ◌≡◌, Bool, true, false, not, ◌||◌, ◌&&◌, List, [], ◌∷◌, ◌++◌, Option, none, some,
  length, any, ltb, ◌==◌, if◌then◌else◌,
}

pub data Op : Type 0 where
  phi : Op
  -- The name of the called function, if the call is direct.
  call : Option String → Op
  alloca : Op
  -- A branch: whether it is conditional, and its successors.
  br : Bool → List ℕ → Op
  -- Any other terminator, and any other instruction.
  terminator : List ℕ → Op
  other : Op

pub record Inst : Type 0 where
  pub id : ℕ
  pub op : Op

pub record Block : Type 0 where
  pub id : ℕ
  pub insts : List Inst

abbrev pub barrier_func_nm : String
barrier_func_nm = "barrier"

-- `BarrierInst::classof`.
abbrev pub is_barrier_op : Op → Bool
is_barrier_op (call (some name)) = str_eq name barrier_func_nm
is_barrier_op (call none) = false
is_barrier_op phi = false
is_barrier_op alloca = false
is_barrier_op (br c ss) = false
is_barrier_op (terminator ss) = false
is_barrier_op other = false

abbrev pub is_barrier : Inst → Bool
is_barrier i = is_barrier_op i.op

abbrev pub is_terminator_op : Op → Bool
is_terminator_op (br c ss) = true
is_terminator_op (terminator ss) = true
is_terminator_op _ = false

abbrev pub is_terminator : Inst → Bool
is_terminator i = is_terminator_op i.op

abbrev pub is_phi_op : Op → Bool
is_phi_op phi = true
is_phi_op _ = false

abbrev pub last? : List Inst → Option Inst
last? [] = none
last? (i ∷ []) = some i
last? (i ∷ j ∷ is) = last? (j ∷ is)

-- The instruction before the last one.
abbrev pub before_last? : List Inst → Option Inst
before_last? [] = none
before_last? (i ∷ []) = none
before_last? (i ∷ j ∷ []) = some i
before_last? (i ∷ j ∷ k ∷ is) = before_last? (j ∷ k ∷ is)

-- `getTerminator()`: the last instruction, if it is one.
abbrev pub get_terminator : Block → Option Inst
get_terminator b = elim (last? b.insts) [
  | none ↦ none
  | some t ↦ if is_terminator t then some t else none
]

abbrev pub successors_op : Op → List ℕ
successors_op (br c ss) = ss
successors_op (terminator ss) = ss
successors_op _ = []

abbrev pub barrier_at : Option Inst → Bool
barrier_at none = false
barrier_at (some i) = is_barrier i

-- `containsJustABarrier` of barrier_utils.cpp.
abbrev pub first_is_barrier : List Inst → Bool
first_is_barrier [] = false
first_is_barrier (i ∷ is) = is_barrier i

unfoldable pub contains_just_a_barrier : Block → Bool
contains_just_a_barrier b = if length b.insts == 2 then first_is_barrier b.insts else false

unfoldable pub has_barrier : Block → Bool
has_barrier b = any is_barrier b.insts

abbrev pub ends : Option Inst → Block → Bool
ends none b = false
ends (some t) b = ltb 1 (length b.insts) && barrier_at (before_last? b.insts)

unfoldable pub ends_with_barrier : Block → Bool
ends_with_barrier b = ends (get_terminator b) b

unfoldable pub has_only_barrier : Block → Bool
unfolding ends_with_barrier
has_only_barrier b = ends_with_barrier b && length b.insts == 2

-- The loop that LoopBarriers, ImplicitLoopBarriers and the triplet analysis share.
unfoldable pub is_barrier_loop : List Block → Bool
is_barrier_loop [] = false
is_barrier_loop (b ∷ bs) =
    let rest = is_barrier_loop bs in if any is_barrier b.insts then true else rest

-- `createBarrier` with an instruction to insert before, given by its place in the block; `addr` is
-- the address of the new call. With the end of a block instead, the call is created and stands in
-- no block.
abbrev pub insert_at : ℕ → Inst → List Inst → List Inst
insert_at zero i is = i ∷ is
insert_at (suc k) i [] = i ∷ []
insert_at (suc k) i (j ∷ is) = j ∷ insert_at k i is

abbrev pub barrier_call : ℕ → Inst
barrier_call addr = record { id = addr; op = call (some barrier_func_nm) }

unfoldable pub create_barrier : ℕ → ℕ → Block → Block
create_barrier addr k b = record b { insts = insert_at k (barrier_call addr) b.insts }

unfoldable pub create_barrier_at_end : ℕ → Block → Block × Inst
create_barrier_at_end addr b = (b, barrier_call addr)
