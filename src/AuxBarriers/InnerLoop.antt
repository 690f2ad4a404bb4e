-- ===== src/AuxBarriers/InnerLoop.antt =====
-- ImplicitLoopBarriers (ImplicitLoopBarriers.cpp): barriers in an innermost loop that every work-item
-- runs the same number of times. The uniformity is what TripletInvarianceAnalysis finds; `condition`
-- is the condition of a conditional branch.
pub mod Placed
use vari_ocl.Base.{
  ℕ, ◌≡◌, Bool, true, false, not, ◌&&◌, List, [], ◌∷◌, Option, none, some, ltb, ◌==◌, if◌then◌else◌,
}
use vari_ocl.Ir.{Inst, Block, Op, br, get_terminator, is_barrier_loop}
use vari_ocl.Triplet.{Tia, Node, Outcome, returns, undefined, and_then, is_uniform}
use vari_ocl.AuxBarriers.{Function, put_front, put_end, block, Loop, members_in}

abbrev pub is_conditional_op : Op → Bool
is_conditional_op (br c ss) = c
is_conditional_op _ = false

-- The terminator of a block, if it is a conditional branch.
abbrev pub conditional : Option Inst → Option ℕ
conditional none = none
conditional (some t) = if is_conditional_op t.op then some t.id else none

abbrev pub conditional_branch : Option Block → Option ℕ
conditional_branch none = none
conditional_branch (some b) = conditional (get_terminator b)

module _ (node : ℕ → Node) (constant : ℕ → Option ℕ) (condition : ℕ → ℕ) (fuel : ℕ) where
  -- The branch of the exiting block `e`, and what follows from it.
  unfoldable pub put_both : ℕ → ℕ → Function → Tia → Outcome (Function × Bool)
  unfolding is_uniform put_front put_end
  put_both e h f t = elim (conditional_branch (block e f.blocks)) [
    | none ↦ returns t (f, false)
    | some b ↦
        and_then (is_uniform node constant fuel t (condition b)) (λ t' u.
          if u then returns t' (put_front h (put_end e f), true) else returns t' (f, false))
  ]

  unfoldable pub add_inner_loop_barrier : Loop → Function → Tia → Outcome (Function × Bool)
  unfolding is_uniform put_both
  add_inner_loop_barrier l f t =
      if ltb 0 l.sub_loops then returns t (f, false) else elim l.exiting [
        | none ↦ returns t (f, false)
        | some e ↦ elim l.header [
          | none ↦ returns t (f, false)
          | some h ↦
              and_then (is_uniform node constant fuel t h)
                (λ t' u. if not u then returns t' (f, false) else put_both e h f t')
        ]
      ]

  unfoldable pub process_loop : Loop → Function → Tia → Outcome (Function × Bool)
  unfolding add_inner_loop_barrier is_barrier_loop
  process_loop l f t =
      if is_barrier_loop (members_in l.members f.blocks)
      then returns t (f, false)
      else add_inner_loop_barrier l f t

  -- `runOnLoop`, which asks the exiting block for its function before it tests for one: a loop with
  -- several is read through a null pointer.
  unfoldable pub run_on_loop : Loop → Function → Tia → Outcome (Function × Bool)
  unfolding process_loop
  run_on_loop l f t = elim l.exiting [ none ↦ undefined | some e ↦ process_loop l f t ]
