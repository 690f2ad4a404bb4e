-- ===== src/Tests/Barriers.antt =====
-- The passes that add barriers (ImplicitConditionalBarriers.cpp, ImplicitCdgBarriers.cpp,
-- ImplicitLoopBarriers.cpp, LoopBarriers.cpp) on a function of four blocks and on a loop.
use vari_ocl.Base.{
  ℕ, all, map, ◌≡◌, refl, ◌||◌, ◌&&◌, Bool, true, false, List, [], ◌∷◌, ◌++◌, none, some, elem, ltb,
  length, take, drop, ◌==◌, if◌then◌else◌, arith,
}
use vari_ocl.Ir.{
  call, br, terminator, other, phi, Inst, has_barrier, is_barrier_loop, ends_with_barrier,
}
use vari_ocl.HiveOff.{Splitter}
use vari_ocl.Cdg.ControlDep.{ControlDep, init}
use vari_ocl.Triplet.{Tia, all_invariant, other_value, returns, is_uniform}
use vari_ocl.SplitCondBr.{
  run_on_function as split_function, needs_split, split_branch, split_branches,
}
use vari_ocl.SplitCondBr.Split.{is_apart, run_on_function-apart}
use vari_ocl.BarrierDeleter.{run_on_module}
use vari_ocl.BarrierDeleter.Undone.{module_of, has_no_barrier, run_on_module-Adds}
use vari_ocl.AuxBarriers.{put_front, Function}
use vari_ocl.AuxBarriers.Adds.{Adds}
use vari_ocl.AuxBarriers.Insert.{without_barriers}
use vari_ocl.AuxBarriers.Conditional.{
  first_non_backedge_predecessor, run_on_function, conditional_blocks,
}
use vari_ocl.AuxBarriers.Conditional.Stops.{Enters, Guarded, run_on_function-guards}
use vari_ocl.AuxBarriers.Dependence.{controls, run_on_function as run_dependence}
use vari_ocl.AuxBarriers.Dependence.Controls.{Surrounded, run_on_function-surrounds}
use vari_ocl.AuxBarriers.InnerLoop.{run_on_loop}
use vari_ocl.AuxBarriers.InnerLoop.Placed.{loop_of, Result, run_on_loop_lem}
use vari_ocl.AuxBarriers.AroundLoop.{process_loop, first_barrier_block}
use vari_ocl.AuxBarriers.AroundLoop.Placed.{canonical, Placed, process_loop-Placed}

abbrev plain : ℕ → Inst
plain a = record { id = a; op = other }

abbrev barrier : ℕ → Inst
barrier a = record { id = a; op = call (some "barrier") }

abbrev ret : ℕ → Inst
ret a = record { id = a; op = terminator [] }

abbrev branch : ℕ → List ℕ → Inst
branch a ss = record { id = a; op = br (ltb 1 (length ss)) ss }

-- 1 branches to 2 and 4, 2 goes on to 3, which has a barrier and goes on to 4.
abbrev diamond : Function
diamond = record {
  blocks =
      record { id = 1; insts = plain 10 ∷ branch 11 (2 ∷ 4 ∷ []) ∷ [] }
      ∷ record { id = 2; insts = plain 20 ∷ branch 21 (3 ∷ []) ∷ [] }
      ∷ record { id = 3; insts = plain 30 ∷ barrier 31 ∷ branch 32 (4 ∷ []) ∷ [] }
      ∷ record { id = 4; insts = ret 40 ∷ [] }
      ∷ [];
  fresh = 100;
}

abbrev preds_of : ℕ → List ℕ
preds_of b = if b == 2 then 1 ∷ [] else if b == 3 then 2 ∷ [] else if b == 4 then 1 ∷ 3 ∷ [] else []

abbrev dominates_of : ℕ → ℕ → Bool
dominates_of a b = a == b || a == 1 || (a == 2 && b == 3)

abbrev post_of : ℕ → ℕ → Bool
post_of a b = a == b || a == 4 || (a == 3 && b == 2)

abbrev reached_of : ℕ → Bool
reached_of u = ltb 0 u && ltb u 5

abbrev first_pred : ℕ → ℕ
first_pred u = if u == 3 then 2 else 1

diamond-Enters : Enters preds_of dominates_of post_of 1 reached_of (λ u. u)
unfolding first_non_backedge_predecessor
diamond-Enters = record {
  enters = λ u r a. (first_pred u, ground arith, ground arith, ground arith);
}

run_on_function-guards_example :
    (g : Function) × (c : Bool) × (run_on_function preds_of dominates_of post_of 4 1 diamond
      ≡ some (g, c))
    × (without_barriers g.blocks ≡ without_barriers diamond.blocks)
    × ((b : ℕ)
        → elem b (conditional_blocks post_of 1 diamond.blocks) ≡ true
        → Guarded preds_of dominates_of post_of diamond g b)
unfolding conditional_blocks
run_on_function-guards_example =
    run_on_function-guards preds_of dominates_of post_of diamond-Enters 4 (λ u h. ground arith)
      diamond (λ u h. ground arith) (λ b h. ground arith) (λ b. ground arith)

-- 3 is control dependent on 1.
abbrev dependences : ControlDep
unfolding init
dependences = record init { tccdg = (1, 3 ∷ []) ∷ [] }

run_on_function-surrounds_example :
    (without_barriers (run_dependence dependences preds_of dominates_of diamond).blocks
      ≡ without_barriers diamond.blocks)
    × Surrounded dependences preds_of dominates_of
        (run_dependence dependences preds_of dominates_of diamond)
        1
unfolding controls has_barrier vari_ocl.Cdg.Dfs.reachable dependences
run_on_function-surrounds_example =
    run_on_function-surrounds dependences preds_of dominates_of diamond 1 3 refl refl refl

-- A loop of 2, the header, and 3, which has a barrier if `b` says so; 1 is its preheader.
abbrev looping : Bool → Function
looping b = record {
  blocks =
      record { id = 1; insts = plain 10 ∷ branch 11 (2 ∷ []) ∷ [] }
      ∷ record {
        id = 2;
        insts = record { id = 20; op = phi } ∷ plain 21 ∷ branch 22 (3 ∷ 4 ∷ []) ∷ [];
      }
      ∷ record { id = 3; insts = (if b then barrier 30 else plain 30) ∷ branch 31 (2 ∷ []) ∷ [] }
      ∷ record { id = 4; insts = ret 40 ∷ [] }
      ∷ [];
  fresh = 100;
}

abbrev loop_preds : ℕ → List ℕ
loop_preds b =
    if b == 2 then 1 ∷ 3 ∷ [] else if b == 3 then 2 ∷ [] else if b == 4 then 2 ∷ [] else []

abbrev splitter : Splitter
splitter = record {
  split = λ b k. (
    record b { insts = take k b.insts ++ branch 900 (50 ∷ []) ∷ [] },
    record { id = 50; insts = drop k b.insts },
  );
  jump = λ b k. branch 900 (50 ∷ []);
  jump_br = λ b k. refl;
  split_id = λ b k. refl;
  split_old = λ b k. refl;
  split_new = λ b k. refl;
}

process_loop-Placed_example :
    (g : Function) × (process_loop loop_preds dominates_of splitter
        (canonical (2 ∷ 3 ∷ []) 0 1 2 (some 2) (some 3))
        (looping true)
      ≡ some (g, false))
    × Placed loop_preds dominates_of splitter
        (canonical (2 ∷ 3 ∷ []) 0 1 2 (some 2) (some 3))
        1
        2
        3
        (looping true)
        g
unfolding first_barrier_block has_barrier
process_loop-Placed_example =
    process_loop-Placed loop_preds dominates_of splitter (2 ∷ 3 ∷ []) 0 1 2 3 (some 2) (some 3)
      (looping true) refl

-- Every value is invariant once it is asked for.
abbrev known : Tia
known = record { ti = []; tc = (2, all_invariant) ∷ (60, all_invariant) ∷ []; colors = [] }

run_on_loop_lem_example :
    (g : Function) × (t' : Tia) × (run_on_loop
        (λ v. other_value)
        (λ v. none)
        (λ b. 60)
        1
        (loop_of (2 ∷ 3 ∷ []) 0 (some 1) 2 2 (some 3))
        (looping false)
        known
      ≡ returns t' (g, true))
    × Result (λ v. other_value) (λ v. none) (λ b. 60) 1 2 2 true (looping false) g
unfolding is_uniform run_on_loop is_barrier_loop
run_on_loop_lem_example =
    run_on_loop_lem (λ v. other_value) (λ v. none) (λ b. 60) 1 (2 ∷ 3 ∷ []) 0 2 2 22 (some 1)
      (some 3) (looping false) known known known true true refl refl refl

run_on_function-apart_example :
    (all is_apart (split_function splitter diamond.blocks).0 ≡ true)
    × ((split_function splitter diamond.blocks).1 ≡ false
        → (split_function splitter diamond.blocks).0 ≡ diamond.blocks)
run_on_function-apart_example = run_on_function-apart splitter diamond.blocks

-- The branch of the loop's header goes to a block of its own.
split_lengths : length (split_function splitter (looping true).blocks).0 ≡ 5
unfolding split_function needs_split split_branch split_branches ends_with_barrier
split_lengths = refl

run_on_module-Adds_example :
    (run_on_module (module_of ((looping true).blocks ∷ []) (put_front 2 diamond) [])
      ≡ run_on_module (module_of ((looping true).blocks ∷ []) diamond []))
    × (all
          (all has_no_barrier)
          (run_on_module
            (module_of ((looping true).blocks ∷ []) (put_front 2 diamond) [])).0.functions
        ≡ true)
    × ((run_on_module (module_of ((looping true).blocks ∷ []) (put_front 2 diamond) [])).0.functions
        ≡ map without_barriers ((looping true).blocks ∷ diamond.blocks ∷ []))
run_on_module-Adds_example =
    run_on_module-Adds ((looping true).blocks ∷ []) [] diamond (put_front 2 diamond)
      (Adds.front Adds.done 2)
