-- ===== src/Tests/Blocks.antt =====
-- The barrier passes (hive_off_barrier.cpp, barrier_inst.h, BarrierTailReplication.cpp) on a function
-- of two blocks with a barrier in the middle of each.
use vari_ocl.Base.{
  ℕ, ◌+◌, ◌*◌, ◌≡◌, refl, ◌||◌, Bool, true, false, not, List, [], ◌∷◌, ◌++◌, some, elem, take, drop,
  ◌==◌, if◌then◌else◌, ◌↔◌, arith,
}
use vari_ocl.Base.Reach.{Reach}
use vari_ocl.Ir.{call, br, terminator, other, Inst, Block, contains_just_a_barrier, has_barrier}
use vari_ocl.HiveOff.{
  Splitter, collect_barriers, process_all, hive_entry, hive_exits, run_on_function,
}
use vari_ocl.HiveOff.Ends.{settled, front_just, hive_ends-settled}
use vari_ocl.HiveOff.Shape.{All}
use vari_ocl.HiveOff.Order.{process_all-order, flat, is_jump_op}
use vari_ocl.HiveOff.Hived.{process_all-alone}
use vari_ocl.HiveOff.Whole.{run_on_function-alone}
use vari_ocl.TailReplication.{Incoming, cleanup_phi, find_subgraph}
use vari_ocl.TailReplication.Cleanup.{cleaned, cleanup_phi_correct}
use vari_ocl.TailReplication.Subgraph.{forward, find_subgraph_correct}

-- A splitter that gives the new block an address made of the old one's and the place.
abbrev new_id : Block → ℕ → ℕ
new_id b k = 100 + 10 * b.id + k

abbrev jump_to : Block → ℕ → Inst
jump_to b k = record { id = 1000 + new_id b k; op = br false (new_id b k ∷ []) }

abbrev splitter : Splitter
splitter = record {
  split = λ b k. (
    record b { insts = take k b.insts ++ jump_to b k ∷ [] },
    record { id = new_id b k; insts = drop k b.insts },
  );
  jump = jump_to;
  jump_br = λ b k. refl;
  split_id = λ b k. refl;
  split_old = λ b k. refl;
  split_new = λ b k. refl;
}

abbrev plain : ℕ → Inst
plain a = record { id = a; op = other }

abbrev barrier : ℕ → Inst
barrier a = record { id = a; op = call (some "barrier") }

abbrev ret : ℕ → Inst
ret a = record { id = a; op = terminator [] }

abbrev first_block : Block
first_block = record {
  id = 1;
  insts = plain 1 ∷ barrier 2 ∷ plain 3 ∷ record { id = 4; op = br false (2 ∷ []) } ∷ [];
}

abbrev second_block : Block
second_block = record { id = 2; insts = plain 5 ∷ barrier 6 ∷ ret 7 ∷ [] }

abbrev function : List Block
function = first_block ∷ second_block ∷ []

process_all-order_example :
    flat (λ i. not (is_jump_op i.op)) (process_all splitter (6 ∷ 2 ∷ []) function)
    ≡ flat (λ i. not (is_jump_op i.op)) function
process_all-order_example = process_all-order splitter (6 ∷ 2 ∷ []) function

process_all-alone_example :
    All
      (λ b. has_barrier b ≡ true → contains_just_a_barrier b ≡ true)
      (process_all splitter (6 ∷ 2 ∷ []) function)
unfolding collect_barriers
process_all-alone_example =
    process_all-alone splitter (6 ∷ 2 ∷ []) function (λ c h. ground arith) refl
      ((refl, (refl, (refl, refl))), ((refl, (refl, refl)), tt)) (refl, (refl, tt))

hive_ends-settled_example :
    All
      (λ c. settled splitter c ≡ true)
      (hive_exits splitter (λ n. 300 + n) (hive_entry splitter 200 function))
    × (front_just (hive_exits splitter (λ n. 300 + n) (hive_entry splitter 200 function)) ≡ true)
hive_ends-settled_example =
    hive_ends-settled splitter 200 (λ n. 300 + n) function (omega arith, (omega arith, tt))

run_on_function-alone_example :
    All
      (λ b. has_barrier b ≡ true → contains_just_a_barrier b ≡ true)
      (run_on_function splitter 200 (λ n. 300 + n) function)
unfolding collect_barriers hive_entry hive_exits
run_on_function-alone_example =
    run_on_function-alone splitter 200 (λ n. 300 + n) function
      ((refl, (refl, (refl, refl))), ((refl, (refl, refl)), tt)) (refl, (refl, (refl, tt)))

-- A loop of 1, 2 and 3, which 3 leaves to 4.
abbrev loop_succs : ℕ → List ℕ
loop_succs b =
    if b == 1 then 2 ∷ [] else if b == 2 then 3 ∷ [] else if b == 3 then 1 ∷ 4 ∷ [] else []

abbrev loop_dominates : ℕ → ℕ → Bool
loop_dominates a b = a == b || a == 1

loop-IsClosed :
    (u : ℕ)
    → elem u (1 ∷ 2 ∷ 3 ∷ 4 ∷ []) ≡ true
    → (x : ℕ) → elem x (loop_succs u) ≡ true
    → elem x (1 ∷ 2 ∷ 3 ∷ 4 ∷ []) ≡ true
loop-IsClosed u h x k = ground arith

find_subgraph_correct_example :
    (elem 4 (find_subgraph loop_dominates loop_succs 4 [] 2) ≡ true)
    ↔ ∥ Reach (forward loop_dominates loop_succs) 2 4 ∥₁
find_subgraph_correct_example =
    find_subgraph_correct loop_dominates loop_succs (1 ∷ 2 ∷ 3 ∷ 4 ∷ []) 2 4 4 loop-IsClosed refl
      (omega arith)

-- A PHI of block 4 whose first two incoming blocks no longer branch to it: one of the two stays.
abbrev incoming : Incoming
incoming = (10, 1) ∷ (11, 2) ∷ (12, 3) ∷ []

cleanup_phi_correct_example : cleanup_phi loop_succs 4 9 0 incoming ≡ cleaned loop_succs 4 incoming
cleanup_phi_correct_example = cleanup_phi_correct loop_succs 4 9 incoming (omega arith)
