-- ===== src/Tests/Tails.antt =====
-- Tail replication (BarrierTailReplication.cpp) on a diamond with a barrier on one side.
use vari_ocl.Base.{ℕ, ◌≡◌, refl, ◌||◌, ◌&&◌, ◌↔◌, Bool, true, false, [], ◌∷◌, ◌==◌}
use vari_ocl.TailReplication.Replicate.{Inst, Function, run_on_function, succs_of}
use vari_ocl.TailReplication.Replicate.Traces.{Walk, run_on_function-same_traces}

abbrev inst : ℕ → Bool → Inst
inst a b = record { id = a; barrier = b; operands = [] }

-- 1 branches to 2 and 3, both go on to 4, whose PHI tells where it comes from; 2 has a barrier.
abbrev diamond : Function
diamond = record {
  blocks =
      record { id = 1; phis = []; insts = inst 10 false ∷ []; succs = 2 ∷ 3 ∷ [] }
      ∷ record { id = 2; phis = []; insts = inst 20 true ∷ inst 21 false ∷ []; succs = 4 ∷ [] }
      ∷ record { id = 3; phis = []; insts = inst 30 false ∷ []; succs = 4 ∷ [] }
      ∷ record {
        id = 4;
        phis = record { id = 40; incoming = (20, 2) ∷ (30, 3) ∷ [] } ∷ [];
        insts = inst 41 false ∷ [];
        succs = [];
      }
      ∷ [];
  fresh = 50;
}

-- The dominators before and after the pass has given 2 a successor of its own.
abbrev dominates_of : Function → ℕ → ℕ → Bool
dominates_of f a b = a == b || a == 1 || (a == 2 && b == 50)

-- The copy of 4 is 50, and 2 goes on to it.
replicated : succs_of (run_on_function dominates_of 9 1 diamond) 2 ≡ 50 ∷ []
unfolding run_on_function
replicated = refl

run_on_function-same_traces_example :
    Walk
      (run_on_function dominates_of 9 1 diamond)
      1
      ((false ∷ []) ∷ (true ∷ false ∷ []) ∷ (false ∷ []) ∷ [])
    ↔ Walk diamond 1 ((false ∷ []) ∷ (true ∷ false ∷ []) ∷ (false ∷ []) ∷ [])
run_on_function-same_traces_example =
    run_on_function-same_traces dominates_of 9 1 diamond refl refl 1
      ((false ∷ []) ∷ (true ∷ false ∷ []) ∷ (false ∷ []) ∷ []) refl
