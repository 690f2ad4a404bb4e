-- ===== src/ThreadInvariance/Build.antt =====
-- DataFlow::AnalyzeBlock and ThreadInvarianceImpl::Build (ThreadInvariance.cpp). The loop over the
-- work queue has fuel; running out is told apart from an abort.
pub mod Visitors
pub mod Kept
pub mod Queue
pub mod Plain
pub mod Mono
pub mod Descent
pub mod Progress
pub mod Width
pub mod Ends
use vari_ocl.Base.{ℕ, zero, suc, false, List, [], ◌∷◌, Option, none, some, ◌>>=◌, map}
use vari_ocl.ThreadInvariance.Info.{of_width}
use vari_ocl.ThreadInvariance.Impl.{Program, State, initialize_map}
use vari_ocl.ThreadInvariance.Visit.{visit_op, control_invariance}

pub data Outcome : Type 0 where
  ended : State → Outcome
  failed out_of_fuel : Outcome

-- The constructor of ThreadInvarianceImpl, with the members of the data flow.
abbrev pub initial : State
initial = record {
  variances = [];
  globals = [];
  coarse_detected = false;
  queue = [];
  current = of_width 0;
}

module _ (p : Program) where
  open p use {op, blocks, insts, args}

  unfoldable pub visit_all : List ℕ → State → Option State
  unfolding visit_op
  visit_all [] s = some s
  visit_all (i ∷ is) s = visit_op p i (op i) s >>= visit_all is

  unfoldable pub analyze_block : ℕ → State → Option State
  unfolding control_invariance visit_all
  analyze_block bb s = control_invariance p bb s >>= λ control.
      visit_all (insts bb) (record s { current = control }) >>= λ s'.
      some (record s' { current = s.current })

  -- The loop of `Build`. The round of a block is bound first, and made only if there is one.
  unfoldable pub run : ℕ → State → Outcome
  unfolding analyze_block
  run zero s = elim s.queue [ [] ↦ ended s | bb ∷ queue ↦ out_of_fuel ]
  run (suc fuel) s = elim s.queue [
    | [] ↦ ended s
    | bb ∷ queue ↦ elim (analyze_block bb (record s { queue = queue })) [
      | none ↦ failed
      | some s' ↦ run fuel s'
    ]
  ]

  unfoldable pub build : ℕ → Outcome
  unfolding initialize_map run
  build fuel = elim (initialize_map p args initial) [
    | none ↦ failed
    | some s ↦ run fuel (record s { queue = blocks })
  ]
