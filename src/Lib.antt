-- ===== src/Lib.antt =====
-- VariOCL compiles OpenCL kernels for the CPU: work items are coarsened into loops, which end at the
-- barriers of the kernel. Its parts are passes and analyses over LLVM's IR. The control-dependence
-- analyses tell which blocks a branch decides; the invariance analyses, which build on them, tell
-- which values differ between work items; the barrier passes add barriers around conditions and
-- loops, put every barrier into a block of its own and replicate what follows a barrier; the OpenCL
-- layer and the metadata reader tell the passes which functions are kernels.
--
-- Files and code. Addresses of blocks, instructions and values are numbers, maps keyed by addresses
-- are association lists, and the order of a set of pointers is a list in any order.
--   Base: shared helpers, and the depth-first marking that two components share.
--   Ir: barrier_inst.h and barrier_utils.cpp; Op, Inst and Block are what the passes read of LLVM's
--     instructions and blocks.
--   Cdg: control_dependence.h and control_dependence.cpp. Cdg/Digraph is class Digraph, Cdg/Dfs is
--     DirectedDFS and TransitiveClosure, Cdg/Frontier is ControlDep::calculate, Cdg/ControlDep the
--     rest of ControlDep.
--   ControlDependence: class ControlDependence, in ControlDependence.h and ControlDependence.cpp.
--   ThreadInvariance: ThreadInvariance.h and ThreadInvariance.cpp. Kind is InvarianceKind with meet
--     and join, Scalar is ScalarInvarianceInfo, Info is InvarianceInfo; Impl is the map of
--     ThreadInvarianceImpl, Visit the class DataFlow with a visitor for each kind of instruction,
--     Build the loop over the work queue. The record Program has LLVM's values, ControlDependence's
--     maps and the dominator tree.
--   Triplet: triplet_invariance_analysis.h and triplet_invariance_analysis.cpp. Triplet itself is
--     getOrCalculateTriplet, one definition per kind of value; Run is runOnFunction, Worklist is
--     WorklistApproach, Divergence is analyzeBBDivergence. Plain is an account of the analysis on
--     functions without allocas and without calls that have no argument, which does without its
--     maps.
--   HiveOff: hive_off_barrier.cpp. SplitBlock is a parameter, the record Splitter, with the law that
--     its documentation states; the addresses of the barriers that the pass makes are parameters
--     too. Ends is about the entry and the exits, Whole about all of runOnFunction.
--   TailReplication: BarrierTailReplication.cpp. TailReplication itself is FindSubgraph and the loop of
--     CleanupPHIs over one PHI; Replicate is the rest, over blocks with PHIs and operands: Lookup,
--     Covers, Whole and Fresh are about the copies, Pass and Traces about the pass.
--   AuxBarriers: the passes that add barriers. Conditional is ImplicitConditionalBarriers.cpp,
--     Dependence is ImplicitCdgBarriers.cpp, InnerLoop is ImplicitLoopBarriers.cpp and AroundLoop is
--     LoopBarriers.cpp; Insert and Adds are what adding barriers keeps. Dependence asks
--     Cdg/ControlDep, InnerLoop asks Triplet.
--   SplitCondBr: split_bb_at_condbr.cpp, with SplitBlock as in HiveOff.
--   BarrierDeleter: barrier_deleter.cpp, which takes out what the AuxBarriers passes put in.
--   OpenClAl: OpenClAl.h and OpenClAl.cpp; names are lists of bytes.
--   KernelInfo: kernel_info_reader.h and kernel_info_reader.cpp.
--   Tests: each model run at concrete inputs.
--
-- Fuel. Cdg.Dfs.fuel is the number of keys of the graph, and each call marks one; find_subgraph
-- takes fuel for the blocks; cleanup_phi takes the square of the incoming values. In these the
-- theorems say that the fuel is enough. getOrCalculateTriplet takes fuel for the depth of its
-- recursion and has an outcome for its end: on a function without allocas and without calls
-- that have no argument the depth of the operands is enough, and some functions with allocas send
-- the code round for ever. The worklist takes fuel
-- for its rounds, which is its length; analyzeBBDivergence takes fuel for the blocks. The loop of
-- Build takes any fuel and has an outcome for its end; on plain functions there is enough. locate of
-- AuxBarriers.Conditional takes fuel for the blocks that it walks through, which a rank bounds
-- on flow graphs that have one. The
-- recursion of TailReplication.Replicate takes any fuel and stops where it ends: what is said of the
-- function that it leaves holds of every depth. Its cleanup_phis takes the square of one more than
-- the PHIs of the block, since each start over has lost a PHI.
--
-- Not modelled: LLVM itself, whose dominator trees, successors and split of a block are parameters;
-- printing, metadata and the names of blocks; the flag that the pass of hive_off_barrier.cpp
-- returns; a block without an entry in LLVM's dominance frontier; context_spill.cpp, LoopInserter.cpp,
-- IsolateRegions.cpp, inline_devicefn.cpp and break_phi_to_alloca.cpp; BreakConstantGEPs.cpp, which
-- is another project's; the tools kernel_info.cpp and kernel_link.cpp, which print and link; tests.
pub mod Base
pub mod Ir
pub mod Cdg
pub mod ControlDependence
pub mod ThreadInvariance
pub mod Triplet
pub mod HiveOff
pub mod TailReplication
pub mod AuxBarriers
pub mod SplitCondBr
pub mod BarrierDeleter
pub mod OpenClAl
pub mod KernelInfo
pub mod Tests
