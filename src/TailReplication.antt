-- ===== src/TailReplication.antt =====
-- class BarrierTailReplication (BarrierTailReplication.cpp): the subgraph that is replicated behind a
-- barrier, and the clean-up of the PHIs. A block is a number; the dominator tree's query, the
-- successors of a block's terminator and the addresses of new blocks are parameters.
pub mod Subgraph
pub mod Cleanup
pub mod Replicate
use vari_ocl.Base.{
  ℕ, zero, suc, ◌+◌, ◌-◌, ◌≡◌, Bool, true, false, not, ◌||◌, ◌&&◌, List, [], ◌∷◌, ◌++◌, foldl,
  Option, none, some, length, elem, ltb, ◌==◌, if◌then◌else◌, get_elem?, get_or, Map, lookup,
  insert,
}

module _ (dominates : ℕ → ℕ → Bool) (succs : ℕ → List ℕ) where
  -- `FindSubgraph`: depth first along the edges that are no back edges. It recurs into each block
  -- once, so fuel for the number of blocks is enough.
  unfoldable pub find_subgraph : ℕ → List ℕ → ℕ → List ℕ
  find_subgraph zero subgraph entry = subgraph
  find_subgraph (suc f) subgraph entry = elim (elem entry subgraph) [
    | true ↦ subgraph
    | false ↦
        foldl
          (λ s successor. elim (dominates successor entry) [
            | true ↦ s
            | false ↦ find_subgraph f s successor
          ])
          (subgraph ++ entry ∷ []) (succs entry)
  ]

-- A PHI's incoming values, each with its block.
abbrev pub Incoming : Type 0
Incoming = List (ℕ × ℕ)

-- `removeIncomingValue(i)`.
abbrev pub remove_at : ℕ → Incoming → Incoming
remove_at i [] = []
remove_at zero (p ∷ ps) = ps
remove_at (suc i) (p ∷ ps) = p ∷ remove_at i ps

abbrev pub incoming_block : Incoming → ℕ → ℕ
incoming_block ps i = (get_or ps i (0, 0)).1

module _ (succs : ℕ → List ℕ) (bb : ℕ) where
  -- Whether the block of the incoming value at `i` still branches to `bb`.
  abbrev pub is_successor : Incoming → ℕ → Bool
  is_successor ps i = elem bb (succs (incoming_block ps i))

  -- The loop over the incoming values of one PHI, from `i`. A removal starts it again with `i = 0`,
  -- which the loop's `++i` makes 1. `none` is the PHI that lost its last value and is gone. Every
  -- round removes a value or moves on, so fuel for twice the square of the values is enough.
  unfoldable pub cleanup_phi : ℕ → ℕ → Incoming → Option Incoming
  cleanup_phi zero i ps = some ps
  cleanup_phi (suc f) i ps = elim (ltb i (length ps)) [
    | false ↦ some ps
    | true ↦ elim (is_successor ps i) [
      | true ↦ cleanup_phi f (i + 1) ps
      | false ↦ elim (length (remove_at i ps) == 0) [
        | true ↦ none
        | false ↦ cleanup_phi f 1 (remove_at i ps)
      ]
    ]
  ]
