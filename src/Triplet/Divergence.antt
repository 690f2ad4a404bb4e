-- ===== src/Triplet/Divergence.antt =====
-- analyzeBBDivergence (triplet_invariance_analysis.cpp): the walk over the blocks that marks each as
-- uniform or divergent.
use vari_ocl.Base.{
  ℕ, zero, suc, Bool, false, not, ◌&&◌, List, [], ◌∷◌, Option, none, some, if◌then◌else◌, ◌==◌,
  elem,
}
use vari_ocl.Triplet.{
  Triplet, all_invariant, all_non_invariant, Tia, Outcome, returns, undefined, no_fuel, and_then,
  set_triplet_to_value, is_triplet_invariance_analyzed, Node, get_or_calculate_triplet,
  is_triplet_equal,
}

-- A terminator that is a branch: its condition, if it has one, and its successors.
pub data Branch : Type 0 where
  unconditional : List ℕ → Branch
  conditional : ℕ → List ℕ → Branch

abbrev pub successors : Branch → List ℕ
successors (unconditional ss) = ss
successors (conditional c ss) = ss

module _ (node : ℕ → Node) (constant : ℕ → Option ℕ) (branch_of : ℕ → Option Branch)
    (post_dominates : ℕ → ℕ → Bool) where
  -- The state once `bb` is marked, and the last uniform block from then on. `t` is the triplet of
  -- the condition of the branch of `previous`, whose successors are `ss`.
  abbrev pub mark : Tia → Triplet → List ℕ → ℕ → ℕ → Tia × ℕ
  unfolding set_triplet_to_value is_triplet_invariance_analyzed is_triplet_equal
  mark s t ss bb previous =
      let taken : Bool = is_triplet_equal t all_invariant && elem bb ss in
      let s1 : Tia = if taken then set_triplet_to_value s bb all_invariant else s in
      let last1 : ℕ = if taken then bb else previous in
      let joins : Bool = not (last1 == bb) && post_dominates bb previous in
      let s2 : Tia = if joins then set_triplet_to_value s1 bb all_invariant else s1 in
      let last2 : ℕ = if joins then bb else last1 in
      let s3 : Tia =
        if is_triplet_invariance_analyzed s2 bb
        then s2
        else set_triplet_to_value s2 bb all_non_invariant in
      (s3, last2)

  -- The loop over the successors: `enter` is the recursive call.
  abbrev pub enter_each : (Tia → ℕ → Outcome Bool) → Tia → List ℕ → Outcome Bool
  unfolding is_triplet_invariance_analyzed
  enter_each enter s [] = returns s false
  enter_each enter s (b ∷ bs) =
      if is_triplet_invariance_analyzed s b
      then enter_each enter s bs
      else and_then (enter s b) (λ s1 r. enter_each enter s1 bs)

  abbrev pub enter_next : (Tia → ℕ → Outcome Bool) → Tia → Option Branch → Outcome Bool
  unfolding enter_each
  enter_next enter s none = returns s false
  enter_next enter s (some br) = enter_each enter s (successors br)

  -- The body: `enter` is the recursive call, which takes the last uniform block first. The
  -- condition of an unconditional branch does not exist; it is asked for all the same.
  abbrev pub analyze_branch :
      (ℕ → Tia → ℕ → Outcome Bool) → ℕ → Tia → ℕ → ℕ → Option Branch → Outcome Bool
  unfolding get_or_calculate_triplet mark enter_next
  analyze_branch enter f s bb previous none = returns s false
  analyze_branch enter f s bb previous (some (unconditional ss)) = undefined
  analyze_branch enter f s bb previous (some (conditional c ss)) =
      and_then (get_or_calculate_triplet node constant f s c) (λ s1 t.
        enter_next (enter (mark s1 t ss bb previous).1) (mark s1 t ss bb previous).0 (branch_of bb))

  -- A call that calls again has marked its block, and no marked block is entered: fuel for the
  -- blocks bounds how deep the calls go. `f` is the fuel of each calculation.
  unfoldable pub analyze_bb_divergence : ℕ → ℕ → Tia → ℕ → ℕ → Outcome Bool
  unfolding analyze_branch
  analyze_bb_divergence zero f s bb previous = no_fuel
  analyze_bb_divergence (suc g) f s bb previous =
      analyze_branch (λ last s1 b. analyze_bb_divergence g f s1 b last) f s bb previous
        (branch_of previous)
