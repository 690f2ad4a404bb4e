-- ===== src/Cdg/ControlDep/Graph.antt =====
-- The graph that the loops build has an edge for each dependence, and its closure answers for
-- chains of dependences.
use vari_ocl.Base.{
  IsDistinct, ℕ, ◌≡◌, refl, true, List, [], ◌∷◌, ◌++◌, arith, Bool, Option, elem, length, keep,
  keys, if◌then◌else◌, ◌==◌, ◌||◌, ◌↔◌, elem-keep, elem-keys-insert, append_assoc, ==_refl, ==_iff,
  append-nil, Bool-cases, inl, inr, fun_ext,
}
use vari_ocl.Base.Reach.{Reach}
use vari_ocl.Cdg.Digraph.{
  Digraph, empty, targets, set_num_nodes, add_node, add_edge, targets-add_node, targets-add_edge,
  IsClosed,
}
use vari_ocl.Cdg.Dfs.{compute_tc, reachable, reachable-compute_tc}
use vari_ocl.Cdg.Frontier.{PostDom, Tree}
use vari_ocl.Cdg.ControlDep.{
  init, is_ctrl_dep, is_reversely_ctrl_dep, add_edges, build, frontiers_of, run_on_function,
  is_iteratively_ctrl_dep, is_reversely_iteratively_ctrl_dep,
}

module _ (dep : ℕ → ℕ → Bool) where
  targets-add_edges :
      (x u : ℕ) (ys : List ℕ) (g : Digraph)
      → targets (add_edges dep x ys g) u
        ≡ (if x == u then targets g u ++ keep (dep x) ys else targets g u)
  unfolding add_edges
  targets-add_edges x u [] g = ground (arith, append-nil (targets g u))
  targets-add_edges x u (y ∷ ys) g = ground (
    arith,
    targets-add_edges x u ys (if dep x y then add_edge x y g else g),
    targets-add_edge x y u g,
    append_assoc (targets g u) (y ∷ []) (keep (dep x) ys),
  )

  keys-add_edges :
      (x u : ℕ) (ys : List ℕ) (g : Digraph)
      → elem x (keys g.adj) ≡ true
      → elem u (keys (add_edges dep x ys g).adj) ≡ elem u (keys g.adj)
  unfolding add_edges add_edge
  keys-add_edges x u [] g h = refl
  keys-add_edges x u (y ∷ ys) g h = ground (
    arith,
    keys-add_edges x u ys (if dep x y then add_edge x y g else g),
    elem-keys-insert x u (targets g x ++ y ∷ []) g.adj,
    elem-keys-insert x x (targets g x ++ y ∷ []) g.adj,
    ==_iff u x,
  )

  targets-build :
      (blocks xs : List ℕ) (u : ℕ) (g : Digraph)
      → IsDistinct xs
      → targets (build dep blocks xs g) u
        ≡ (if elem u xs then targets g u ++ keep (dep u) blocks else targets g u)
  unfolding build
  targets-build blocks [] u g d = refl
  targets-build blocks (x ∷ xs) u g d = elim (Bool-cases (x == u)) [
    | inl at ↦ ground (
      arith,
      ==_iff x u,
      targets-build blocks xs u (add_edges dep x blocks (add_node x g)) d.1,
      targets-add_edges x u blocks (add_node x g),
      targets-add_node x u g,
    )
    | inr away ↦ ground (
      arith,
      targets-build blocks xs u (add_edges dep x blocks (add_node x g)) d.1,
      targets-add_edges x u blocks (add_node x g),
      targets-add_node x u g,
    )
  ]

  keys-build :
      (blocks xs : List ℕ) (u : ℕ) (g : Digraph)
      → elem u (keys (build dep blocks xs g).adj) ≡ (elem u (keys g.adj) || elem u xs)
  unfolding build add_node
  keys-build blocks [] u g = ground arith
  keys-build blocks (x ∷ xs) u g = ground (
    arith,
    keys-build blocks xs u (add_edges dep x blocks (add_node x g)),
    keys-add_edges x u blocks (add_node x g),
    elem-keys-insert x u (targets g x) g.adj,
    elem-keys-insert x x (targets g x) g.adj,
    ==_refl x,
  )

  pub built : List ℕ → Digraph
  built blocks = build dep blocks blocks (set_num_nodes (length blocks) (empty 0))

  targets-built :
      (blocks : List ℕ) (u : ℕ)
      → IsDistinct blocks
      → targets (built blocks) u ≡ (if elem u blocks then keep (dep u) blocks else [])
  unfolding built set_num_nodes empty
  targets-built blocks u d =
      targets-build blocks blocks u (record (empty 0) { num_nodes = length blocks }) d

  keys-built : (blocks : List ℕ) (u : ℕ) → elem u (keys (built blocks).adj) ≡ elem u blocks
  unfolding built set_num_nodes empty
  keys-built blocks u = keys-build blocks blocks u (record (empty 0) { num_nodes = length blocks })

  -- So no read of `adj` on these graphs makes a key.
  pub built-IsClosed : (blocks : List ℕ) → IsDistinct blocks → IsClosed (built blocks)
  built-IsClosed blocks d u m v e = ground (
    arith,
    keys-built blocks u,
    keys-built blocks v,
    targets-built blocks u d,
    elem-keep (dep u) v blocks,
  )

  -- The blocks that depend on a block of the function.
  pub dependents : List ℕ → ℕ → List ℕ
  dependents blocks u = if elem u blocks then keep (dep u) blocks else []

  reachable-built :
      (blocks : List ℕ) (x y : ℕ)
      → IsDistinct blocks
      → (reachable (compute_tc (built blocks) []) x y ≡ true)
        ↔ ((elem x blocks ≡ true) × ∥ Reach (dependents blocks) x y ∥₁)
  unfolding dependents
  reachable-built blocks x y d =
      let e : targets (built blocks) ≡ (λ u. if elem u blocks then keep (dep u) blocks else []) =
        fun_ext (λ u. targets-built blocks u d) in
      rw (← keys-built blocks x, ← e)
        (reachable-compute_tc (built blocks) x y (built-IsClosed blocks d))

-- On a fresh analysis of a function whose blocks are distinct, `y` is iteratively control dependent
-- on `x` exactly if `x` is a block of the function and a chain of zero or more control dependences
-- between its blocks leads from `x` to `y`.
pub is_iteratively_ctrl_dep_correct :
    (dt : PostDom) (root : Option Tree) (df : ℕ → List ℕ) (blocks : List ℕ) (x y : ℕ)
    → IsDistinct blocks
    → (is_iteratively_ctrl_dep (run_on_function dt root df blocks init) x y ≡ true) ↔ (
        (elem x blocks ≡ true)
        × ∥ Reach
            (dependents (is_ctrl_dep (run_on_function dt root df blocks init).frontiers) blocks)
            x
            y ∥₁)
unfolding is_iteratively_ctrl_dep run_on_function init built
is_iteratively_ctrl_dep_correct dt root df blocks x y d =
    reachable-built (is_ctrl_dep (frontiers_of dt root)) blocks x y d

-- On a fresh analysis of a function whose blocks are distinct, `y` is iteratively control dependent
-- on `x` in the reverse graph exactly if `x` is a block of the function and a chain of zero or more
-- reverse dependences between its blocks, read off the dominance frontiers, leads from `x` to `y`.
pub is_reversely_iteratively_ctrl_dep_correct :
    (dt : PostDom) (root : Option Tree) (df : ℕ → List ℕ) (blocks : List ℕ) (x y : ℕ)
    → IsDistinct blocks
    → (is_reversely_iteratively_ctrl_dep (run_on_function dt root df blocks init) x y ≡ true)
      ↔ ((elem x blocks ≡ true) × ∥ Reach (dependents (is_reversely_ctrl_dep df) blocks) x y ∥₁)
unfolding is_reversely_iteratively_ctrl_dep run_on_function init built
is_reversely_iteratively_ctrl_dep_correct dt root df blocks x y d =
    reachable-built (is_reversely_ctrl_dep df) blocks x y d
