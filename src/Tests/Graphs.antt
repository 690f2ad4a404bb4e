-- ===== src/Tests/Graphs.antt =====
-- The control-dependence graphs (control_dependence.h, control_dependence.cpp, ControlDependence.cpp)
-- of a branch: block 1 branches to 2 and 3, which join at 4.
use vari_ocl.Base.{
  ℕ, ◌≡◌, refl, Bool, true, false, not, ◌||◌, ◌&&◌, List, [], ◌∷◌, none, some, elem, keys,
  lookup_or, ◌==◌, if◌then◌else◌, ◌↔◌, arith,
}
use vari_ocl.Base.Reach.{Reach}
use vari_ocl.Cdg.Digraph.{Digraph, targets, IsClosed}
use vari_ocl.Cdg.Dfs.{
  directed_dfs, directed_dfs_correct, compute_tc, reachable, reachable-compute_tc,
}
use vari_ocl.Cdg.Frontier.{Tree, node, Forest, nil, cons, PostDom, calculate}
use vari_ocl.Cdg.Frontier.Correct.{subtree, starts, has}
use vari_ocl.Cdg.Frontier.Correct.{IsDistinct as IsDistinctTree}
use vari_ocl.Cdg.Frontier.Closed.{starts_in_forest, Inherits, calculate_correct}
use vari_ocl.Cdg.ControlDep.{
  init, is_ctrl_dep, is_reversely_ctrl_dep, run_on_function, is_iteratively_ctrl_dep,
  is_reversely_iteratively_ctrl_dep,
}
use vari_ocl.Cdg.ControlDep.Graph.{
  dependents, is_iteratively_ctrl_dep_correct, is_reversely_iteratively_ctrl_dep_correct,
}
use vari_ocl.ControlDependence.{init as no_dependences, run_on_function as find_dependences}
use vari_ocl.ControlDependence.Sets.{
  outputs, inputs, depends, run_on_function_correct, run_on_function-mirror, run_on_function_irrefl,
}

abbrev diamond : Digraph
diamond = record {
  num_nodes = 4;
  num_edges = 4;
  adj = (1, 2 ∷ 3 ∷ []) ∷ (2, 4 ∷ []) ∷ (3, 4 ∷ []) ∷ (4, []) ∷ [];
}

diamond-IsClosed : IsClosed diamond
diamond-IsClosed u h x k = ground arith

directed_dfs_correct_example :
    (elem 4 (directed_dfs diamond 1) ≡ true) ↔ ∥ Reach (targets diamond) 1 4 ∥₁
directed_dfs_correct_example = directed_dfs_correct diamond 1 4 diamond-IsClosed refl

reachable-compute_tc_example :
    (reachable (compute_tc diamond []) 2 3 ≡ true)
    ↔ ((elem 2 (keys diamond.adj) ≡ true) × ∥ Reach (targets diamond) 2 3 ∥₁)
reachable-compute_tc_example = reachable-compute_tc diamond 2 3 diamond-IsClosed

-- The post-dominator tree of the diamond: 4 is the root, 1, 2 and 3 its children.
abbrev preds_of : ℕ → List ℕ
preds_of b = if b == 4 then 2 ∷ 3 ∷ [] else if b == 1 then [] else 1 ∷ []

abbrev diamond_post : PostDom
diamond_post = record {
  preds = preds_of;
  has_node = λ b. true;
  idom = λ b. if b == 4 then none else some 4;
  properly_dominates = λ a b. a == 4 && not (b == 4);
  no_roots = false;
}

abbrev children : Forest
children = cons (node 1 nil) (cons (node 2 nil) (cons (node 3 nil) nil))

abbrev post_tree : Tree
post_tree = node 4 children

post_tree-IsDistinct : IsDistinctTree post_tree
unfolding IsDistinctTree has
post_tree-IsDistinct = (
  refl,
  (
    (refl, tt),
    ((refl, tt), ((refl, tt), tt, λ n h. refl), λ n h. ground arith),
    λ n h. ground arith,
  ),
)

calculate_correct_example : elem 1 (lookup_or [] 4 (calculate diamond_post post_tree [])) ≡ (
    starts diamond_post 1 4
    || starts_in_forest diamond_post 1 children && not (diamond_post.properly_dominates 4 1))
unfolding Inherits subtree
calculate_correct_example =
    calculate_correct diamond_post post_tree 4 1 children refl post_tree-IsDistinct refl
      (λ e. refl, tt, (λ e. refl, tt, (λ e. refl, tt, tt)))

abbrev blocks : List ℕ
blocks = 1 ∷ 2 ∷ 3 ∷ 4 ∷ []

abbrev frontier_of : ℕ → List ℕ
frontier_of b = if b == 2 then 4 ∷ [] else if b == 3 then 4 ∷ [] else []

is_iteratively_ctrl_dep_correct_example :
    (is_iteratively_ctrl_dep
        (run_on_function diamond_post (some post_tree) frontier_of blocks init)
        1
        2
      ≡ true)
    ↔ ((elem 1 blocks ≡ true)
        × ∥ Reach
            (dependents
              (is_ctrl_dep
                (run_on_function diamond_post (some post_tree) frontier_of blocks init).frontiers)
              blocks)
            1
            2 ∥₁)
is_iteratively_ctrl_dep_correct_example =
    is_iteratively_ctrl_dep_correct diamond_post (some post_tree) frontier_of blocks 1 2
      (refl, (refl, (refl, (refl, tt))))

is_reversely_iteratively_ctrl_dep_correct_example :
    (is_reversely_iteratively_ctrl_dep
        (run_on_function diamond_post (some post_tree) frontier_of blocks init)
        4
        2
      ≡ true)
    ↔ ((elem 4 blocks ≡ true)
        × ∥ Reach (dependents (is_reversely_ctrl_dep frontier_of) blocks) 4 2 ∥₁)
is_reversely_iteratively_ctrl_dep_correct_example =
    is_reversely_iteratively_ctrl_dep_correct diamond_post (some post_tree) frontier_of blocks 4 2
      (refl, (refl, (refl, (refl, tt))))

-- Post-dominance and the successors in the diamond.
abbrev post_dominates : ℕ → ℕ → Bool
post_dominates a b = a == b || a == 4

abbrev succs_of : ℕ → List ℕ
succs_of b = if b == 1 then 2 ∷ 3 ∷ [] else if b == 4 then [] else 4 ∷ []

run_on_function_correct_example :
    (outputs (find_dependences post_dominates succs_of blocks no_dependences) 1 2
      ≡ (elem 1 blocks && elem 2 blocks && depends post_dominates succs_of 1 2))
    × (inputs (find_dependences post_dominates succs_of blocks no_dependences) 2 1
        ≡ (elem 1 blocks && elem 2 blocks && depends post_dominates succs_of 1 2))
run_on_function_correct_example = run_on_function_correct post_dominates succs_of blocks 1 2

run_on_function-mirror_example :
    outputs (find_dependences post_dominates succs_of blocks no_dependences) 1 3
    ≡ inputs (find_dependences post_dominates succs_of blocks no_dependences) 3 1
run_on_function-mirror_example =
    run_on_function-mirror post_dominates succs_of blocks no_dependences (λ a b. refl) 1 3

run_on_function_irrefl_example :
    outputs (find_dependences post_dominates succs_of blocks no_dependences) 1 1 ≡ false
run_on_function_irrefl_example = run_on_function_irrefl post_dominates succs_of blocks 1 refl
