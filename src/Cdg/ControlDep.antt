-- ===== src/Cdg/ControlDep.antt =====
-- class ControlDep (control_dependence.h, control_dependence.cpp): the graph of control
-- dependences and its closure, once from the post-dominance frontiers and once, for the reverse
-- graph, from LLVM's dominance frontier.
pub mod Graph
use vari_ocl.Base.{
  ℕ, ◌≡◌, true, false, List, [], ◌∷◌, arith, Bool, Option, none, some, elem, length, lookup_or, Map,
  if◌then◌else◌,
}
use vari_ocl.Cdg.Digraph.{Digraph, empty, set_num_nodes, add_node, add_edge}
use vari_ocl.Cdg.Dfs.{compute_tc, reachable}
use vari_ocl.Cdg.Frontier.{PostDom, Tree, calculate}

pub record ControlDep : Type 0 where
  pub frontiers : Map (List ℕ)
  pub cdg : Digraph
  pub tccdg : Map (List ℕ)
  pub rcdg : Digraph
  pub tcrcdg : Map (List ℕ)

unfoldable pub init : ControlDep
unfolding empty
init = record { frontiers = []; cdg = empty 0; tccdg = []; rcdg = empty 0; tcrcdg = [] }

-- Whether `y` is control dependent on `x`.
abbrev pub is_ctrl_dep : Map (List ℕ) → ℕ → ℕ → Bool
is_ctrl_dep frontiers x y = elem x (lookup_or [] y frontiers)

-- The same in the reverse graph: `df y` is `DF->find(Y)->second`, for a frontier that has an entry
-- for every block; at a block without one the source reads past the end of the map.
abbrev pub is_reversely_ctrl_dep : (ℕ → List ℕ) → ℕ → ℕ → Bool
is_reversely_ctrl_dep df x y = elem x (df y)

-- The inner loop: an edge to each block that depends on `x`.
add_edges : (ℕ → ℕ → Bool) → ℕ → List ℕ → Digraph → Digraph
add_edges dep x [] g = g
add_edges dep x (y ∷ ys) g = add_edges dep x ys (if dep x y then add_edge x y g else g)

-- The outer loop, over the blocks `xs` of the function whose blocks are `blocks`.
build : (ℕ → ℕ → Bool) → List ℕ → List ℕ → Digraph → Digraph
unfolding add_edges
build dep blocks [] g = g
build dep blocks (x ∷ xs) g = build dep blocks xs (add_edges dep x blocks (add_node x g))

frontiers_of : PostDom → Option Tree → Map (List ℕ)
frontiers_of dt none = []
frontiers_of dt (some root) = calculate dt root []

-- The graphs and closures that an earlier function left are not cleared.
unfoldable pub run_on_function :
    PostDom → Option Tree → (ℕ → List ℕ) → List ℕ → ControlDep → ControlDep
unfolding build frontiers_of
run_on_function dt root df blocks c =
    let fr = frontiers_of dt root in
    let g = build (is_ctrl_dep fr) blocks blocks (set_num_nodes (length blocks) c.cdg) in
    let r = build (is_reversely_ctrl_dep df) blocks blocks (set_num_nodes (length blocks) c.rcdg) in
    record {
      frontiers = fr;
      cdg = g;
      tccdg = compute_tc g c.tccdg;
      rcdg = r;
      tcrcdg = compute_tc r c.tcrcdg;
    }

unfoldable pub is_iteratively_ctrl_dep : ControlDep → ℕ → ℕ → Bool
is_iteratively_ctrl_dep c x y = reachable c.tccdg x y

unfoldable pub is_reversely_iteratively_ctrl_dep : ControlDep → ℕ → ℕ → Bool
is_reversely_iteratively_ctrl_dep c x y = reachable c.tcrcdg x y
