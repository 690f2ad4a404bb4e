-- ===== src/Cdg/Digraph.antt =====
-- class Digraph of control_dependence.h. A block is a number, and `adj` is a map to vectors.
pub mod Reverse
use vari_ocl.Base.{
  ℕ, ◌+◌, ◌≡◌, refl, true, false, List, [], ◌∷◌, ◌++◌, foldl, arith, ap, ◌==◌, ◌||◌, ◌&&◌,
  if◌then◌else◌, length, elem, keep, Map, lookup, lookup_or, insert, keys, lookup-insert,
  elem-keys-insert, elem-append,
}
use vari_ocl.Base.Reach.{Sub}

pub record Digraph : Type 0 where
  pub num_nodes : ℕ
  pub num_edges : ℕ
  pub adj : Map (List ℕ)

unfoldable pub empty : ℕ → Digraph
empty v = record { num_nodes = v; num_edges = 0; adj = [] }

unfoldable pub set_num_nodes : ℕ → Digraph → Digraph
set_num_nodes v g = record g { num_nodes = v }

unfoldable pub set_num_edges : ℕ → Digraph → Digraph
set_num_edges e g = record g { num_edges = e }

-- `adj[v]`, read: a missing key stands for the empty vector.
abbrev pub targets : Digraph → ℕ → List ℕ
targets g v = lookup_or [] v g.adj

-- `adj[v]` also makes the key.
unfoldable pub add_node : ℕ → Digraph → Digraph
add_node v g = record g { adj = insert v (targets g v) g.adj }

unfoldable pub add_edge : ℕ → ℕ → Digraph → Digraph
add_edge v w g = record g {
  num_edges = g.num_edges + 1;
  adj = insert v (targets g v ++ w ∷ []) g.adj;
}

-- The vector, and the graph that the call leaves.
unfoldable pub get_adjs : ℕ → Digraph → List ℕ × Digraph
get_adjs v g = (targets g v, add_node v g)

-- The two loops of `reverseGraph`: over the entries, and over the targets of one entry.
add_reversed : ℕ → List ℕ → Digraph → Digraph
add_reversed a [] out = out
add_reversed a (w ∷ ws) out = add_reversed a ws (add_edge w a out)

reverse_entries : Map (List ℕ) → Digraph → Digraph
unfolding add_reversed
reverse_entries [] out = out
reverse_entries ((a, ws) ∷ m) out = reverse_entries m (add_reversed a ws out)

unfoldable pub reverse_graph : Digraph → Digraph → Digraph
unfolding reverse_entries
reverse_graph g out = reverse_entries g.adj (set_num_nodes g.num_nodes out)

pub targets-add_node : (v u : ℕ) (g : Digraph) → targets (add_node v g) u ≡ targets g u
unfolding add_node
targets-add_node v u g = ground (arith, lookup-insert v u (targets g v) g.adj)

pub targets-add_edge :
    (v w u : ℕ) (g : Digraph)
    → targets (add_edge v w g) u ≡ (if v == u then targets g u ++ w ∷ [] else targets g u)
unfolding add_edge
targets-add_edge v w u g = ground (arith, lookup-insert v u (targets g v ++ w ∷ []) g.adj)

-- Every edge ends at a key.
abbrev pub IsClosed : Digraph → Type 0
IsClosed g = (u : ℕ) → elem u (keys g.adj) ≡ true → Sub (targets g u) (keys g.adj)

insert_self :
    (v : ℕ) (m : Map (List ℕ)) → elem v (keys m) ≡ true → insert v (lookup_or [] v m) m ≡ m
insert_self v [] h = cc
insert_self v ((j, ws) ∷ m) h = ground (arith, insert_self v m)

-- On a graph whose edges end at keys, reading the vector of an edge's end leaves the graph alone.
pub get_adjs-IsClosed :
    (g : Digraph) (u v : ℕ)
    → IsClosed g
    → elem u (keys g.adj) ≡ true
    → elem v (targets g u) ≡ true
    → (get_adjs v g).1 ≡ g
unfolding get_adjs add_node
get_adjs-IsClosed g u v closed m e =
    ap (λ a. record g { adj = a }) (insert_self v g.adj (closed u m v e))
