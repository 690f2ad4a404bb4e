-- ===== src/Cdg/Digraph/Reverse.antt =====
-- What Digraph::reverseGraph of control_dependence.h leaves in its output graph.
use vari_ocl.Base.{
  IsDistinct, ℕ, ◌+◌, ◌≡◌, List, [], ◌∷◌, ◌++◌, arith, ◌==◌, ◌||◌, ◌&&◌, length, elem, Map,
  lookup_or, insert, keys, elem-append, length-append, elem-keys,
}
use vari_ocl.Cdg.Digraph.{
  Digraph, targets, set_num_nodes, add_edge, add_reversed, reverse_entries, reverse_graph,
  targets-add_edge,
}

elem-add_reversed :
    (a b w : ℕ) (ws : List ℕ) (out : Digraph)
    → elem b (targets (add_reversed a ws out) w) ≡ (elem b (targets out w) || b == a && elem w ws)
unfolding add_reversed
elem-add_reversed a b w [] out = ground arith
elem-add_reversed a b w (x ∷ ws) out = ground (
  arith,
  elem-add_reversed a b w ws (add_edge x a out),
  targets-add_edge x a w out,
  elem-append b (targets out w) (a ∷ []),
)

elem-reverse_entries :
    (m : Map (List ℕ)) (b w : ℕ) (out : Digraph)
    → IsDistinct (keys m)
    → elem b (targets (reverse_entries m out) w)
      ≡ (elem b (targets out w) || elem w (lookup_or [] b m))
unfolding reverse_entries
elem-reverse_entries [] b w out d = ground arith
elem-reverse_entries ((a, ws) ∷ m) b w out d = ground (
  arith,
  elem-reverse_entries m b w (add_reversed a ws out),
  elem-add_reversed a b w ws out,
  elem-keys b m,
)

-- Where no key is written twice, the output gains exactly the edges of the graph turned round.
pub elem-reverse_graph :
    (g out : Digraph) (b w : ℕ)
    → IsDistinct (keys g.adj)
    → elem b (targets (reverse_graph g out) w) ≡ (elem b (targets out w) || elem w (targets g b))
unfolding reverse_graph set_num_nodes
elem-reverse_graph g out b w d =
    elem-reverse_entries g.adj b w (record out { num_nodes = g.num_nodes }) d

-- The edges in the vectors.
abbrev pub total : Map (List ℕ) → ℕ
total [] = 0
total ((a, ws) ∷ m) = length ws + total m

total-insert :
    (v w : ℕ) (m : Map (List ℕ)) → total (insert v (lookup_or [] v m ++ w ∷ []) m) ≡ total m + 1
total-insert v w [] = omega arith
total-insert v w ((a, ws) ∷ m) = ground (arith, total-insert v w m, length-append ws (w ∷ []))

abbrev pub IsCounted : Digraph → Type 0
IsCounted g = g.num_edges ≡ total g.adj

-- Adding an edge keeps the count of edges right.
pub add_edge-IsCounted : (v w : ℕ) (g : Digraph) → IsCounted g → IsCounted (add_edge v w g)
unfolding add_edge
add_edge-IsCounted v w g h = omega (arith, total-insert v w g.adj)

add_reversed-IsCounted :
    (a : ℕ) (ws : List ℕ) (out : Digraph) → IsCounted out → IsCounted (add_reversed a ws out)
unfolding add_reversed
add_reversed-IsCounted a [] out h = h
add_reversed-IsCounted a (w ∷ ws) out h =
    add_reversed-IsCounted a ws (add_edge w a out) (add_edge-IsCounted w a out h)

num_edges-add_reversed :
    (a : ℕ) (ws : List ℕ) (out : Digraph)
    → (add_reversed a ws out).num_edges ≡ out.num_edges + length ws
unfolding add_reversed add_edge
num_edges-add_reversed a [] out = omega arith
num_edges-add_reversed a (w ∷ ws) out =
    omega (arith, num_edges-add_reversed a ws (add_edge w a out))

num_edges-reverse_entries :
    (m : Map (List ℕ)) (out : Digraph) → (reverse_entries m out).num_edges ≡ out.num_edges + total m
unfolding reverse_entries
num_edges-reverse_entries [] out = omega arith
num_edges-reverse_entries ((a, ws) ∷ m) out =
    omega
      (arith, num_edges-reverse_entries m (add_reversed a ws out), num_edges-add_reversed a ws out)

-- Reversing a graph whose edge counter is right adds that many edges to the output's counter.
num_edges-reverse_graph :
    (g out : Digraph) → IsCounted g → (reverse_graph g out).num_edges ≡ out.num_edges + g.num_edges
unfolding reverse_graph set_num_nodes
num_edges-reverse_graph g out h =
    omega (arith, num_edges-reverse_entries g.adj (record out { num_nodes = g.num_nodes }))
