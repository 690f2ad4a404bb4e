-- ===== src/Cdg/Dfs.antt =====
-- classes DirectedDFS and TransitiveClosure of control_dependence.h. `Marked` is the list of the
-- blocks whose flag is set, in the order of marking. `dfs` recurs once for each block that it
-- marks, so fuel for every key of the graph is enough. The reads of `adj` insert no key on a
-- graph whose edges end at keys (`get_adjs-IsClosed`), so the graph is not threaded.
use vari_ocl.Base.{
  ℕ, zero, suc, ◌≡◌, refl, ap, Bool, true, false, List, [], ◌∷◌, ◌++◌, foldl, none, some, arith,
  length, elem, Map, lookup, insert, keys, fun_ext, ◌↔◌, ◌≤◌, lookup-insert, Bool-cases, inl, inr,
  if◌then◌else◌,
}
use vari_ocl.Base.Reach.{Reach, visit, visit_correct, unseen-nil, unseen}
use vari_ocl.Cdg.Digraph.{Digraph, targets, IsClosed}

unfoldable pub dfs : Digraph → ℕ → List ℕ → ℕ → List ℕ
dfs g zero marked v = marked
dfs g (suc f) marked v =
    foldl (λ m x. elim (elem x m) [ true ↦ m | false ↦ dfs g f m x ]) (marked ++ v ∷ [])
      (targets g v)

unfoldable pub fuel : Digraph → ℕ
fuel g = length (keys g.adj)

-- DirectedDFS(G, s) and DirectedDFS(G, S): the marks that the constructor leaves.
unfoldable pub directed_dfs : Digraph → ℕ → List ℕ
unfolding fuel
directed_dfs g s = dfs g (fuel g) [] s

unfoldable pub directed_dfs_all : Digraph → List ℕ → List ℕ
unfolding fuel
directed_dfs_all g = foldl (λ m x. elim (elem x m) [ true ↦ m | false ↦ dfs g (fuel g) m x ]) []

unfoldable pub marked : List ℕ → ℕ → Bool
marked m v = elem v m

-- The loop of `computeTC` over the keys of the graph; `all` is the map that it fills.
compute_from : Digraph → List ℕ → Map (List ℕ) → Map (List ℕ)
unfolding directed_dfs
compute_from g [] all = all
compute_from g (a ∷ ks) all = compute_from g ks (insert a (directed_dfs g a) all)

unfoldable pub compute_tc : Digraph → Map (List ℕ) → Map (List ℕ)
unfolding compute_from
compute_tc g = compute_from g (keys g.adj)

unfoldable pub reachable : Map (List ℕ) → ℕ → ℕ → Bool
unfolding marked
reachable all v w = elim (lookup v all) [ none ↦ false | some m ↦ marked m w ]

-- The test that the callers of `dfs` make is the one that `visit` makes.
guarded-eq-visit :
    (g : Digraph) (f : ℕ) (m : List ℕ) (x : ℕ)
    → (elim (elem x m) [ true ↦ m | false ↦ dfs g f m x ]) ≡ visit (targets g) f m x
unfolding dfs visit
guarded-eq-visit g zero m x = ground arith
guarded-eq-visit g (suc f) m x = elim (Bool-cases (elem x m)) [
  | inl e ↦ rw (e, visit)
  | inr e ↦
      rw (e, visit)
        (ap (λ h. foldl h (m ++ x ∷ []) (targets g x))
          (fun_ext (λ s. fun_ext (λ y. guarded-eq-visit g f s y))))
]

dfs-eq-visit :
    (g : Digraph) (f : ℕ) (m : List ℕ) (v : ℕ)
    → elem v m ≡ false
    → dfs g f m v ≡ visit (targets g) f m v
dfs-eq-visit g f m v h = rw h at (guarded-eq-visit g f m v)

-- On a graph whose edges end at keys, a search from a key marks exactly the blocks at the ends of
-- walks from it.
pub directed_dfs_correct :
    (g : Digraph) (s w : ℕ)
    → IsClosed g
    → elem s (keys g.adj) ≡ true
    → (elem w (directed_dfs g s) ≡ true) ↔ ∥ Reach (targets g) s w ∥₁
unfolding directed_dfs
directed_dfs_correct g s w closed m =
    rw (dfs-eq-visit g (fuel g) [] s refl)
      (visit_correct (targets g) (keys g.adj) closed (fuel g) s w bound m)
  where
    bound : unseen (keys g.adj) [] ≤ fuel g
    bound = omega (arith, unseen-nil (keys g.adj))

lookup-compute_from :
    (g : Digraph) (ks : List ℕ) (all : Map (List ℕ)) (v : ℕ)
    → lookup v (compute_from g ks all)
      ≡ (if elem v ks then some (directed_dfs g v) else lookup v all)
unfolding compute_from
lookup-compute_from g [] all v = refl
lookup-compute_from g (a ∷ ks) all v = ground (
  arith,
  lookup-compute_from g ks (insert a (directed_dfs g a) all) v,
  lookup-insert a v (directed_dfs g a) all,
)

reachable-eq :
    (g : Digraph) (v w : ℕ)
    → reachable (compute_tc g []) v w
      ≡ (if elem v (keys g.adj) then elem w (directed_dfs g v) else false)
unfolding reachable compute_tc
reachable-eq g v w = ground (arith, lookup-compute_from g (keys g.adj) [] v)

-- On a graph whose edges end at keys, the closure answers true exactly at a key of the graph and
-- the end of a walk from it.
pub reachable-compute_tc :
    (g : Digraph) (v w : ℕ)
    → IsClosed g
    → (reachable (compute_tc g []) v w ≡ true)
      ↔ ((elem v (keys g.adj) ≡ true) × ∥ Reach (targets g) v w ∥₁)
reachable-compute_tc g v w closed = elim (Bool-cases (elem v (keys g.adj))) [
  | inl m ↦
      let c = directed_dfs_correct g v w closed m in
      rw (reachable-eq g v w, m) ((λ e. (refl, c.0 e)), (λ p. c.1 p.1))
  | inr m ↦ rw (reachable-eq g v w, m) ((λ e. cc), (λ p. cc))
]
