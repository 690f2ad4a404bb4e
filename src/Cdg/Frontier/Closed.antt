-- ===== src/Cdg/Frontier/Closed.antt =====
-- The frontier of a block in closed form, as the iterated frontier is defined.
use vari_ocl.Base.{
  ℕ, ◌≡◌, refl, true, false, [], arith, ◌||◌, ◌&&◌, not, elem, Bool, some, lookup_or, ◌∙◌,
}
use vari_ocl.Cdg.Frontier.{Tree, node, Forest, nil, cons, block, PostDom, calculate}
use vari_ocl.Cdg.Frontier.Correct.{
  IsDistinct, subtree, starts, in_frontier, in_frontier_children, inside,
}

module _ (dt : PostDom) where
  -- `p` starts in the set of some block of the tree.
  unfoldable mutual
    pub starts_in : ℕ → Tree → Bool
    starts_in p (node bb ts) = starts dt p bb || starts_in_forest p ts

    pub starts_in_forest : ℕ → Forest → Bool
    starts_in_forest p nil = false
    starts_in_forest p (cons t ts) = starts_in p t || starts_in_forest p ts

  -- What a child properly post-dominates, its parent does.
  unfoldable mutual
    pub Inherits : ℕ → Tree → Type 0
    Inherits p (node bb ts) = InheritsForest p bb ts

    pub InheritsForest : ℕ → ℕ → Forest → Type 0
    InheritsForest p bb nil = Unit
    InheritsForest p bb (cons t ts) =
        (dt.properly_dominates (block t) p ≡ true → dt.properly_dominates bb p ≡ true)
        × Inherits p t
        × InheritsForest p bb ts

  children_closed :
      (p bb : ℕ) (ts : Forest)
      → InheritsForest p bb ts
      → in_frontier_children dt p bb ts
        ≡ (starts_in_forest p ts && not (dt.properly_dominates bb p))
  unfolding in_frontier starts_in Inherits
  children_closed p bb nil h = refl
  children_closed p bb (cons (node b us) ts) h =
      ground (arith, children_closed p b us h.1, children_closed p bb ts h.2)

  in_frontier_closed :
      (p bb : ℕ) (ts : Forest)
      → Inherits p (node bb ts)
      → in_frontier dt p (node bb ts)
        ≡ (starts dt p bb || starts_in_forest p ts && not (dt.properly_dominates bb p))
  unfolding in_frontier Inherits
  in_frontier_closed p bb ts h = ground (arith, children_closed p bb ts h)

  -- On a tree with no block twice, run from no sets and with a root, the set of a block holds
  -- exactly the blocks that start at it, and those that start below it and that it does not
  -- properly post-dominate. A parent is taken to post-dominate what its child does.
  pub calculate_correct :
      (t : Tree) (n p : ℕ) (ts : Forest)
      → dt.no_roots ≡ false
      → IsDistinct t
      → subtree n t ≡ some (node n ts)
      → Inherits p (node n ts)
      → elem p (lookup_or [] n (calculate dt t []))
        ≡ (starts dt p n || starts_in_forest p ts && not (dt.properly_dominates n p))
  calculate_correct t n p ts rooted d e h =
      inside dt rooted p n t (node n ts) [] d (λ k m. refl) e ∙ in_frontier_closed p n ts h
