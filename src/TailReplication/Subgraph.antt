-- ===== src/TailReplication/Subgraph.antt =====
-- The subgraph is what walks without back edges reach.
use vari_ocl.Base.{
  ℕ, zero, suc, ◌≡◌, refl, ap, Bool, true, false, not, List, [], ◌∷◌, ◌++◌, foldl, arith, length,
  elem, keep, fun_ext, ◌∙◌, Bool-cases, inl, inr, ◌↔◌, ◌≤◌, elem-keep,
}
use vari_ocl.Base.Reach.{Reach, visit, visit_correct, unseen, unseen-nil, Sub}
use vari_ocl.TailReplication.{find_subgraph}

module _ (dominates : ℕ → ℕ → Bool) (succs : ℕ → List ℕ) where
  -- The successors along edges that are no back edges.
  abbrev pub forward : ℕ → List ℕ
  forward b = keep (λ s. not (dominates s b)) (succs b)

  foldl-keep :
      (g : List ℕ → ℕ → List ℕ) (b : ℕ) (ss s : List ℕ)
      → foldl (λ t x. elim (dominates x b) [ true ↦ t | false ↦ g t x ]) s ss
        ≡ foldl g s (keep (λ x. not (dominates x b)) ss)
  foldl-keep g b [] s = refl
  foldl-keep g b (x ∷ ss) s = elim (Bool-cases (dominates x b)) [
    | inl e ↦ rw e (foldl-keep g b ss s)
    | inr e ↦ rw e (foldl-keep g b ss (g s x))
  ]

  find_subgraph-eq-visit :
      (f : ℕ) (s : List ℕ) (b : ℕ) → find_subgraph dominates succs f s b ≡ visit forward f s b
  unfolding find_subgraph visit
  find_subgraph-eq-visit zero s b = refl
  find_subgraph-eq-visit (suc f) s b = elim (Bool-cases (elem b s)) [
    | inl e ↦ rw (e, visit, find_subgraph)
    | inr e ↦
        rw (e, visit, find_subgraph)
          (foldl-keep (find_subgraph dominates succs f) b (succs b) (s ++ b ∷ [])
            ∙ ap (λ g. foldl g (s ++ b ∷ []) (forward b))
                (fun_ext (λ t. fun_ext (λ x. find_subgraph-eq-visit f t x))))
  ]

  -- With fuel for the blocks, which the successors do not leave, the subgraph of an entry holds
  -- exactly the blocks that a walk from it reaches without taking a back edge.
  pub find_subgraph_correct :
      (blocks : List ℕ) (entry b f : ℕ)
      → ((u : ℕ) → elem u blocks ≡ true → Sub (succs u) blocks)
      → elem entry blocks ≡ true
      → length blocks ≤ f
      → (elem b (find_subgraph dominates succs f [] entry) ≡ true) ↔ ∥ Reach forward entry b ∥₁
  find_subgraph_correct blocks entry b f total m h = rw (find_subgraph-eq-visit f [] entry) (
      visit_correct forward blocks
        (λ u k x e. total u k x (ground (arith, elem-keep (λ s. not (dominates s u)) x (succs u))))
        f entry b bound m)
    where
      bound : unseen blocks [] ≤ f
      bound = omega (arith, unseen-nil blocks)
