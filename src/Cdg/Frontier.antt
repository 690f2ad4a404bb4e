-- ===== src/Cdg/Frontier.antt =====
-- ControlDep::calculate of control_dependence.cpp: the post-dominance frontiers, by recursion over
-- the post-dominator tree. A block is a number and 0 is the null pointer, the block of a virtual
-- root. The predecessors and the post-dominator tree's queries are LLVM's, parameters here.
pub mod Correct
pub mod Closed
use vari_ocl.Base.{
  ℕ, ◌≡◌, refl, true, false, List, [], ◌∷◌, ◌++◌, arith, ◌==◌, ◌||◌, ◌&&◌, not, if◌then◌else◌, elem,
  Map, Bool, Option, none, some, lookup, lookup_or, insert, keys, lookup-insert, elem-append,
}

-- DomTreeNode: its block and its children.
mutual
  pub data Tree : Type 0 where
    node : ℕ → Forest → Tree

  pub data Forest : Type 0 where
    nil : Forest
    cons : Tree → Forest → Forest

abbrev pub block : Tree → ℕ
block (node bb ts) = bb

-- DomSetType::insert.
abbrev pub set_insert : ℕ → List ℕ → List ℕ
set_insert p s = if elem p s then s else s ++ p ∷ []

pub record PostDom : Type 0 where
  -- pred_begin(BB) .. pred_end(BB)
  pub preds : ℕ → List ℕ
  -- whether DT[P] is a node, and the block of its immediate post-dominator
  pub has_node : ℕ → Bool
  pub idom : ℕ → Option ℕ
  pub properly_dominates : ℕ → ℕ → Bool
  -- getRoots().empty()
  pub no_roots : Bool

abbrev pub is_idom : Option ℕ → ℕ → Bool
is_idom none bb = false
is_idom (some d) bb = d == bb

module _ (dt : PostDom) where
  -- `SINode && SINode->getIDom() != Node`
  unfoldable pub is_local : ℕ → ℕ → Bool
  is_local bb p = dt.has_node p && not (is_idom (dt.idom p) bb)

  -- The loop over the predecessors.
  unfoldable pub insert_local : ℕ → List ℕ → List ℕ → List ℕ
  insert_local bb [] s = s
  insert_local bb (p ∷ ps) s = insert_local bb ps (if is_local bb p then set_insert p s else s)

  -- The loop over the frontier of one child.
  unfoldable pub insert_child : ℕ → List ℕ → List ℕ → List ℕ
  insert_child bb [] s = s
  insert_child bb (p ∷ ps) s =
      insert_child bb ps (if dt.properly_dominates bb p then s else set_insert p s)

  unfoldable pub own_set : ℕ → List ℕ → List ℕ
  unfolding is_local insert_local
  own_set bb s = if bb == 0 then s else insert_local bb (dt.preds bb) s

  unfoldable mutual
    pub calculate : Tree → Map (List ℕ) → Map (List ℕ)
    calculate (node bb ts) fr =
        let s = lookup_or [] bb fr in
        let deep = calculate_children bb ts (insert bb (own_set bb s) fr) in
        if dt.no_roots then insert bb s fr else deep

    pub calculate_children : ℕ → Forest → Map (List ℕ) → Map (List ℕ)
    calculate_children bb nil fr = fr
    calculate_children bb (cons t ts) fr =
        let fr' = calculate t fr in
        let s = insert_child bb (lookup_or [] (block t) fr') (lookup_or [] bb fr') in
        calculate_children bb ts (insert bb s fr')
