-- ===== src/Cdg/Frontier/Correct.antt =====
-- What `calculate` leaves in `Frontiers`, against a definition on the tree alone.
use vari_ocl.Base.{
  ℕ, ◌≡◌, refl, true, false, List, [], ◌∷◌, arith, ◌==◌, ◌||◌, ◌&&◌, not, if◌then◌else◌, elem, Map,
  Bool, Option, none, some, lookup_or, insert, lookup-insert, elem-append, Bool-cases, inl, inr,
  ==_iff, subst,
}
use vari_ocl.Cdg.Frontier.{
  Tree, node, Forest, nil, cons, block, set_insert, PostDom, is_local, insert_local, insert_child,
  own_set, calculate, calculate_children,
}

-- The blocks of a tree, and the subtree at a block.
unfoldable mutual
  pub has : ℕ → Tree → Bool
  has n (node bb ts) = n == bb || has_forest n ts

  pub has_forest : ℕ → Forest → Bool
  has_forest n nil = false
  has_forest n (cons t ts) = has n t || has_forest n ts

unfoldable mutual
  pub subtree : ℕ → Tree → Option Tree
  subtree n (node bb ts) = if bb == n then some (node bb ts) else subtree_forest n ts

  pub subtree_forest : ℕ → Forest → Option Tree
  subtree_forest n nil = none
  subtree_forest n (cons t ts) = if has n t then subtree n t else subtree_forest n ts

-- No block stands twice.
unfoldable mutual
  pub IsDistinct : Tree → Type 0
  IsDistinct (node bb ts) = (has_forest bb ts ≡ false) × IsDistinctForest ts

  pub IsDistinctForest : Forest → Type 0
  IsDistinctForest nil = Unit
  IsDistinctForest (cons t ts) =
      IsDistinct t × IsDistinctForest ts × ((n : ℕ) → has n t ≡ true → has_forest n ts ≡ false)

elem-set_insert : (q p : ℕ) (s : List ℕ) → elem q (set_insert p s) ≡ (elem q s || q == p)
elem-set_insert q p s = ground (arith, elem-append q s (p ∷ []), ==_iff q p)

module _ (dt : PostDom) where
  -- `p` is put into the set of `bb` by the loop over the predecessors.
  unfoldable pub starts : ℕ → ℕ → Bool
  unfolding is_local
  starts p bb = not (bb == 0) && (elem p (dt.preds bb) && is_local dt bb p)

  unfoldable mutual
    -- `p` is put into the set of a tree's root.
    pub in_frontier : ℕ → Tree → Bool
    in_frontier p (node bb ts) = starts p bb || in_frontier_children p bb ts

    pub in_frontier_children : ℕ → ℕ → Forest → Bool
    in_frontier_children p bb nil = false
    in_frontier_children p bb (cons t ts) =
        in_frontier p t && not (dt.properly_dominates bb p) || in_frontier_children p bb ts

  elem-insert_local :
      (q bb : ℕ) (ps s : List ℕ)
      → elem q (insert_local dt bb ps s) ≡ (elem q s || elem q ps && is_local dt bb q)
  unfolding insert_local
  elem-insert_local q bb [] s = ground arith
  elem-insert_local q bb (p ∷ ps) s = elim (Bool-cases (q == p)) [
    | inl e ↦ rw ((==_iff q p).0 e) (
        ground (
          arith,
          elem-insert_local p bb ps (if is_local dt bb p then set_insert p s else s),
          elem-set_insert p p s,
        ))
    | inr e ↦ ground (
      arith,
      elem-insert_local q bb ps (if is_local dt bb p then set_insert p s else s),
      elem-set_insert q p s,
    )
  ]

  elem-insert_child :
      (q bb : ℕ) (ps s : List ℕ)
      → elem q (insert_child dt bb ps s)
        ≡ (elem q s || elem q ps && not (dt.properly_dominates bb q))
  unfolding insert_child
  elem-insert_child q bb [] s = ground arith
  elem-insert_child q bb (p ∷ ps) s = elim (Bool-cases (q == p)) [
    | inl e ↦ rw ((==_iff q p).0 e) (
        ground (
          arith,
          elem-insert_child p bb ps (if dt.properly_dominates bb p then s else set_insert p s),
          elem-set_insert p p s,
        ))
    | inr e ↦ ground (
      arith,
      elem-insert_child q bb ps (if dt.properly_dominates bb p then s else set_insert p s),
      elem-set_insert q p s,
    )
  ]

  elem-own_set : (q bb : ℕ) (s : List ℕ) → elem q (own_set dt bb s) ≡ (elem q s || starts q bb)
  unfolding own_set starts
  elem-own_set q bb s = ground (arith, elem-insert_local q bb (dt.preds bb) s)

  mutual
    unfolding calculate has

    -- A block outside the tree keeps its set.
    frame :
        (n : ℕ) (t : Tree) (fr : Map (List ℕ))
        → has n t ≡ false
        → lookup_or [] n (calculate dt t fr) ≡ lookup_or [] n fr
    frame n (node bb ts) fr h =
        let s = lookup_or [] bb fr in
        ground (
          arith,
          frame_children n bb ts (insert bb (own_set dt bb s) fr),
          lookup-insert bb n (own_set dt bb s) fr,
          lookup-insert bb n s fr,
        )

    frame_children :
        (n bb : ℕ) (ts : Forest) (fr : Map (List ℕ))
        → (n == bb) ≡ false
        → has_forest n ts ≡ false
        → lookup_or [] n (calculate_children dt bb ts fr) ≡ lookup_or [] n fr
    frame_children n bb nil fr h e = refl
    frame_children n bb (cons t ts) fr h e =
        let fr' = calculate dt t fr in
        let s = insert_child dt bb (lookup_or [] (block t) fr') (lookup_or [] bb fr') in
        ground
          (arith, frame n t fr, lookup-insert bb n s fr', frame_children n bb ts (insert bb s fr'))

  abbrev IsEmpty : Map (List ℕ) → ℕ → Type 0
  IsEmpty fr n = lookup_or [] n fr ≡ []

  apart :
      (n bb : ℕ) (ts : Forest)
      → has_forest bb ts ≡ false
      → has_forest n ts ≡ true
      → (n == bb) ≡ false
  apart n bb ts h m = elim (Bool-cases (n == bb)) [
    | inl at ↦
        let m' : has_forest bb ts ≡ true =
          subst (λ k. has_forest k ts ≡ true) ((==_iff n bb).0 at) m in
        cc
    | inr away ↦ away
  ]

  kept :
      (bb : ℕ) (ts : Forest) (fr : Map (List ℕ)) (s : List ℕ)
      → has_forest bb ts ≡ false
      → ((n : ℕ) → has n (node bb ts) ≡ true → IsEmpty fr n)
      → (n : ℕ) → has_forest n ts ≡ true
      → IsEmpty (insert bb s fr) n
  unfolding has
  kept bb ts fr s h e n m =
      ground (arith, apart n bb ts h m, lookup-insert bb n s fr, e n (ground arith))

  later :
      (bb : ℕ) (t : Tree) (ts : Forest) (fr : Map (List ℕ)) (s : List ℕ)
      → has_forest bb (cons t ts) ≡ false
      → ((n : ℕ) → has n t ≡ true → has_forest n ts ≡ false)
      → ((n : ℕ) → has_forest n (cons t ts) ≡ true → IsEmpty fr n)
      → (n : ℕ) → has_forest n ts ≡ true
      → IsEmpty (insert bb s (calculate dt t fr)) n
  unfolding has
  later bb t ts fr s h d e n m = ground (
    arith,
    apart n bb ts (ground arith) m,
    d n,
    lookup-insert bb n s (calculate dt t fr),
    frame n t fr,
    e n (ground arith),
  )

  module _ (rooted : dt.no_roots ≡ false) where
    mutual
      unfolding calculate has in_frontier IsDistinct

      at_root :
          (q : ℕ) (t : Tree) (fr : Map (List ℕ))
          → IsDistinct t
          → ((n : ℕ) → has n t ≡ true → IsEmpty fr n)
          → elem q (lookup_or [] (block t) (calculate dt t fr)) ≡ in_frontier q t
      at_root q (node bb ts) fr d e =
          let fr' = insert bb (own_set dt bb (lookup_or [] bb fr)) fr in
          ground (
            arith,
            rooted,
            e bb (ground arith),
            elem-own_set q bb (lookup_or [] bb fr),
            lookup-insert bb bb (own_set dt bb (lookup_or [] bb fr)) fr,
            at_children q bb ts fr' d.0 d.1
                (kept bb ts fr (own_set dt bb (lookup_or [] bb fr)) d.0 e),
          )

      at_children :
          (q bb : ℕ) (ts : Forest) (fr : Map (List ℕ))
          → has_forest bb ts ≡ false
          → IsDistinctForest ts
          → ((n : ℕ) → has_forest n ts ≡ true → IsEmpty fr n)
          → elem q (lookup_or [] bb (calculate_children dt bb ts fr))
            ≡ (elem q (lookup_or [] bb fr) || in_frontier_children q bb ts)
      at_children q bb nil fr h d e = ground arith
      at_children q bb (cons t ts) fr h d e =
          let fr' = calculate dt t fr in
          let s = insert_child dt bb (lookup_or [] (block t) fr') (lookup_or [] bb fr') in
          ground (
            arith,
            frame bb t fr,
            at_root q t fr d.0 (λ n m. e n (ground arith)),
            elem-insert_child q bb (lookup_or [] (block t) fr') (lookup_or [] bb fr'),
            lookup-insert bb bb s fr',
            at_children q bb ts (insert bb s fr') (ground arith) d.1 (later bb t ts fr s h d.2 e),
          )

    mutual
      unfolding calculate has subtree IsDistinct

      pub inside :
          (q n : ℕ) (t s : Tree) (fr : Map (List ℕ))
          → IsDistinct t
          → ((k : ℕ) → has k t ≡ true → IsEmpty fr k)
          → subtree n t ≡ some s
          → elem q (lookup_or [] n (calculate dt t fr)) ≡ in_frontier q s
      inside q n (node bb ts) s fr d e h = elim (Bool-cases (bb == n)) [
        | inl at ↦ ground (arith, ==_iff bb n, at_root q (node bb ts) fr d e)
        | inr away ↦ ground (
          arith,
          rooted,
          inside_children q n bb ts s (insert bb (own_set dt bb (lookup_or [] bb fr)) fr) d.0 d.1
              (kept bb ts fr (own_set dt bb (lookup_or [] bb fr)) d.0 e) (ground arith)
              (ground arith),
        )
      ]

      inside_children :
          (q n bb : ℕ) (ts : Forest) (s : Tree) (fr : Map (List ℕ))
          → has_forest bb ts ≡ false
          → IsDistinctForest ts
          → ((k : ℕ) → has_forest k ts ≡ true → IsEmpty fr k)
          → (n == bb) ≡ false
          → subtree_forest n ts ≡ some s
          → elem q (lookup_or [] n (calculate_children dt bb ts fr)) ≡ in_frontier q s
      inside_children q n bb nil s fr h d e away m = cc
      inside_children q n bb (cons t ts) s fr h d e away m =
          let fr' = calculate dt t fr in
          let u = insert_child dt bb (lookup_or [] (block t) fr') (lookup_or [] bb fr') in
          elim (Bool-cases (has n t)) [
            | inl at ↦ ground (
              arith,
              inside q n t s fr d.0 (λ k k'. e k (ground arith)) (ground arith),
              lookup-insert bb n u fr',
              d.2 n,
              frame_children n bb ts (insert bb u fr'),
            )
            | inr not_at ↦
                inside_children q n bb ts s (insert bb u fr') (ground arith) d.1
                  (later bb t ts fr u h d.2 e) away (ground arith)
          ]
