-- ===== src/TailReplication/Replicate/Whole.antt =====
-- ReplicateBasicBlocks and UpdateReferences (BarrierTailReplication.cpp) make copies that behave as
-- what they copy.
use vari_ocl.Base.{
  ℕ, suc, ◌+◌, ◌≡◌, refl, sym, ap, subst, ◌∙◌, Bool, true, false, List, [], ◌∷◌, map, some, length,
  elem, ◌==◌, ==_iff, all, arith, Bool-cases, Option-cases, inl, inr, ◌⊎◌, Map, lookup_or, insert,
  lookup-insert,
}
use vari_ocl.TailReplication.Replicate.{
  Block, Function, Inst, at, succs_of, change, Refs, ref_block, clone_block, clone_insts,
  note_block, join_outside, add_incoming, Copying, replicate_block, replicate_at,
  replicate_basic_blocks, remap, remap_inst, update_references, replicate_subgraph,
}
use vari_ocl.TailReplication.{find_subgraph}
use vari_ocl.TailReplication.Replicate.Covers.{
  Covers, Extends, Extends-refl, Extends-trans, change-Covers, copy-Covers, barriers,
}
use vari_ocl.TailReplication.Replicate.Lookup.{is_in, at-id, is_in-at}

-- Each reference leads to a block that copies the same block.
IsFaithfulAt : {f g : Function} → Covers f g → ℕ → ℕ → Type 0
IsFaithfulAt {f} {g} v r y =
    (r ≡ y) ⊎ ((is_in g.blocks y ≡ true) × (is_in g.blocks r ≡ true) × (v.origin r ≡ v.origin y))

IsFaithful : {f g : Function} → Covers f g → Refs → Type 0
unfolding IsFaithfulAt
IsFaithful v m = (y : ℕ) → IsFaithfulAt v (ref_block m y) y

IsFaithful-Extends :
    {f g h : Function} {v : Covers f g} {w : Covers f h} (m : Refs)
    → Extends v w
    → IsFaithful v m
    → IsFaithful w m
unfolding IsFaithful IsFaithfulAt
IsFaithful-Extends m e k y = elim (k y) [
  | inl q ↦ inl q
  | inr (a, b, c) ↦ inr (e.grows y a, e.grows _ b, e.agrees _ b ∙ c ∙ sym (e.agrees y a))
]

clone-barriers : (n : ℕ) (is : List Inst) → barriers (clone_insts n is) ≡ barriers is
clone-barriers n [] = refl
clone-barriers n (i ∷ is) = rw (clone-barriers (suc n) is) refl

remap-barriers : (m : Refs) (is : List Inst) → barriers (map (remap_inst m) is) ≡ barriers is
remap-barriers m [] = refl
remap-barriers m (i ∷ is) = rw (remap-barriers m is) refl

-- From a function that `v` says covers `f`, a function that covers it too.
abbrev pub Step : {f g : Function} → Covers f g → Function → Type 0
Step {f} v h = (w : Covers f h) × Extends v w

join_outside-Covers :
    {f : Function} (m : Refs) (graph : List ℕ) (b n : ℕ) (ss : List ℕ) (k : ℕ) (bs : List Block)
    (v : Covers f (record { blocks = bs; fresh = k }))
    → Step v (record { blocks = join_outside m graph b n ss bs; fresh = k })
join_outside-Covers m graph b n [] k bs v = (v, Extends-refl v)
join_outside-Covers m graph b n (s ∷ ss) k bs v = elim (Bool-cases (elem s graph)) [
  | inl e ↦ rw e (join_outside-Covers m graph b n ss k bs v)
  | inr e ↦ rw e (
      let (w, p) =
        change-Covers v (λ c. record c { phis = add_incoming m b n c.phis }) s (λ c. refl)
          (λ c. refl) (λ c q. refl) (λ c q. v.closed s c q) in
      let (u, r) =
        join_outside-Covers m graph b n ss k
          (change (λ c. record c { phis = add_incoming m b n c.phis }) s bs) w in
      (u, Extends-trans p r))
]

lookup_or-hit : (k y n : ℕ) (m : Map ℕ) → (k == y) ≡ true → lookup_or y y (insert k n m) ≡ n
lookup_or-hit k y n m e = rw (lookup_or, lookup-insert k y n m, e) refl

lookup_or-miss :
    (k y n : ℕ) (m : Map ℕ) → (k == y) ≡ false → lookup_or y y (insert k n m) ≡ lookup_or y y m
lookup_or-miss k y n m e = rw (lookup_or, lookup-insert k y n m, e) refl

note-IsFaithful :
    {f g : Function} (v : Covers f g) (m : Refs) (c : Block) (n : ℕ)
    → IsFaithful v m
    → is_in g.blocks c.id ≡ true
    → is_in g.blocks n ≡ true
    → v.origin n ≡ v.origin c.id
    → IsFaithful v (note_block n c m)
unfolding IsFaithful IsFaithfulAt
note-IsFaithful {g = g} v m c n k a b o y = elim (Bool-cases (c.id == y)) [
  | inl e ↦
      subst (λ r. IsFaithfulAt v r y) (sym (lookup_or-hit c.id y n m.to_block e))
        (subst (λ z. IsFaithfulAt v n z) ((==_iff c.id y).0 e) (inr (a, b, o)))
  | inr e ↦ subst (λ r. IsFaithfulAt v r y) (sym (lookup_or-miss c.id y n m.to_block e)) (k y)
]

replicate_block-Covers :
    {f : Function} (graph : List ℕ) (x : ℕ) (c : Block) (s : Copying) (v : Covers f s.function)
    → at x s.function.blocks ≡ some c
    → IsFaithful v s.refs
    → (w : Covers f (replicate_block graph c s).function) × Extends v w
      × IsFaithful w (replicate_block graph c s).refs
unfolding IsFaithful
replicate_block-Covers graph x c s v e k =
    let (w, p, here, same) =
      copy-Covers v x (suc s.function.fresh + length c.phis + length c.insts) c
        (clone_block s.function.fresh c) e refl refl (clone-barriers _ c.insts) (omega arith) in
    let (u, q) =
      join_outside-Covers (note_block s.function.fresh c s.refs) graph c.id s.function.fresh c.succs
        _ _ w in
    (
      u,
      Extends-trans p q,
      IsFaithful-Extends (note_block s.function.fresh c s.refs) q (
          note-IsFaithful w s.refs c s.function.fresh (IsFaithful-Extends s.refs p k)
            (p.grows c.id (
              is_in-at c.id s.function.blocks c
                (subst (λ z. at z s.function.blocks ≡ some c) (sym at_c) e)))
            here
            (same ∙ sym (p.agrees x (is_in-at x s.function.blocks c e)) ∙ ap w.origin (sym at_c))),
    )
  where
    at_c : c.id ≡ x
    at_c = at-id x s.function.blocks c e

-- The copying has come to `t`.
abbrev Reaches : {f g : Function} → Covers f g → Copying → Type 0
unfolding IsFaithful
Reaches {f} v t = (w : Covers f t.function) × Extends v w × IsFaithful w t.refs

replicate_basic_blocks-Covers :
    {f : Function} (graph bs : List ℕ) (s : Copying) (v : Covers f s.function)
    → IsFaithful v s.refs
    → Reaches v (replicate_basic_blocks graph bs s)
unfolding replicate_basic_blocks Reaches
replicate_basic_blocks-Covers graph [] s v k = (v, Extends-refl v, k)
replicate_basic_blocks-Covers graph (b ∷ bs) s v k = elim (Option-cases (at b s.function.blocks)) [
  | inl e ↦
      subst (λ o. Reaches v (replicate_basic_blocks graph bs (replicate_at graph o s))) (sym e)
        (replicate_basic_blocks-Covers graph bs s v k)
  | inr (c, e) ↦
      let (w, p, l) = replicate_block-Covers graph b c s v e k in
      let (u, q, r) = replicate_basic_blocks-Covers graph bs (replicate_block graph c s) w l in
      subst (λ o. Reaches v (replicate_basic_blocks graph bs (replicate_at graph o s))) (sym e)
        (u, Extends-trans p q, r)
]

module _ {f : Function} (m : Refs) where
  remap-same :
      {g : Function} (v : Covers f g) (ss : List ℕ)
      → IsFaithful v m
      → map v.origin (map (ref_block m) ss) ≡ map v.origin ss
  unfolding IsFaithful IsFaithfulAt
  remap-same v [] k = refl
  remap-same v (y ∷ ss) k = elim (k y) [
    | inl q ↦ rw (q, remap-same v ss k) refl
    | inr (a, b, c) ↦ rw (c, remap-same v ss k) refl
  ]

  remap-inside :
      {g : Function} (v : Covers f g) (ss : List ℕ)
      → IsFaithful v m
      → all (is_in g.blocks) ss ≡ true
      → all (is_in g.blocks) (map (ref_block m) ss) ≡ true
  unfolding IsFaithful IsFaithfulAt
  remap-inside v [] k h = refl
  remap-inside {g} v (y ∷ ss) k h = elim (k y) [
    | inl q ↦ rw q (ground (arith, remap-inside v ss k))
    | inr (a, b, c) ↦ ground (arith, remap-inside v ss k)
  ]

  update_references-Covers :
      (xs : List ℕ) (k : ℕ) (bs : List Block) (v : Covers f (record { blocks = bs; fresh = k }))
      → IsFaithful v m
      → Step v (record { blocks = update_references m xs bs; fresh = k })
  unfolding update_references
  update_references-Covers [] k bs v h = (v, Extends-refl v)
  update_references-Covers (x ∷ xs) k bs v h =
      let (w, p) =
        change-Covers v (remap m) x (λ c. refl) (λ c. remap-barriers m c.insts)
          (λ c e. remap-same v c.succs h) (λ c e. remap-inside v c.succs h (v.closed x c e)) in
      let (u, q) =
        update_references-Covers xs k (change (remap m) x bs) w (IsFaithful-Extends m p h) in
      (u, Extends-trans p q)

-- What `ReplicateSubgraph` returns: the function with the copy, and a block of it that copies `b`.
pub replicate_subgraph-Covers :
    {f g : Function} (dominates : Function → ℕ → ℕ → Bool) (b : ℕ) (v : Covers f g)
    → is_in g.blocks b ≡ true
    → (w : Covers f (replicate_subgraph dominates g b).0) × Extends v w
      × (is_in (replicate_subgraph dominates g b).0.blocks (replicate_subgraph dominates g b).1
          ≡ true)
      × (w.origin (replicate_subgraph dominates g b).1 ≡ w.origin b)
unfolding replicate_subgraph Reaches
replicate_subgraph-Covers {f} {g} dominates b v h =
    let (w, p, l) = replicate_basic_blocks-Covers graph graph start v (λ y. inl refl) in
    let (u, q) =
      update_references-Covers s.refs s.new_graph s.function.fresh s.function.blocks w l in
    let (i, o) = leads u b (q.grows b (p.grows b h)) (IsFaithful-Extends s.refs q l b) in
    (u, Extends-trans p q, i, o)
  where
    graph : List ℕ
    graph = find_subgraph (dominates g) (succs_of g) (length g.blocks) [] b

    start : Copying
    start = record { function = g; refs = record { to_block = []; to_value = [] }; new_graph = [] }

    s : Copying
    s = replicate_basic_blocks graph graph start

    leads :
        {k : Function} (u : Covers f k) {r : ℕ} (y : ℕ)
        → is_in k.blocks y ≡ true
        → IsFaithfulAt u r y
        → (is_in k.blocks r ≡ true) × (u.origin r ≡ u.origin y)
    leads {k} u y m d = elim d [
      | inl q ↦ (subst (λ z. is_in k.blocks z ≡ true) (sym q) m, ap u.origin q)
      | inr (a, c, e) ↦ (c, e)
    ]
