-- ===== src/Triplet/Plain/Handlers.antt =====
-- Each handler of getOrCalculateTriplet (triplet_invariance_analysis.cpp), on functions without
-- allocas and without calls that have no argument, says what the value's operands make of it.
use Prim.Native.String.{String}
use vari_ocl.Base.{
  subst, ℕ, suc, ◌<◌, ◌≡◌, refl, ap, sym, ◌∙◌, Bool, true, false, List, [], ◌∷◌, Option, none, some,
  if◌then◌else◌, ◌==◌, ==_iff, map, arith, Bool-cases, inl, inr,
}
use vari_ocl.Triplet.{
  Triplet, all_invariant, Node, basic_block, argument_or_constant, alloca, load, store, branch,
  return, phi, call, get_element_ptr, other_instruction, other_value, unite, Tia, Outcome, and_then,
  set_triplet_to_value, paint_grey, is_pending, record_triplet, unite_all, triplets_of,
  through_operand, id_triplet, call_triplet, gep_triplet, calculate_node,
}
use vari_ocl.Triplet.Plain.{
  is_group_query, is_id_query, id_of, node_triplet, are_below, is_plain, triplet_of,
}
use vari_ocl.Triplet.Plain.Memo.{
  Gives, Gives-and_then, IsSound, IsClear, Fewer, Said, stored-IsSound, stored-Fewer, stored-done,
  painted-other,
}

module _ (node : ℕ → Node) (constant : ℕ → Option ℕ) (rank : ℕ → ℕ) where
  module _ (rec : Tia → ℕ → Outcome Triplet) (v : ℕ)
      (ih : (s : Tia) (u : ℕ)
        → rank u < rank v
        → IsSound node constant rank s
        → IsClear node constant rank (suc (rank u)) s
        → Gives (Said node constant rank s (triplet_of node constant rank u)) (rec s u)) where
    -- From a state in which no value below `v` is on the way.
    ask :
        (s : Tia) (u : ℕ)
        → rank u < rank v
        → IsSound node constant rank s
        → IsClear node constant rank (rank v) s
        → Gives (Said node constant rank s (triplet_of node constant rank u)) (rec s u)
    ask s u l h c = ih s u l h (λ w k. c w (omega (arith, l, k)))

    abbrev pub Saids : Tia → List Triplet → Tia → List Triplet → Type 0
    Saids s ts s1 us = (us ≡ ts) × IsSound node constant rank s1 × Fewer node constant rank s s1

    ask_all :
        (s : Tia) (us : List ℕ)
        → are_below rank (rank v) us ≡ true
        → IsSound node constant rank s
        → IsClear node constant rank (rank v) s
        → Gives
            (Saids s (map (triplet_of node constant rank) us))
            (triplets_of rec node constant s us)
    ask_all s [] l h c = (refl, h, λ w k. k)
    ask_all s (u ∷ us) l h c =
        Gives-and_then (Said node constant rank s (triplet_of node constant rank u)) _ (rec s u) _
          (ask s u (ground arith) h c)
          (λ s1 t (e, h1, f1).
            Gives-and_then (Saids s1 (map (triplet_of node constant rank) us)) _
              (triplets_of rec node constant s1 us) _
              (ask_all s1 us (ground arith) h1 (λ w k. f1 w (c w k)))
              (λ s2 ts (d, h2, f2). (cc (e, d), h2, λ w k. f2 w (f1 w k))))

    -- What a handler that records leaves.
    recorded :
        (s s1 : Tia) (t : Triplet)
        → IsSound node constant rank s1
        → ((w : ℕ) → (v == w) ≡ false → is_pending s w ≡ false → is_pending s1 w ≡ false)
        → t ≡ triplet_of node constant rank v
        → Gives
            (Said node constant rank s (triplet_of node constant rank v))
            (record_triplet s1 v t)
    unfolding record_triplet
    recorded s s1 t h f e = (
      e,
      stored-IsSound node constant rank s1 v t h e,
      λ w k. elim (Bool-cases (v == w)) [
        | inl q ↦
            ap (is_pending (set_triplet_to_value s1 v t)) (sym ((==_iff v w).0 q))
            ∙ stored-done node constant rank s1 v t
        | inr q ↦ stored-Fewer node constant rank s1 v t w (f w q k)
      ],
    )

    Gives-if :
        (P : Tia → Triplet → Type 0) (c : Bool) (o u : Outcome Triplet)
        → (c ≡ true → Gives P o)
        → (c ≡ false → Gives P u)
        → Gives P (if c then o else u)
    Gives-if P true o u h k = h refl
    Gives-if P false o u h k = k refl

    abbrev pub Here : Tia → Outcome Triplet → Type 0
    Here s o = Gives (Said node constant rank s (triplet_of node constant rank v)) o

    now :
        (s : Tia) (t : Triplet)
        → IsSound node constant rank s
        → t ≡ triplet_of node constant rank v
        → Here s (record_triplet s v t)
    now s t h e = recorded s s t h (λ w q k. k) e

    differs : (w : ℕ) → rank w < rank v → (v == w) ≡ false
    differs w l = elim (Bool-cases (v == w)) [
      | inl q ↦ ground (arith, ap rank ((==_iff v w).0 q))
      | inr q ↦ q
    ]

    asked :
        (s : Tia) (u : ℕ)
        → rank u < rank v
        → IsSound node constant rank s
        → IsClear node constant rank (rank v) s
        → triplet_of node constant rank u ≡ triplet_of node constant rank v
        → Here s (and_then (rec s u) (λ s1 t. record_triplet s1 v t))
    asked s u l h c e =
        Gives-and_then (Said node constant rank s (triplet_of node constant rank u)) _ (rec s u) _
          (ask s u l h c) (λ s1 t (d, h1, f1). recorded s s1 t h1 (λ w q k. f1 w k) (d ∙ e))

    through :
        (s : Tia) (u : ℕ)
        → rank u < rank v
        → IsSound node constant rank s
        → IsClear node constant rank (rank v) s
        → triplet_of node constant rank u ≡ triplet_of node constant rank v
        → Here s (through_operand rec node constant s v u)
    unfolding through_operand
    through s u l h c e =
        Gives-if (Said node constant rank s (triplet_of node constant rank v))
          (is_pending (paint_grey s v) u) _ _
          (λ q. ground (arith, painted-other node constant rank s v u (differs u l), c u l))
          (λ q.
            Gives-and_then
              (Said node constant rank (paint_grey s v) (triplet_of node constant rank u)) _
              (rec (paint_grey s v) u) _
              (ask (paint_grey s v) u l h
                (λ w k. painted-other node constant rank s v w (differs w k) ∙ c w k))
              (λ s1 t (d, h1, f1).
                recorded s s1 t h1 (λ w n k. f1 w (painted-other node constant rank s v w n ∙ k))
                  (d ∙ e)))

    united :
        (s : Tia) (u : ℕ) (us : List ℕ)
        → are_below rank (rank v) (u ∷ us) ≡ true
        → IsSound node constant rank s
        → IsClear node constant rank (rank v) s
        → unite (triplet_of node constant rank u) (map (triplet_of node constant rank) us)
          ≡ triplet_of node constant rank v
        → Here s (and_then (triplets_of rec node constant s (u ∷ us)) (λ s1 ts. unite_all s1 v ts))
    united s u us l h c e =
        Gives-and_then (Saids s (map (triplet_of node constant rank) (u ∷ us))) _
          (triplets_of rec node constant s (u ∷ us)) (λ s1 ts. unite_all s1 v ts)
          (ask_all s (u ∷ us) l h c)
          (λ s1 ts (d, h1, f1).
            subst (λ rs. Here s (unite_all s1 v rs)) (sym d)
              (recorded s s1 _ h1 (λ w q k. f1 w k) e))

    id-said :
        (s : Tia) (d : Option ℕ)
        → IsSound node constant rank s
        → id_of d ≡ triplet_of node constant rank v
        → Here s (id_triplet rec node constant s v d)
    id-said s none h e = (e, h, λ w k. k)
    id-said s (some d) h e =
        Gives-if (Said node constant rank s (triplet_of node constant rank v)) (d == 0) _ _
          (λ p. now s _ h (ground arith))
          (λ p.
            Gives-if (Said node constant rank s (triplet_of node constant rank v)) (d == 1) _ _
              (λ q. now s _ h (ground arith))
              (λ q.
                Gives-if (Said node constant rank s (triplet_of node constant rank v)) (d == 2) _ _
                  (λ r. now s _ h (ground arith)) (λ r. (ground arith, h, λ w k. k))))

    call-said :
        (s : Tia) (name : String) (a : ℕ) (rest : List ℕ)
        → are_below rank (rank v) (a ∷ rest) ≡ true
        → IsSound node constant rank s
        → IsClear node constant rank (rank v) s
        → node_triplet constant (triplet_of node constant rank) (call name (a ∷ rest))
          ≡ triplet_of node constant rank v
        → Here s (call_triplet rec node constant s v name (a ∷ rest))
    call-said s name a rest l h c e =
        Gives-if (Said node constant rank s (triplet_of node constant rank v)) (is_id_query name) _
          _ (λ p. id-said s (constant a) h (sym (cut_true p) ∙ e))
          (λ p.
            Gives-if (Said node constant rank s (triplet_of node constant rank v))
              (is_group_query name) _ _ (λ q. now s _ h (sym (cut_group p q) ∙ e))
              (λ q. united s a rest l h c (sym (cut_union p q) ∙ e)))
      where
        said : Bool → Bool → Triplet
        said p q =
            if p
            then id_of (constant a)
            else if q
            then all_invariant
            else unite (triplet_of node constant rank a) (map (triplet_of node constant rank) rest)

        cut_true :
            is_id_query name ≡ true
            → said (is_id_query name) (is_group_query name) ≡ id_of (constant a)
        cut_true p = ap (λ b. said b (is_group_query name)) p

        cut_group :
            is_id_query name ≡ false
            → is_group_query name ≡ true
            → said (is_id_query name) (is_group_query name) ≡ all_invariant
        cut_group p q = cc

        cut_union :
            is_id_query name ≡ false
            → is_group_query name ≡ false
            → said (is_id_query name) (is_group_query name)
              ≡ unite (triplet_of node constant rank a) (map (triplet_of node constant rank) rest)
        cut_union p q = cc

    gep-said :
        (s : Tia) (p : ℕ) (is : List ℕ)
        → rank p < rank v
        → are_below rank (rank v) is ≡ true
        → IsSound node constant rank s
        → IsClear node constant rank (rank v) s
        → unite (triplet_of node constant rank p) (map (triplet_of node constant rank) is)
          ≡ triplet_of node constant rank v
        → Here s (gep_triplet rec node constant s v true p false is)
    gep-said s p is l m h c e =
        Gives-and_then (Said node constant rank s (triplet_of node constant rank p)) _ (rec s p) _
          (ask s p l h c)
          (λ s1 t (d, h1, f1).
            Gives-and_then (Saids s1 (map (triplet_of node constant rank) is)) _
              (triplets_of rec node constant s1 is) _ (ask_all s1 is m h1 (λ w k. f1 w (c w k)))
              (λ s2 ts (b, h2, f2).
                recorded s s2 (unite t ts) h2 (λ w q k. f2 w (f1 w k)) (cc (d, b, e))))

    pub node-said :
        (s : Tia) (n : Node)
        → is_plain rank (rank v) n ≡ true
        → IsSound node constant rank s
        → IsClear node constant rank (rank v) s
        → node_triplet constant (triplet_of node constant rank) n ≡ triplet_of node constant rank v
        → Here s (calculate_node rec node constant s v n)
    unfolding calculate_node
    node-said s (basic_block true) p h c e = now s _ h e
    node-said s (basic_block false) p h c e = now s _ h e
    node-said s argument_or_constant p h c e = now s _ h e
    node-said s (alloca []) p h c e =
        recorded s (paint_grey s v) _ h (λ w q k. painted-other node constant rank s v w q ∙ k) e
    node-said s (alloca (u ∷ us)) p h c e = cc
    node-said s (load q) p h c e = through s q (ground arith) h c e
    node-said s (store q) p h c e = through s q (ground arith) h c e
    node-said s (branch none) p h c e = now s _ h e
    node-said s (branch (some q)) p h c e = asked s q (ground arith) h c e
    node-said s return p h c e = now s _ h e
    node-said s phi p h c e = now s _ h e
    node-said s (call name []) p h c e = cc
    node-said s (call name (a ∷ rest)) p h c e = call-said s name a rest p h c e
    node-said s (get_element_ptr false q k is) p h c e = now s _ h e
    node-said s (get_element_ptr true q true is) p h c e = asked s q (ground arith) h c e
    node-said s (get_element_ptr true q false is) p h c e =
        gep-said s q is (ground arith) (ground arith) h c e
    node-said s (other_instruction []) p h c e = now s _ h e
    node-said s (other_instruction (o ∷ os)) p h c e = united s o os p h c e
    node-said s other_value p h c e = now s _ h e
