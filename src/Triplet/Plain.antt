-- ===== src/Triplet/Plain.antt =====
-- getOrCalculateTriplet (triplet_invariance_analysis.cpp) on functions without allocas and without
-- calls that have no argument: what it says of a value, without the maps and the colours.
pub mod Memo
pub mod Handlers
pub mod Correct
use Prim.Native.String.{String}
use text.Mathlib.Text.{◌==◌ as str_eq}
use vari_ocl.Base.{
  ℕ, zero, suc, ◌+◌, ◌<◌, ◌≤◌, ◌≡◌, refl, ap, sym, ◌∙◌, Bool, true, false, not, ◌||◌, ◌&&◌, List,
  [], ◌∷◌, Option, none, some, if◌then◌else◌, ◌==◌, ltb, all, map, arith,
}
use vari_ocl.Triplet.{
  Color, invariant, non_invariant, Triplet, triplet, all_invariant, all_non_invariant,
  triplet_union, Node, basic_block, argument_or_constant, alloca, load, store, branch, return, phi,
  call, get_element_ptr, other_instruction, other_value, unite,
}

-- The names of the work-item functions that are the same for all work items.
abbrev pub is_group_query : String → Bool
is_group_query name =
    str_eq name "get_local_size"
    || (str_eq name "get_global_size"
        || (str_eq name "get_work_dim"
            || (str_eq name "get_num_groups"
                || (str_eq name "get_group_id" || str_eq name "get_global_offset"))))

abbrev pub is_id_query : String → Bool
is_id_query name = str_eq name "get_local_id" || str_eq name "get_global_id"

-- An id varies along the dimension that is asked for.
abbrev pub id_of : Option ℕ → Triplet
id_of none = all_invariant
id_of (some d) =
    if d == 0
    then triplet non_invariant invariant invariant
    else if d == 1
    then triplet invariant non_invariant invariant
    else if d == 2
    then triplet invariant invariant non_invariant
    else all_invariant

abbrev pub unite_list : List Triplet → Triplet
unite_list [] = all_invariant
unite_list (t ∷ ts) = unite t ts

abbrev pub first_of : (ℕ → Option ℕ) → List ℕ → Option ℕ
first_of constant [] = none
first_of constant (a ∷ rest) = constant a

module _ (constant : ℕ → Option ℕ) where
  -- What a value is, from what its operands are.
  abbrev pub node_triplet : (ℕ → Triplet) → Node → Triplet
  node_triplet value (basic_block true) = all_invariant
  node_triplet value (basic_block false) = all_non_invariant
  node_triplet value argument_or_constant = all_invariant
  node_triplet value (alloca users) = all_invariant
  node_triplet value (load p) = value p
  node_triplet value (store v) = value v
  node_triplet value (branch none) = all_invariant
  node_triplet value (branch (some c)) = value c
  node_triplet value return = all_invariant
  node_triplet value phi = all_non_invariant
  node_triplet value (call name args) =
      if is_id_query name
      then id_of (first_of constant args)
      else if is_group_query name
      then all_invariant
      else unite_list (map value args)
  node_triplet value (get_element_ptr false p c is) = all_non_invariant
  node_triplet value (get_element_ptr true p true is) = value p
  node_triplet value (get_element_ptr true p false is) = unite (value p) (map value is)
  node_triplet value (other_instruction os) = unite_list (map value os)
  node_triplet value other_value = all_non_invariant

-- Every operand stands below the value, no call that asks for a value is without arguments, and no
-- alloca has users.
module _ (rank : ℕ → ℕ) where
  abbrev pub are_below : ℕ → List ℕ → Bool
  are_below r vs = all (λ v. ltb (rank v) r) vs

  abbrev pub is_plain : ℕ → Node → Bool
  is_plain r (alloca []) = true
  is_plain r (alloca (u ∷ us)) = false
  is_plain r (load p) = ltb (rank p) r
  is_plain r (store v) = ltb (rank v) r
  is_plain r (branch (some c)) = ltb (rank c) r
  is_plain r (call name []) = false
  is_plain r (call name (a ∷ rest)) = are_below r (a ∷ rest)
  is_plain r (get_element_ptr t p c is) = ltb (rank p) r && are_below r is
  is_plain r (other_instruction os) = are_below r os
  is_plain r _ = true

module _ (node : ℕ → Node) (constant : ℕ → Option ℕ) where
  -- To a depth.
  unfoldable pub triplet_to : ℕ → ℕ → Triplet
  triplet_to zero v = all_invariant
  triplet_to (suc f) v = node_triplet constant (triplet_to f) (node v)

  module _ (rank : ℕ → ℕ) where
    -- The triplet of a value, to the depth at which it has settled.
    unfoldable pub triplet_of : ℕ → Triplet
    unfolding triplet_to
    triplet_of v = triplet_to (suc (rank v)) v

    map-below :
        (g h : ℕ → Triplet) (r : ℕ) (vs : List ℕ)
        → ((v : ℕ) → rank v < r → g v ≡ h v)
        → are_below rank r vs ≡ true
        → map g vs ≡ map h vs
    map-below g h r [] e b = refl
    map-below g h r (v ∷ vs) e b = cc (e v (ground arith), map-below g h r vs e (ground arith))

    node_triplet-below :
        (g h : ℕ → Triplet) (r : ℕ) (n : Node)
        → ((v : ℕ) → rank v < r → g v ≡ h v)
        → is_plain rank r n ≡ true
        → node_triplet constant g n ≡ node_triplet constant h n
    node_triplet-below g h r (basic_block true) e p = refl
    node_triplet-below g h r (basic_block false) e p = refl
    node_triplet-below g h r (load q) e p = e q (ground arith)
    node_triplet-below g h r (store q) e p = e q (ground arith)
    node_triplet-below g h r (branch none) e p = refl
    node_triplet-below g h r (branch (some q)) e p = e q (ground arith)
    node_triplet-below g h r (call name []) e p = refl
    node_triplet-below g h r (call name (a ∷ rest)) e p =
        ap
          (λ ts.
            if is_id_query name
            then id_of (constant a)
            else if is_group_query name
            then all_invariant
            else unite_list ts)
          (map-below g h r (a ∷ rest) e p)
    node_triplet-below g h r (get_element_ptr false q c is) e p = refl
    node_triplet-below g h r (get_element_ptr true q true is) e p = e q (ground arith)
    node_triplet-below g h r (get_element_ptr true q false is) e p =
        rw (e q (ground arith), map-below g h r is e (ground arith)) refl
    node_triplet-below g h r (other_instruction os) e p = ap unite_list (map-below g h r os e p)
    node_triplet-below g h r (alloca us) e p = refl
    node_triplet-below g h r argument_or_constant e p = refl
    node_triplet-below g h r return e p = refl
    node_triplet-below g h r phi e p = refl
    node_triplet-below g h r other_value e p = refl

    module _ (plain : (v : ℕ) → is_plain rank (rank v) (node v) ≡ true) where
      triplet_to-settled : (f g v : ℕ) → rank v < f → rank v < g → triplet_to f v ≡ triplet_to g v
      unfolding triplet_to
      triplet_to-settled zero g v h k = ground arith
      triplet_to-settled (suc f) zero v h k = ground arith
      triplet_to-settled (suc f) (suc g) v h k =
          node_triplet-below (triplet_to f) (triplet_to g) (rank v) (node v)
            (λ u l. triplet_to-settled f g u (omega (arith, h, l)) (omega (arith, k, l))) (plain v)

      -- A value's triplet is made of its operands' triplets.
      pub triplet_of-node : (v : ℕ) → triplet_of v ≡ node_triplet constant triplet_of (node v)
      unfolding triplet_of triplet_to
      triplet_of-node v =
          node_triplet-below (triplet_to (rank v)) triplet_of (rank v) (node v)
            (λ u l. triplet_to-settled (rank v) (suc (rank u)) u l (omega arith)) (plain v)
