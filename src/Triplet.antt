-- ===== src/Triplet.antt =====
-- class TripletInvarianceAnalysis (triplet_invariance_analysis.h, .cpp): which values vary along
-- which dimension of the work group. A value is its address; what the analysis asks of it is a
-- `Node`. The maps of one function are the state; `TC` is that function's entry.
pub mod Run
pub mod Worklist
pub mod Invariant
pub mod Known
pub mod Plain
pub mod Divergence
mod State
unfoldable pub use State.*
use Prim.Native.String.{String}
use text.Mathlib.Text.{◌==◌ as str_eq}
use vari_ocl.Base.{
  ℕ, zero, suc, ◌≡◌, Bool, true, false, not, ◌||◌, ◌&&◌, List, [], ◌∷◌, ◌++◌, Option, none, some,
  if◌then◌else◌, ◌==◌, Map, lookup, insert, lookup_or, is_some,
}

-- `rec` is the recursive call; `node` tells what a value is; `constant` is the number that a
-- constant of 32 bits holds.
module _ (rec : Tia → ℕ → Outcome Triplet) (node : ℕ → Node) (constant : ℕ → Option ℕ) where
  abbrev pub triplets_of : Tia → List ℕ → Outcome (List Triplet)
  triplets_of s [] = returns s []
  triplets_of s (v ∷ vs) =
      and_then (rec s v) (λ s1 t. and_then (triplets_of s1 vs) (λ s2 ts. returns s2 (t ∷ ts)))

  -- One user of the alloca `v`: the triplet that it adds, if it adds one.
  abbrev pub user_kind_triplet : Tia → ℕ → Node → Outcome (List Triplet)
  unfolding set_triplet_to_value
  user_kind_triplet s v (store value) = and_then (rec s value) (λ s1 t. returns s1 (t ∷ []))
  user_kind_triplet s v (load p) = returns s []
  user_kind_triplet s v _ =
      returns (set_triplet_to_value s v all_non_invariant) (all_non_invariant ∷ [])

  abbrev pub user_triplet : Tia → ℕ → ℕ → Node → Outcome (List Triplet)
  unfolding is_pending set_triplet_to_value
  user_triplet s v user n =
      if not (is_instruction n)
      then returns s []
      else if is_pending s user
      then returns (set_triplet_to_value s user all_invariant) (all_invariant ∷ [])
      else user_kind_triplet s v n

  abbrev pub user_triplets : Tia → ℕ → List ℕ → Outcome (List Triplet)
  user_triplets s v [] = returns s []
  user_triplets s v (user ∷ users) =
      and_then (user_triplet s v user (node user))
        (λ s1 ts. and_then (user_triplets s1 v users) (λ s2 us. returns s2 (ts ++ us)))

  abbrev pub alloca_triplet : Tia → ℕ → List ℕ → Outcome Triplet
  alloca_triplet s v [] = record_triplet (paint_grey s v) v all_invariant
  alloca_triplet s v (user ∷ users) =
      and_then (user_triplets (paint_grey s v) v (user ∷ users)) (λ s1 ts. unite_all s1 v ts)

  -- A load of a pointer, and a store of a value.
  abbrev pub through_operand : Tia → ℕ → ℕ → Outcome Triplet
  unfolding is_pending
  through_operand s v operand =
      let s1 : Tia = paint_grey s v in
      if is_pending s1 operand
      then record_triplet s1 operand all_non_invariant
      else and_then (rec s1 operand) (λ s2 t. record_triplet s2 v t)

  abbrev pub branch_triplet : Tia → ℕ → Option ℕ → Outcome Triplet
  branch_triplet s v none = record_triplet s v all_invariant
  branch_triplet s v (some condition) = and_then (rec s condition) (λ s1 t. record_triplet s1 v t)

  -- `get_local_id` and `get_global_id`, by their dimension.
  abbrev pub id_triplet : Tia → ℕ → Option ℕ → Outcome Triplet
  id_triplet s v none = returns s all_invariant
  id_triplet s v (some d) =
      if d == 0
      then record_triplet s v (triplet non_invariant invariant invariant)
      else if d == 1
      then record_triplet s v (triplet invariant non_invariant invariant)
      else if d == 2
      then record_triplet s v (triplet invariant invariant non_invariant)
      else returns s all_invariant

  abbrev pub is_uniform_query : String → Bool
  is_uniform_query name =
      str_eq name "get_local_size"
      || (str_eq name "get_global_size"
          || (str_eq name "get_work_dim"
              || (str_eq name "get_num_groups"
                  || (str_eq name "get_group_id" || str_eq name "get_global_offset"))))

  abbrev pub first_constant : List ℕ → Option (Option ℕ)
  first_constant [] = none
  first_constant (a ∷ rest) = some (constant a)

  abbrev pub call_triplet : Tia → ℕ → String → List ℕ → Outcome Triplet
  call_triplet s v name args =
      if str_eq name "get_local_id" || str_eq name "get_global_id"
      then elim (first_constant args) [ none ↦ undefined | some d ↦ id_triplet s v d ]
      else if is_uniform_query name
      then record_triplet s v all_invariant
      else and_then (triplets_of s args) (λ s1 ts. unite_all s1 v ts)

  abbrev pub gep_triplet : Tia → ℕ → Bool → ℕ → Bool → List ℕ → Outcome Triplet
  gep_triplet s v false pointer constant_indices indices = record_triplet s v all_non_invariant
  gep_triplet s v true pointer true indices =
      and_then (rec s pointer) (λ s1 t. record_triplet s1 v t)
  gep_triplet s v true pointer false indices =
      and_then (rec s pointer)
        (λ s1 t. and_then (triplets_of s1 indices) (λ s2 ts. record_triplet s2 v (unite t ts)))

  abbrev pub operands_triplet : Tia → ℕ → List ℕ → Outcome Triplet
  operands_triplet s v [] = record_triplet s v all_invariant
  operands_triplet s v (o ∷ os) = and_then (triplets_of s (o ∷ os)) (λ s1 ts. unite_all s1 v ts)

  -- The body of `getOrCalculateTriplet` behind its look-up.
  unfoldable pub calculate_node : Tia → ℕ → Node → Outcome Triplet
  calculate_node s v (basic_block true) = record_triplet s v all_invariant
  calculate_node s v (basic_block false) = record_triplet s v all_non_invariant
  calculate_node s v argument_or_constant = record_triplet s v all_invariant
  calculate_node s v (alloca users) = alloca_triplet s v users
  calculate_node s v (load pointer) = through_operand s v pointer
  calculate_node s v (store value) = through_operand s v value
  calculate_node s v (branch condition) = branch_triplet s v condition
  calculate_node s v return = record_triplet s v all_invariant
  calculate_node s v phi = record_triplet s v all_non_invariant
  calculate_node s v (call name args) = call_triplet s v name args
  calculate_node s v (get_element_ptr p ptr c is) = gep_triplet s v p ptr c is
  calculate_node s v (other_instruction operands) = operands_triplet s v operands
  calculate_node s v other_value = record_triplet s v all_non_invariant

module _ (node : ℕ → Node) (constant : ℕ → Option ℕ) where
  -- The recursion follows operands, and the users of an alloca; its depth takes fuel.
  unfoldable pub get_or_calculate_triplet : ℕ → Tia → ℕ → Outcome Triplet
  unfolding calculate_node
  get_or_calculate_triplet zero s v = no_fuel
  get_or_calculate_triplet (suc f) s v = elim (lookup v s.tc) [
    | some t ↦ returns s t
    | none ↦ calculate_node (get_or_calculate_triplet f) node constant s v (node v)
  ]

  unfoldable pub is_uniform : ℕ → Tia → ℕ → Outcome Bool
  unfolding get_or_calculate_triplet is_triplet_equal
  is_uniform f s v =
      and_then (get_or_calculate_triplet f s v)
        (λ s1 t. returns s1 (is_triplet_equal t all_invariant))

  -- `store_target` is the pointer operand of a store.
  abbrev pub is_alloca : Node → Bool
  is_alloca (alloca us) = true
  is_alloca _ = false

  unfoldable pub should_be_privatized : (ℕ → Option ℕ) → ℕ → Tia → ℕ → Outcome Bool
  unfolding get_or_calculate_triplet is_triplet_equal
  should_be_privatized store_target f s v = and_then (get_or_calculate_triplet f s v) (λ s1 t.
      returns s1 (
        if not (is_triplet_equal all_invariant t)
        then true
        else if is_alloca (node v)
        then true
        else elim (store_target v) [ none ↦ false | some p ↦ is_alloca (node p) ]))
