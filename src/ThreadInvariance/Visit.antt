-- ===== src/ThreadInvariance/Visit.antt =====
-- class DataFlow (ThreadInvariance.cpp): the updates that fill the work queue, and one visitor for
-- each kind of instruction. `none` is an abort or a failed assertion.
pub mod Update
pub mod Common
pub mod Call
pub mod Keeps
pub mod Axis
use vari_ocl.Base.{
  map, ℕ, zero, suc, ◌+◌, ◌-◌, ◌*◌, ◌/◌, ◌%◌, ◌^◌, Bool, true, false, not, ◌||◌, ◌&&◌, List, [],
  ◌∷◌, ◌++◌, Option, none, some, get_elem?, ltb, ◌==◌, length, is_some, if◌then◌else◌, ◌>>=◌,
}
use vari_ocl.OpenClAl.{
  Function, is_global_index, is_local_index, is_group_index, is_safe_atomic, get_index_axis,
  no_axis,
}
use vari_ocl.ControlDependence.{get_input_dependence}
use vari_ocl.ThreadInvariance.Kind.{InvarianceKind, maybe_non_invariant, non_invariant, invariant}
use vari_ocl.ThreadInvariance.Scalar.{
  Scalar, DimLevel, dim_local, dim_global, set, get_invariance as scalar_invariance,
}
use vari_ocl.ThreadInvariance.Info.{
  Info, width, of_width, of_value, info_ne, info_and_assign, info_or_assign, info_reset,
  reset_pointer, element,
}
use vari_ocl.ThreadInvariance.Impl.{
  Program, Sort, constant_int, undef, State, Op, alloca, binary, cast, cmp, get_element_ptr, select,
  call, extract_element, insert_element, load, phi, shuffle, store, branch, other, get_invariance,
  is_argument, is_instruction, is_alloca, is_global_variable, is_undef,
}
use vari_ocl.ThreadInvariance.Visit.Update.{update_argument, update_global, update_instruction}
use vari_ocl.ThreadInvariance.Visit.Common.{
  fresh, filled, visit_instruction, merge_operands, apply_standard_rule, set_element, vary,
}
use vari_ocl.ThreadInvariance.Visit.Call.{const_int, visit_call}

-- Both operands have the width of the second; the division faults at width 0.
abbrev pub pick : ℕ → Info → Info → Option Scalar
pick ind lhs rhs =
    if width rhs == 0
    then none
    else element (ind % width rhs) (if ind / width rhs == 0 then lhs else rhs)

-- The loop over `n` more elements from `i`, with the operands of the mask from there on. Without a
-- constant mask there are none.
unfoldable pub shuffle_elements : ℕ → ℕ → List (Option ℕ) → Info → Info → Info → Option Info
shuffle_elements zero i mask lhs rhs result = some result
shuffle_elements (suc n) i [] lhs rhs result = element 0 lhs >>= λ e.
    set_element i e result >>= λ result'. shuffle_elements n (i + 1) [] lhs rhs result'
shuffle_elements (suc n) i (none ∷ mask) lhs rhs result =
    shuffle_elements n (i + 1) mask lhs rhs result
shuffle_elements (suc n) i (some ind ∷ mask) lhs rhs result = pick ind lhs rhs >>= λ e.
    set_element i e result >>= λ result'. shuffle_elements n (i + 1) mask lhs rhs result'

abbrev pub element_count : Option ℕ → ℕ
element_count none = 0
element_count (some n) = n

abbrev pub mask_count : ℕ → Option (ℕ × List (Option ℕ)) → ℕ
mask_count n none = n
mask_count n (some (k, mask)) = k

abbrev pub mask_operands : Option (ℕ × List (Option ℕ)) → List (Option ℕ)
mask_operands none = []
mask_operands (some (k, mask)) = mask

-- `newInv[0].Set(kDimGlobal, i, result[0].getInvariance(kDimGlobal, i))`.
abbrev pub copy_global : Scalar → ℕ → Scalar → Scalar
copy_global from axis s = set dim_global axis (scalar_invariance dim_global axis from) s

module _ (p : Program) where
  open p use {
    sort, elements, space, op, parent, is_terminator, terminator, users, insts, deps, dominates,
    function_of,
  }

  -- A dynamic allocation is visited as an instruction first; there is no return behind that.
  unfoldable pub visit_alloca : ℕ → Bool → State → Option State
  unfolding visit_instruction update_instruction
  visit_alloca i is_static s = (if is_static then some s else visit_instruction p i s) >>= λ s'.
      reset_pointer i (filled p invariant i) >>= λ result. update_instruction p i result s'

  -- `source[ind]`, whose index is an `unsigned`; at an index that is no constant the visitor does not
  -- update at all.
  unfoldable pub extract_result : ℕ → ℕ → ℕ → State → Option Info
  unfolding get_invariance
  extract_result i vector ind s = get_invariance p vector s >>= λ source.
      element (ind % 2 ^ 32) source >>= λ e. set_element 0 e (filled p maybe_non_invariant i)

  unfoldable pub visit_extract_element : ℕ → ℕ → ℕ → State → Option State
  unfolding extract_result update_instruction
  visit_extract_element i vector index s = elim (const_int (sort index)) [
    | none ↦ get_invariance p vector s >>= λ source. some s
    | some (w, ind) ↦ extract_result i vector ind s >>= λ result. update_instruction p i result s
  ]

  unfoldable pub insert_result : ℕ → ℕ → ℕ → State → Option Info
  unfolding get_invariance
  insert_result vector value ind s = get_invariance p value s >>= λ inserted_value.
      get_invariance p vector s >>= λ result.
      element 0 inserted_value >>= λ e. set_element (ind % 2 ^ 32) e result

  unfoldable pub visit_insert_element : ℕ → ℕ → ℕ → ℕ → List ℕ → State → Option State
  unfolding insert_result update_instruction apply_standard_rule
  visit_insert_element i vector value index operands s = elim (const_int (sort index)) [
    | none ↦ apply_standard_rule p i operands s
    | some (w, ind) ↦ insert_result vector value ind s >>= λ result. update_instruction p i result s
  ]

  abbrev pub detect_coarse : ℕ → State → State
  detect_coarse i s = if is_some (elements i) then record s { coarse_detected = true } else s

  unfoldable pub visit_load : ℕ → ℕ → State → Option State
  unfolding merge_operands update_instruction
  visit_load i ptr s =
      let s' = detect_coarse i s in
      merge_operands p (ptr ∷ []) s' (fresh p i) >>= λ result. update_instruction p i result s'

  -- `ControlInvarianceFromBlock`: a conditional branch is read through its condition.
  abbrev pub control_operand : ℕ → Op → ℕ
  control_operand t (branch (some c)) = c
  control_operand t _ = t

  abbrev pub control_source : ℕ → ℕ
  control_source bb = control_operand (terminator bb) (op (terminator bb))

  -- `ControlInvarianceForBlock`.
  unfoldable pub control_invariance : ℕ → State → Option Info
  unfolding merge_operands
  control_invariance bb s = get_input_dependence bb deps >>= λ blocks.
      merge_operands p (map control_source blocks) s (info_reset invariant (of_width 1))

  -- Whether the block of an incoming value counts for the control invariance of the PHI.
  abbrev pub is_controlled : ℕ → ℕ → ℕ → Bool
  is_controlled this_block value bb =
      not (dominates this_block bb) && not (dominates bb this_block) && not (is_undef (sort value))

  -- The loop over the incoming values, with `result` and `control`.
  unfoldable pub merge_incoming : ℕ → List (ℕ × ℕ) → State → Info → Info → Option (Info × Info)
  unfolding get_invariance control_invariance
  merge_incoming this_block [] s result control = some (result, control)
  merge_incoming this_block ((value, bb) ∷ rest) s result control =
      get_invariance p value s >>= λ a.
      (if is_controlled this_block value bb
        then (control_invariance bb s >>= λ c. some (info_and_assign control c))
        else some control)
      >>= λ control'. merge_incoming this_block rest s (info_and_assign result a) control'

  abbrev pub skipped : List (ℕ × ℕ) → ℕ
  skipped [] = 0
  skipped ((value, bb) ∷ rest) = (if is_undef (sort value) then 1 else 0) + skipped rest

  unfoldable pub phi_result : ℕ → List (ℕ × ℕ) → State → Option Info
  unfolding merge_incoming
  phi_result i incoming s = parent i >>= λ this_block.
      merge_incoming this_block incoming s (fresh p i) (fresh p i) >>= λ (result, control). some (
        if skipped incoming == 0 || ltb 1 (length incoming - skipped incoming)
        then info_and_assign result control
        else result)

  unfoldable pub visit_phi : ℕ → List (ℕ × ℕ) → State → Option State
  unfolding phi_result update_instruction
  visit_phi i incoming s = phi_result i incoming s >>= λ result. update_instruction p i result s

  unfoldable pub shuffle_result : ℕ → ℕ → ℕ → Option (ℕ × List (Option ℕ)) → State → Option Info
  unfolding get_invariance shuffle_elements
  shuffle_result i left right mask s = get_invariance p left s >>= λ lhs.
      get_invariance p right s >>= λ rhs.
      shuffle_elements (mask_count (element_count (elements i)) mask) 0 (mask_operands mask) lhs rhs
        (fresh p i)

  unfoldable pub visit_shuffle : ℕ → ℕ → ℕ → Option (ℕ × List (Option ℕ)) → State → Option State
  unfolding shuffle_result update_instruction
  visit_shuffle i left right mask s =
      shuffle_result i left right mask s >>= λ result. update_instruction p i result s

  -- A store to private memory changes the allocation or the argument that the pointer is based on.
  unfoldable pub store_private : ℕ → Info → State → Option State
  unfolding get_invariance update_instruction update_argument
  store_private base result s =
      if is_instruction (sort base) && is_alloca (op base)
      then (get_invariance p base s >>= λ a. update_instruction p base (info_and_assign result a) s)
      else if is_argument (sort base)
      then update_argument p base result s
      else some s

  -- A store to local memory changes the group axes of the base.
  unfoldable pub store_local : ℕ → ℕ → Info → Info → State → Option State
  unfolding update_global update_argument
  store_local i base base_inv result s = element 0 result >>= λ r. element 0 base_inv >>= λ e.
      set_element 0 (copy_global r 2 (copy_global r 1 (copy_global r 0 e))) base_inv >>= λ new_inv.
      if not (info_ne new_inv base_inv)
      then some s
      else if is_global_variable (sort base)
      then (parent i >>= λ bb. update_global p base new_inv bb s)
      else if is_argument (sort base)
      then update_argument p base new_inv s
      else some s

  -- The address space is that of the store's pointer, whose type is a pointer.
  unfoldable pub store_to_base : ℕ → ℕ → ℕ → Info → State → Option State
  unfolding get_invariance store_private store_local
  store_to_base i ptr base result s = get_invariance p base s >>= λ base_inv.
      if not (is_some (space base))
      then some s
      else (space ptr >>= λ addr_space.
          if addr_space == 0
          then store_private base result s
          else if addr_space == 3
          then store_local i base base_inv result s
          else some s)

  unfoldable pub visit_store : ℕ → ℕ → ℕ → State → Option State
  unfolding get_invariance update_instruction store_to_base
  visit_store i value ptr s = get_invariance p ptr s >>= λ ptr_operand.
      get_invariance p value s >>= λ value_operand.
      let s' = detect_coarse i s in
      element 0 ptr_operand >>= λ first.
      let result = info_and_assign (info_and_assign (fresh p i) ptr_operand) value_operand in
      update_instruction p i result s' >>= λ s''. elim first.base_ptr [
        | none ↦ some s''
        | some base ↦ store_to_base i ptr base result s''
      ]

  -- Only a conditional branch has a condition.
  unfoldable pub branch_result : ℕ → Option ℕ → State → Option Info
  unfolding get_invariance
  branch_result i none s = some (fresh p i)
  branch_result i (some condition) s =
      get_invariance p condition s >>= λ cond. some (info_or_assign (fresh p i) cond)

  unfoldable pub visit_branch : ℕ → Option ℕ → State → Option State
  unfolding branch_result update_instruction
  visit_branch i condition s =
      branch_result i condition s >>= λ result. update_instruction p i result s

  -- The dispatch of InstVisitor.
  unfoldable pub visit_op : ℕ → Op → State → Option State
  unfolding visit_alloca apply_standard_rule visit_call visit_extract_element visit_insert_element
      visit_load visit_phi visit_shuffle visit_store visit_branch visit_instruction
  visit_op i (alloca is_static) s = visit_alloca i is_static s
  visit_op i (binary operands) s = apply_standard_rule p i operands s
  visit_op i (cast operands) s = apply_standard_rule p i operands s
  visit_op i (cmp operands) s = apply_standard_rule p i operands s
  visit_op i (get_element_ptr operands) s = apply_standard_rule p i operands s
  visit_op i (select operands) s = apply_standard_rule p i operands s
  visit_op i (call called operands) s = visit_call p i called operands s
  visit_op i (extract_element vector index) s = visit_extract_element i vector index s
  visit_op i (insert_element vector value index operands) s =
      visit_insert_element i vector value index operands s
  visit_op i (load ptr) s = visit_load i ptr s
  visit_op i (phi incoming) s = visit_phi i incoming s
  visit_op i (shuffle left right mask) s = visit_shuffle i left right mask s
  visit_op i (store value ptr) s = visit_store i value ptr s
  visit_op i (branch condition) s = visit_branch i condition s
  visit_op i other s = visit_instruction p i s
