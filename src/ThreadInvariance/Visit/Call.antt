-- ===== src/ThreadInvariance/Visit/Call.antt =====
-- DataFlow::visitCallInst (ThreadInvariance.cpp).
use vari_ocl.Base.{ℕ, not, List, [], ◌∷◌, Option, none, some, ◌==◌, if◌then◌else◌, ◌>>=◌}
use vari_ocl.OpenClAl.{
  Function, is_global_index, is_local_index, is_group_index, is_safe_atomic, get_index_axis,
  no_axis,
}
use vari_ocl.ThreadInvariance.Kind.{non_invariant, invariant}
use vari_ocl.ThreadInvariance.Scalar.{DimLevel, dim_local, dim_global}
use vari_ocl.ThreadInvariance.Info.{Info, info_ne, element}
use vari_ocl.ThreadInvariance.Impl.{
  Program, Sort, constant_int, State, get_invariance, is_argument, is_global_variable,
}
use vari_ocl.ThreadInvariance.Visit.Update.{update_argument, update_global, update_instruction}
use vari_ocl.ThreadInvariance.Visit.Common.{filled, visit_instruction, apply_standard_rule, vary}

abbrev pub const_int : Sort → Option (ℕ × ℕ)
const_int (constant_int w z) = some (w, z)
const_int _ = none

unfoldable pub vary_levels : List DimLevel → ℕ → Info → Option Info
vary_levels [] axis a = some a
vary_levels (l ∷ ls) axis a = vary l axis axis a >>= λ a'. vary_levels ls axis a'

unfoldable pub vary_axes : List DimLevel → List ℕ → Info → Option Info
unfolding vary_levels
vary_axes levels [] a = some a
vary_axes levels (axis ∷ axes) a = vary_levels levels axis a >>= λ a'. vary_axes levels axes a'

module _ (p : Program) where
  open p use {sort, space, parent}

  -- The results for the work-item functions.
  unfoldable pub index_result : List DimLevel → ℕ → Option Info
  unfolding vary_axes
  index_result levels i = vary_axes levels (0 ∷ 1 ∷ 2 ∷ []) (filled p invariant i)

  -- The atomic's pointer: what it points to varies between the groups, if it is global.
  unfoldable pub vary_pointee : ℕ → ℕ → State → Option State
  unfolding get_invariance update_global update_argument
  vary_pointee i ptr s = get_invariance p ptr s >>= λ ptr_operand.
      element 0 ptr_operand >>= λ first. vary dim_global 0 0 ptr_operand >>= λ a.
      vary dim_global 0 1 a >>= λ b. vary dim_global 0 2 b >>= λ new_invariance.
      if not (info_ne new_invariance ptr_operand)
      then some s
      else (first.base_ptr >>= λ base. elim (space base) [
        | none ↦ some s
        | some a ↦
            if not (a == 1)
            then some s
            else if is_global_variable (sort base)
            then (parent i >>= λ bb. update_global p base new_invariance bb s)
            else if is_argument (sort base)
            then update_argument p base new_invariance s
            else some s
      ])

  unfoldable pub visit_safe_atomic : ℕ → List ℕ → State → Option State
  unfolding update_instruction vary_pointee
  visit_safe_atomic i [] s = none
  visit_safe_atomic i (ptr ∷ rest) s =
      update_instruction p i (filled p non_invariant i) s >>= λ s'. vary_pointee i ptr s'

  abbrev pub first_const_int : List ℕ → Option (ℕ × ℕ)
  first_const_int [] = none
  first_const_int (o ∷ os) = const_int (sort o)

  -- The last tests of `visitCallInst`.
  unfoldable pub visit_other_call : ℕ → Function → List ℕ → State → Option State
  unfolding visit_safe_atomic apply_standard_rule visit_instruction
  visit_other_call i f operands s =
      (if is_safe_atomic (some f) then visit_safe_atomic i operands s else some s) >>= λ s'.
      if f.is_declaration then apply_standard_rule p i operands s' else visit_instruction p i s'

  unfoldable pub visit_axis_call : ℕ → Function → List ℕ → State → Option State
  unfolding update_instruction visit_other_call
  visit_axis_call i f operands s =
      let axis = get_index_axis (some f) (first_const_int operands) in
      if not (axis == no_axis)
      then (vary (if is_group_index (some f) then dim_global else dim_local) 0 axis
            (filled p invariant i)
          >>= λ result. update_instruction p i result s)
      else visit_other_call i f operands s

  unfoldable pub visit_call : ℕ → Option Function → List ℕ → State → Option State
  unfolding update_instruction visit_axis_call visit_instruction index_result
  visit_call i none operands s = visit_instruction p i s
  visit_call i (some f) operands s =
      if is_global_index (some f)
      then (index_result (dim_global ∷ dim_local ∷ []) i >>= λ r. update_instruction p i r s)
      else if is_local_index (some f)
      then (index_result (dim_local ∷ []) i >>= λ r. update_instruction p i r s)
      else if is_group_index (some f)
      then (index_result (dim_global ∷ []) i >>= λ r. update_instruction p i r s)
      else visit_axis_call i f operands s
