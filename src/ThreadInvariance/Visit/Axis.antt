-- ===== src/ThreadInvariance/Visit/Axis.antt =====
-- The branch of visitCallInst for an axis that is known.
use vari_ocl.Base.{
  ℕ, ◌≡◌, refl, true, false, List, [], ◌∷◌, Option, some, if◌then◌else◌, ◌>>=◌, Bool,
}
use vari_ocl.OpenClAl.{
  Function, is_global_index, is_local_index, is_group_index, get_index_axis, no_axis,
}
use vari_ocl.ThreadInvariance.Scalar.{dim_global, dim_local}
use vari_ocl.ThreadInvariance.Impl.{Program, State}
use vari_ocl.ThreadInvariance.Visit.Update.{update_instruction}
use vari_ocl.ThreadInvariance.Visit.Call.{
  index_result, first_const_int, visit_other_call, visit_axis_call, visit_call,
}

get_index_axis-other :
    (f : Function) (first : Option (ℕ × ℕ))
    → is_group_index (some f) ≡ false
    → is_local_index (some f) ≡ false
    → get_index_axis (some f) first ≡ no_axis
unfolding get_index_axis
get_index_axis-other f first g l = rw (g, l)

if_else :
    {A : Type 0} (b : Bool) (x y z : A)
    → (b ≡ false → y ≡ z)
    → (if b then x else y) ≡ (if b then x else z)
if_else true x y z h = refl
if_else false x y z h = h refl

module _ (p : Program) (i : ℕ) (f : Function) (os : List ℕ) (s : State) where
  visit_axis_call-other :
      is_group_index (some f) ≡ false
      → is_local_index (some f) ≡ false
      → visit_axis_call p i f os s ≡ visit_other_call p i f os s
  unfolding visit_axis_call
  visit_axis_call-other g l = rw (get_index_axis-other f (first_const_int p os) g l)

  -- The axis of an index call is never looked at: the calls of the three index functions are
  -- answered for all axes at once, before the test for the axis, and for any other call there is
  -- none.
  pub visit_call_lem : visit_call p i (some f) os s ≡ (
      if is_global_index (some f)
      then (index_result p (dim_global ∷ dim_local ∷ []) i >>= λ r. update_instruction p i r s)
      else if is_local_index (some f)
      then (index_result p (dim_local ∷ []) i >>= λ r. update_instruction p i r s)
      else if is_group_index (some f)
      then (index_result p (dim_global ∷ []) i >>= λ r. update_instruction p i r s)
      else visit_other_call p i f os s)
  unfolding visit_call
  visit_call_lem = if_else (is_global_index (some f)) _ _ _ (λ e.
      if_else (is_local_index (some f)) _ _ _
        (λ l. if_else (is_group_index (some f)) _ _ _ (λ g. visit_axis_call-other g l)))
