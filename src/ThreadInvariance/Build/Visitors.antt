-- ===== src/ThreadInvariance/Build/Visitors.antt =====
-- What the updates keep, every visitor and AnalyzeBlock keep.
use vari_ocl.Base.{
  ℕ, Bool, not, List, [], ◌∷◌, Option, none, some, ◌==◌, if◌then◌else◌, ◌>>=◌, After, after_any,
  after_bind, after_if,
}
use vari_ocl.OpenClAl.{
  Function, is_global_index, is_local_index, is_group_index, is_safe_atomic, get_index_axis,
  no_axis,
}
use vari_ocl.ThreadInvariance.Kind.{maybe_non_invariant, non_invariant, invariant}
use vari_ocl.ThreadInvariance.Scalar.{dim_global, dim_local}
use vari_ocl.ThreadInvariance.Info.{Info, info_ne, element, reset_pointer}
use vari_ocl.ThreadInvariance.Impl.{Program, State, get_invariance, is_global_variable, is_argument}
use vari_ocl.ThreadInvariance.Visit.Update.{update_argument, update_global, update_instruction}
use vari_ocl.ThreadInvariance.Visit.Common.{
  fresh, filled, visit_instruction, merge_operands, apply_standard_rule, vary,
}
use vari_ocl.ThreadInvariance.Visit.Call.{
  vary_pointee, visit_safe_atomic, visit_other_call, visit_axis_call, visit_call, index_result,
  first_const_int,
}
use vari_ocl.ThreadInvariance.Visit.{visit_alloca}
use vari_ocl.ThreadInvariance.Visit.Keeps.{
  Keeps, keeps-update_argument, keeps-update_global, keeps-update_instruction,
}

module _ (p : Program) (Q : List ℕ → Type 0) (P : State → Type 0) (k : Keeps p Q P) where
  open p use {sort, space, elements, parent, insts, op}

  abbrev pub Kept : (State → Option State) → Type 0
  Kept f = (s : State) → P s → After P (f s)

  pub update : (i : ℕ) (r : Info) → Kept (update_instruction p i r)
  update i r s h = keeps-update_instruction p Q P k i r s h

  -- Where the result may fail to be there.
  pub update_with :
      (i : ℕ) (m : Option Info) (s : State) → P s → After P (m >>= λ r. update_instruction p i r s)
  update_with i m s h = after_any P m (λ r. update_instruction p i r s) (λ r e. update i r s h)

  pub keeps-visit_instruction : (i : ℕ) → Kept (visit_instruction p i)
  unfolding visit_instruction
  keeps-visit_instruction i s h = update i (filled p maybe_non_invariant i) s h

  pub keeps-apply_standard_rule : (i : ℕ) (os : List ℕ) → Kept (apply_standard_rule p i os)
  unfolding apply_standard_rule
  keeps-apply_standard_rule i os s h = update_with i (merge_operands p os s (fresh p i)) s h

  pub keeps-visit_alloca : (i : ℕ) (static : Bool) → Kept (visit_alloca p i static)
  unfolding visit_alloca
  keeps-visit_alloca i static s h =
      after_bind P P (if static then some s else visit_instruction p i s) _
        (after_if P static (some s) (visit_instruction p i s) (λ t. h)
          (λ f. keeps-visit_instruction i s h))
        (λ s' h'. update_with i (reset_pointer i (filled p invariant i)) s' h')

  -- A base that may be a global variable or an argument.
  pub keeps-base :
      (i base : ℕ) (a : Info) (s : State)
      → P s
      → After P (
          if is_global_variable (sort base)
          then (parent i >>= λ bb. update_global p base a bb s)
          else if is_argument (sort base)
          then update_argument p base a s
          else some s)
  keeps-base i base a s h =
      after_if P (is_global_variable (sort base)) _ _
        (λ t.
          after_any P (parent i) (λ bb. update_global p base a bb s)
            (λ bb e. keeps-update_global p Q P k base a bb s h))
        (λ f.
          after_if P (is_argument (sort base)) (update_argument p base a s) (some s)
            (λ t. keeps-update_argument p Q P k base a s h) (λ g. h))

  keeps-vary_pointee : (i ptr : ℕ) → Kept (vary_pointee p i ptr)
  unfolding vary_pointee
  keeps-vary_pointee i ptr s h = after_any P (get_invariance p ptr s) _ (λ a read.
      after_any P (element 0 a) _ (λ first found. after_any P (vary dim_global 0 0 a) _ (λ b x.
        after_any P (vary dim_global 0 1 b) _ (λ c y. after_any P (vary dim_global 0 2 c) _ (λ d z.
          after_if P (not (info_ne d a)) (some s) _ (λ t. h)
            (λ f. after_any P first.base_ptr _ (λ base g. in_space base d (space base))))))))
    where
      in_space :
          (base : ℕ) (d : Info) (o : Option ℕ)
          → After P (elim o [
            | none ↦ some s
            | some a ↦
                if not (a == 1)
                then some s
                else if is_global_variable (sort base)
                then (parent i >>= λ bb. update_global p base d bb s)
                else if is_argument (sort base)
                then update_argument p base d s
                else some s
          ])
      in_space base d none = h
      in_space base d (some a) =
          after_if P (not (a == 1)) (some s) _ (λ t. h) (λ f. keeps-base i base d s h)

  keeps-visit_safe_atomic : (i : ℕ) (os : List ℕ) → Kept (visit_safe_atomic p i os)
  unfolding visit_safe_atomic
  keeps-visit_safe_atomic i [] s h = tt
  keeps-visit_safe_atomic i (o ∷ os) s h =
      after_bind P P (update_instruction p i (filled p non_invariant i) s) (vary_pointee p i o)
        (update i (filled p non_invariant i) s h) (λ s' h'. keeps-vary_pointee i o s' h')

  keeps-visit_other_call : (i : ℕ) (f : Function) (os : List ℕ) → Kept (visit_other_call p i f os)
  unfolding visit_other_call
  keeps-visit_other_call i f os s h =
      after_bind P P (if is_safe_atomic (some f) then visit_safe_atomic p i os s else some s) _
        (after_if P (is_safe_atomic (some f)) (visit_safe_atomic p i os s) (some s)
          (λ t. keeps-visit_safe_atomic i os s h) (λ e. h))
        (λ s' h'.
          after_if P f.is_declaration (apply_standard_rule p i os s') (visit_instruction p i s')
            (λ t. keeps-apply_standard_rule i os s' h') (λ e. keeps-visit_instruction i s' h'))

  keeps-visit_axis_call : (i : ℕ) (f : Function) (os : List ℕ) → Kept (visit_axis_call p i f os)
  unfolding visit_axis_call
  keeps-visit_axis_call i f os s h =
      let axis = get_index_axis (some f) (first_const_int p os) in
      after_if P (not (axis == no_axis)) _ (visit_other_call p i f os s)
        (λ t.
          update_with i
            (vary (if is_group_index (some f) then dim_global else dim_local) 0 axis
              (filled p invariant i))
            s h)
        (λ e. keeps-visit_other_call i f os s h)

  pub keeps-visit_call : (i : ℕ) (f : Option Function) (os : List ℕ) → Kept (visit_call p i f os)
  unfolding visit_call
  keeps-visit_call i none os s h = keeps-visit_instruction i s h
  keeps-visit_call i (some f) os s h =
      after_if P (is_global_index (some f)) _ _
        (λ t. update_with i (index_result p (dim_global ∷ dim_local ∷ []) i) s h)
        (λ e.
          after_if P (is_local_index (some f)) _ _
            (λ t. update_with i (index_result p (dim_local ∷ []) i) s h)
            (λ e2.
              after_if P (is_group_index (some f)) _ _
                (λ t. update_with i (index_result p (dim_global ∷ []) i) s h)
                (λ e3. keeps-visit_axis_call i f os s h)))
