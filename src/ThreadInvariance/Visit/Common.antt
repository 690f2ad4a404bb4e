-- ===== src/ThreadInvariance/Visit/Common.antt =====
-- What the visitors of DataFlow (ThreadInvariance.cpp) share: the fresh value of an instruction, writes
-- to its elements, visitInstruction and applyStandardRule.
use vari_ocl.Base.{ℕ, zero, suc, List, [], ◌∷◌, Option, none, some, ◌>>=◌}
use vari_ocl.ThreadInvariance.Kind.{InvarianceKind, maybe_non_invariant, non_invariant}
use vari_ocl.ThreadInvariance.Scalar.{Scalar, DimLevel, set}
use vari_ocl.ThreadInvariance.Info.{Info, of_value, info_and_assign, info_reset, element}
use vari_ocl.ThreadInvariance.Impl.{Program, State, get_invariance}
use vari_ocl.ThreadInvariance.Visit.Update.{update_instruction}

-- `values[val] = v`, with the assertion of `operator[]`.
abbrev pub set_values : List Scalar → ℕ → Scalar → Option (List Scalar)
set_values [] i v = none
set_values (s ∷ ss) zero v = some (v ∷ ss)
set_values (s ∷ ss) (suc i) v = set_values ss i v >>= λ ss'. some (s ∷ ss')

unfoldable pub set_element : ℕ → Scalar → Info → Option Info
set_element i v a = set_values a.values i v >>= λ ss. some (record { values = ss })

-- `result[axis].Set(level, axis, kNonInvariant)`.
abbrev pub vary : DimLevel → ℕ → ℕ → Info → Option Info
vary level i axis a = element i a >>= λ s. set_element i (set level axis non_invariant s) a

module _ (p : Program) where
  open p use {elements}

  abbrev pub fresh : ℕ → Info
  fresh v = of_value (elements v)

  abbrev pub filled : InvarianceKind → ℕ → Info
  filled kind v = info_reset kind (fresh v)

  unfoldable pub visit_instruction : ℕ → State → Option State
  unfolding update_instruction
  visit_instruction i s = update_instruction p i (filled maybe_non_invariant i) s

  -- The loop of `applyStandardRule`.
  unfoldable pub merge_operands : List ℕ → State → Info → Option Info
  unfolding get_invariance
  merge_operands [] s result = some result
  merge_operands (o ∷ os) s result =
      get_invariance p o s >>= λ a. merge_operands os s (info_and_assign result a)

  unfoldable pub apply_standard_rule : ℕ → List ℕ → State → Option State
  unfolding merge_operands update_instruction
  apply_standard_rule i operands s =
      merge_operands operands s (fresh i) >>= λ result. update_instruction p i result s
