-- ===== src/ThreadInvariance/Impl.antt =====
-- class ThreadInvarianceImpl (ThreadInvariance.cpp) and the part of LLVM's values that it and the
-- data flow read. A value is a number, its address.
use vari_ocl.Base.{
  ℕ, Bool, true, false, List, [], ◌∷◌, ◌++◌, Option, none, some, elem, Map, lookup, insert, is_some,
  if◌then◌else◌, ◌>>=◌,
}
use vari_ocl.OpenClAl.{Function}
use vari_ocl.ControlDependence.{Dependences}
use vari_ocl.ThreadInvariance.Kind.{InvarianceKind, maybe_non_invariant, invariant}
use vari_ocl.ThreadInvariance.Info.{Info, of_value, info_eq, info_reset, reset_pointer}

-- What the casts tell of a value. A constant expression comes with its first operand; a constant
-- integer with its width in bits and its bits, read without sign.
pub data Sort : Type 0 where
  argument instruction block other_value : Sort
  global_variable undef constant : Sort
  constant_int : ℕ → ℕ → Sort
  constant_expr : ℕ → Sort → Sort

-- An instruction with its operands. A call has its called function, if that is known, and its
-- arguments with the callee behind them; a PHI has pairs of a value and a block; a shuffle has its
-- mask, if that is a constant vector of so many elements, each with its index if it is an integer.
pub data Op : Type 0 where
  alloca : Bool → Op
  binary cast cmp get_element_ptr select : List ℕ → Op
  call : Option Function → List ℕ → Op
  extract_element : ℕ → ℕ → Op
  insert_element : ℕ → ℕ → ℕ → List ℕ → Op
  load : ℕ → Op
  phi : List (ℕ × ℕ) → Op
  shuffle : ℕ → ℕ → Option (ℕ × List (Option ℕ)) → Op
  store : ℕ → ℕ → Op
  branch : Option ℕ → Op
  other : Op

-- A function with the analyses that are required of it. `elements` and `space` are the number of
-- elements of a vector type and the address space of a pointer type; `users` goes over the uses.
pub record Program : Type 0 where
  pub sort : ℕ → Sort
  pub elements : ℕ → Option ℕ
  pub space : ℕ → Option ℕ
  pub op : ℕ → Op
  pub is_terminator : ℕ → Bool
  pub parent : ℕ → Option ℕ
  pub users : ℕ → List ℕ
  pub function_of : ℕ → ℕ
  pub blocks : List ℕ
  pub insts : ℕ → List ℕ
  pub terminator : ℕ → ℕ
  pub args : List ℕ
  pub is_kernel : Bool
  pub deps : Dependences
  pub dominates : ℕ → ℕ → Bool

-- The members of ThreadInvarianceImpl, with the work queue and currentControlInvariance.
pub record State : Type 0 where
  pub variances : Map Info
  pub globals : List ℕ
  pub coarse_detected : Bool
  pub queue : List ℕ
  pub current : Info

abbrev pub is_constant : Sort → Bool
is_constant argument = false
is_constant instruction = false
is_constant block = false
is_constant other_value = false
is_constant _ = true

abbrev pub is_global_variable : Sort → Bool
is_global_variable global_variable = true
is_global_variable _ = false

abbrev pub is_argument : Sort → Bool
is_argument argument = true
is_argument _ = false

abbrev pub is_instruction : Sort → Bool
is_instruction instruction = true
is_instruction _ = false

abbrev pub is_undef : Sort → Bool
is_undef undef = true
is_undef _ = false

abbrev pub is_phi : Op → Bool
is_phi (phi ps) = true
is_phi _ = false

abbrev pub is_alloca : Op → Bool
is_alloca (alloca b) = true
is_alloca _ = false

module _ (p : Program) where
  open p use {sort, elements, space}

  -- The value that `getInvariance` makes of one that is not in the map. The first operand of a
  -- constant expression is looked up in turn; `none` is the abort of `setBasePointer`.
  unfoldable pub unmapped : Map Info → ℕ → Sort → Option Info
  unmapped m v (constant_expr o k) =
      let inner = unmapped m o k in
      if is_some (space v)
      then (elim (lookup o m) [ some i ↦ reset_pointer o i | none ↦ inner >>= reset_pointer o ])
      else some (info_reset invariant (of_value (elements v)))
  unmapped m v k =
      if is_constant k
      then (if is_some (space v)
          then reset_pointer v (info_reset invariant (of_value (elements v)))
          else some (info_reset invariant (of_value (elements v))))
      else some (of_value (elements v))

  unfoldable pub get_invariance : ℕ → State → Option Info
  unfolding unmapped
  get_invariance v s = elim (lookup v s.variances) [
    | some i ↦ some i
    | none ↦ unmapped s.variances v (sort v)
  ]

  -- `operator==` leaves out the base pointers, so a value that differs only there is not stored.
  abbrev pub store_invariance : ℕ → Info → State → State
  store_invariance v i s = record s {
    variances = insert v i s.variances;
    globals =
        if is_global_variable (sort v)
        then (if elem v s.globals then s.globals else s.globals ++ v ∷ [])
        else s.globals;
  }

  unfoldable pub impl_update : ℕ → Info → State → Option State
  unfolding get_invariance
  impl_update v result s = get_invariance v s >>= λ current.
      if info_eq current result then some s else some (store_invariance v result s)

  abbrev pub argument_kind : Bool → InvarianceKind
  argument_kind kernel = if kernel then invariant else maybe_non_invariant

  -- `InitializeMap`, over the arguments.
  unfoldable pub initialize_map : List ℕ → State → Option State
  unfolding impl_update
  initialize_map [] s = some s
  initialize_map (a ∷ as') s = do
    let i = info_reset (argument_kind p.is_kernel) (of_value (elements a))
    result ← if is_some (space a) then reset_pointer a i else some i
    s' ← impl_update a result s
    initialize_map as' s'
