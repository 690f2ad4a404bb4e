-- ===== src/ThreadInvariance/Build/Plain.antt =====
-- Functions whose stores go to global or constant memory, with static allocations, without atomics
-- and writes to vector elements: on them each instruction is updated at most once by a visit, with a
-- value that its operands give.
use vari_ocl.Base.{
  ℕ, ◌≡◌, refl, Bool, true, false, not, ◌&&◌, List, [], ◌∷◌, Option, none, some, elem, ◌==◌,
  if◌then◌else◌, ◌>>=◌, After, after_any, after_bind, after_if, is_some, arith, Bool-cases, inl,
  inr,
}
use vari_ocl.OpenClAl.{
  Function, is_global_index, is_local_index, is_group_index, is_safe_atomic, get_index_axis,
  no_axis,
}
use vari_ocl.ThreadInvariance.Kind.{maybe_non_invariant, invariant}
use vari_ocl.ThreadInvariance.Scalar.{dim_global, dim_local}
use vari_ocl.ThreadInvariance.Info.{Info, info_and_assign, element, reset_pointer}
use vari_ocl.ThreadInvariance.Impl.{
  Program, Sort, argument, instruction, block, State, Op, alloca, binary, cast, cmp,
  get_element_ptr, select, call, extract_element, insert_element, load, phi, shuffle, store, branch,
  other, get_invariance, constant_expr,
}
use vari_ocl.ThreadInvariance.Visit.Update.{update_instruction}
use vari_ocl.ThreadInvariance.Visit.Common.{
  fresh, filled, visit_instruction, merge_operands, apply_standard_rule, vary,
}
use vari_ocl.ThreadInvariance.Visit.Call.{
  const_int, visit_other_call, visit_axis_call, visit_call, index_result, first_const_int,
}
use vari_ocl.ThreadInvariance.Visit.{
  visit_alloca, extract_result, visit_extract_element, visit_load, phi_result, visit_phi,
  shuffle_result, visit_shuffle, store_private, store_local, store_to_base, visit_store,
  branch_result, visit_branch, visit_op, detect_coarse,
}

-- Neither private nor local memory.
abbrev pub elsewhere : Option ℕ → Bool
elsewhere none = true
elsewhere (some a) = not (a == 0) && not (a == 3)

abbrev pub is_atomic_call : Option Function → Bool
is_atomic_call none = false
is_atomic_call (some f) = is_safe_atomic (some f)

abbrev pub is_plain : Program → Op → Bool
is_plain p (alloca static) = static
is_plain p (call f os) = not (is_atomic_call f)
is_plain p (insert_element v x n os) = false
is_plain p (store x ptr) = elsewhere (p.space ptr)
is_plain p _ = true

-- The values that change: those of instructions and of blocks.
abbrev pub changes : Sort → Bool
changes instruction = true
changes block = true
changes _ = false

abbrev pub chain : Program → Sort → Bool
chain p (constant_expr o k) = not (changes (p.sort o)) && chain p k
chain p _ = true

pub record IsPlain (p : Program) : Type 0 where
  pub ops :
      (bb i : ℕ) → elem bb p.blocks ≡ true → elem i (p.insts bb) ≡ true → is_plain p (p.op i) ≡ true
  pub sorts :
      (bb i : ℕ) → elem bb p.blocks ≡ true → elem i (p.insts bb) ≡ true → p.sort i ≡ instruction
  pub block_sorts : (bb : ℕ) → elem bb p.blocks ≡ true → p.sort bb ≡ block
  pub arguments : (a : ℕ) → elem a p.args ≡ true → p.sort a ≡ argument
  pub chains : (v : ℕ) → chain p (p.sort v) ≡ true

module _ (p : Program) where
  open p use {sort, space, elements, parent, insts, op}

  unfoldable pub axis_rule : ℕ → Function → List ℕ → State → Option Info
  axis_rule i f os s =
      let axis = get_index_axis (some f) (first_const_int p os) in
      if not (axis == no_axis)
      then vary (if is_group_index (some f) then dim_global else dim_local) 0 axis
          (filled p invariant i)
      else if f.is_declaration
      then merge_operands p os s (fresh p i)
      else some (filled p maybe_non_invariant i)

  unfoldable pub call_rule : ℕ → Option Function → List ℕ → State → Option Info
  call_rule i none os s = some (filled p maybe_non_invariant i)
  call_rule i (some f) os s =
      if is_global_index (some f)
      then index_result p (dim_global ∷ dim_local ∷ []) i
      else if is_local_index (some f)
      then index_result p (dim_local ∷ []) i
      else if is_group_index (some f)
      then index_result p (dim_global ∷ []) i
      else axis_rule i f os s

  unfoldable pub extract_rule : Option (ℕ × ℕ) → ℕ → ℕ → State → Option Info
  extract_rule none i vector s = none
  extract_rule (some (w, ind)) i vector s = extract_result p i vector ind s

  -- The value that a visit gives an instruction, if it gives one.
  unfoldable pub rule : ℕ → Op → State → Option Info
  rule i (alloca static) s = reset_pointer i (filled p invariant i)
  rule i (binary os) s = merge_operands p os s (fresh p i)
  rule i (cast os) s = merge_operands p os s (fresh p i)
  rule i (cmp os) s = merge_operands p os s (fresh p i)
  rule i (get_element_ptr os) s = merge_operands p os s (fresh p i)
  rule i (select os) s = merge_operands p os s (fresh p i)
  rule i (call f os) s = call_rule i f os s
  rule i (extract_element vector index) s = extract_rule (const_int (sort index)) i vector s
  rule i (insert_element v x n os) s = none
  rule i (load ptr) s = merge_operands p (ptr ∷ []) s (fresh p i)
  rule i (phi incoming) s = phi_result p i incoming s
  rule i (shuffle l r m) s = shuffle_result p i l r m s
  rule i (store x ptr) s = merge_operands p (ptr ∷ x ∷ []) s (fresh p i)
  rule i (branch c) s = branch_result p i c s
  rule i other s = some (filled p maybe_non_invariant i)

  -- What holds of the state itself and of each update by the rule holds after a visit.
  pub record Updates (i : ℕ) (m : Option Info) (s : State) (P : State → Type 0) : Type 0 where
    pub idle : P s
    pub by_rule : (r : Info) → m ≡ some r → After P (update_instruction p i r s)
    pub by_rule_coarse :
        (r : Info)
        → m ≡ some r
        → After P (update_instruction p i r (record s { coarse_detected = true }))

  module _ (P : State → Type 0) (i : ℕ) (s : State) where
    after_rule :
        (m : Option Info) → Updates i m s P → After P (m >>= λ r. update_instruction p i r s)
    after_rule m u = after_any P m (λ r. update_instruction p i r s) u.by_rule

    at_if :
        (b : Bool) (m n : Option Info) (x y : Option State)
        → (b ≡ true → Updates i m s P → After P x)
        → (b ≡ false → Updates i n s P → After P y)
        → Updates i (if b then m else n) s P
        → After P (if b then x else y)
    at_if true m n x y h k u = h refl u
    at_if false m n x y h k u = k refl u

    after_other_call :
        (f : Function) (os : List ℕ)
        → is_safe_atomic (some f) ≡ false
        → Updates i
            (if f.is_declaration
              then merge_operands p os s (fresh p i)
              else some (filled p maybe_non_invariant i))
            s
            P
        → After P (visit_other_call p i f os s)
    unfolding visit_other_call visit_instruction apply_standard_rule
    after_other_call f os a u =
        rw (a, visit_other_call)
          (at_if f.is_declaration _ _ (apply_standard_rule p i os s) (visit_instruction p i s)
            (λ t. after_rule (merge_operands p os s (fresh p i)))
            (λ t. after_rule (some (filled p maybe_non_invariant i))) u)

    after_axis_call :
        (f : Function) (os : List ℕ)
        → is_safe_atomic (some f) ≡ false
        → Updates i (axis_rule i f os s) s P
        → After P (visit_axis_call p i f os s)
    unfolding visit_axis_call axis_rule
    after_axis_call f os a u =
        let axis = get_index_axis (some f) (first_const_int p os) in
        at_if (not (axis == no_axis)) _ _ _ (visit_other_call p i f os s)
          (λ t. after_rule (
            vary (if is_group_index (some f) then dim_global else dim_local) 0 axis
              (filled p invariant i)))
          (λ t. after_other_call f os a) u

    after_call :
        (f : Option Function) (os : List ℕ)
        → is_atomic_call f ≡ false
        → Updates i (call_rule i f os s) s P
        → After P (visit_call p i f os s)
    unfolding visit_call call_rule visit_instruction
    after_call none os a u = after_rule (some (filled p maybe_non_invariant i)) u
    after_call (some f) os a u =
        at_if (is_global_index (some f)) _ _ _ _
          (λ t. after_rule (index_result p (dim_global ∷ dim_local ∷ []) i))
          (λ t.
            at_if (is_local_index (some f)) _ _ _ _
              (λ t'. after_rule (index_result p (dim_local ∷ []) i))
              (λ t'.
                at_if (is_group_index (some f)) _ _ _ (visit_axis_call p i f os s)
                  (λ t''. after_rule (index_result p (dim_global ∷ []) i))
                  (λ t''. after_axis_call f os a)))
          u

    after_extract :
        (o : Option (ℕ × ℕ)) (vector : ℕ)
        → Updates i (extract_rule o i vector s) s P
        → After P (elim o [
          | none ↦ get_invariance p vector s >>= λ source. some s
          | some (w, ind) ↦
              extract_result p i vector ind s >>= λ result. update_instruction p i result s
        ])
    unfolding extract_rule
    after_extract none vector u =
        after_any P (get_invariance p vector s) (λ source. some s) (λ source e. u.idle)
    after_extract (some (w, ind)) vector u = after_rule (extract_result p i vector ind s) u

    -- The rest of a store does nothing.
    after_store_to_base :
        (ptr base : ℕ) (r : Info) (s' : State)
        → elsewhere (space ptr) ≡ true
        → P s'
        → After P (store_to_base p i ptr base r s')
    unfolding store_to_base
    after_store_to_base ptr base r s' e h = after_any P (get_invariance p base s') _ (λ b eb.
        after_if P (not (is_some (space base))) (some s') _ (λ t. h)
          (λ f. in_space (space ptr) e b))
      where
        in_space :
            (o : Option ℕ)
            → elsewhere o ≡ true
            → (b : Info)
            → After P (
                o >>= λ addr_space.
                if addr_space == 0
                then store_private p base r s'
                else if addr_space == 3
                then store_local p i base b r s'
                else some s')
        in_space none e b = tt
        in_space (some a) e b =
            let x : (a == 0) ≡ false = ground arith in
            let y : (a == 3) ≡ false = ground arith in rw (x, y) h

    merged :
        (x ptr : ℕ) (a b : Info)
        → get_invariance p ptr s ≡ some a
        → get_invariance p x s ≡ some b
        → merge_operands p (ptr ∷ x ∷ []) s (fresh p i)
          ≡ some (info_and_assign (info_and_assign (fresh p i) a) b)
    unfolding merge_operands
    merged x ptr a b ea eb = rw (ea, eb) refl

    after_load :
        (ptr : ℕ)
        → Updates i (merge_operands p (ptr ∷ []) s (fresh p i)) s P
        → After P (visit_load p i ptr s)
    unfolding visit_load merge_operands get_invariance
    after_load ptr u = elim (Bool-cases (is_some (elements i))) [
      | inl e ↦ rw e (after_any P (merge_operands p (ptr ∷ []) s (fresh p i)) _ u.by_rule_coarse)
      | inr e ↦ rw e (after_rule (merge_operands p (ptr ∷ []) s (fresh p i)) u)
    ]

    after_detect_coarse :
        (m : Option Info) (r : Info)
        → m ≡ some r
        → Updates i m s P
        → After P (update_instruction p i r (detect_coarse p i s))
    after_detect_coarse m r e u = elim (Bool-cases (is_some (elements i))) [
      | inl c ↦ rw c (u.by_rule_coarse r e)
      | inr c ↦ rw c (u.by_rule r e)
    ]

    after_store :
        (x ptr : ℕ)
        → elsewhere (space ptr) ≡ true
        → Updates i (merge_operands p (ptr ∷ x ∷ []) s (fresh p i)) s P
        → After P (visit_store p i x ptr s)
    unfolding visit_store
    after_store x ptr e u = after_any P (get_invariance p ptr s) _ (λ a ea.
        after_any P (get_invariance p x s) _ (λ b eb. after_any P (element 0 a) _ (λ first found.
          let r = info_and_assign (info_and_assign (fresh p i) a) b in
          after_bind P P (update_instruction p i r (detect_coarse p i s)) _
            (after_update r (merged x ptr a b ea eb)) (λ s' h. to_base r s' h first.base_ptr))))
      where
        to_base :
            (r : Info) (s' : State)
            → P s'
            → (o : Option ℕ)
            → After P (elim o [ none ↦ some s' | some base ↦ store_to_base p i ptr base r s' ])
        to_base r s' h none = h
        to_base r s' h (some base) = after_store_to_base ptr base r s' e h

        after_update :
            (r : Info)
            → merge_operands p (ptr ∷ x ∷ []) s (fresh p i) ≡ some r
            → After P (update_instruction p i r (detect_coarse p i s))
        after_update r m = after_detect_coarse (merge_operands p (ptr ∷ x ∷ []) s (fresh p i)) r m u

  -- A visit updates by the rule alone.
  pub after_visit_op :
      (P : State → Type 0) (i : ℕ) (o : Op) (s : State)
      → is_plain p o ≡ true
      → Updates i (rule i o s) s P
      → After P (visit_op p i o s)
  unfolding visit_op rule visit_alloca apply_standard_rule visit_extract_element visit_load
      visit_phi visit_shuffle visit_branch visit_instruction
  after_visit_op P i (alloca static) s e u =
      rw e (after_rule P i s (reset_pointer i (filled p invariant i)) u)
  after_visit_op P i (binary os) s e u = after_rule P i s (merge_operands p os s (fresh p i)) u
  after_visit_op P i (cast os) s e u = after_rule P i s (merge_operands p os s (fresh p i)) u
  after_visit_op P i (cmp os) s e u = after_rule P i s (merge_operands p os s (fresh p i)) u
  after_visit_op P i (get_element_ptr os) s e u =
      after_rule P i s (merge_operands p os s (fresh p i)) u
  after_visit_op P i (select os) s e u = after_rule P i s (merge_operands p os s (fresh p i)) u
  after_visit_op P i (call f os) s e u = after_call P i s f os (ground arith) u
  after_visit_op P i (extract_element v n) s e u = after_extract P i s (const_int (sort n)) v u
  after_visit_op P i (insert_element v x n os) s e u = cc
  after_visit_op P i (load ptr) s e u = after_load P i s ptr u
  after_visit_op P i (phi incoming) s e u = after_rule P i s (phi_result p i incoming s) u
  after_visit_op P i (shuffle l r m) s e u = after_rule P i s (shuffle_result p i l r m s) u
  after_visit_op P i (store x ptr) s e u = after_store P i s x ptr e u
  after_visit_op P i (branch c) s e u = after_rule P i s (branch_result p i c s) u
  after_visit_op P i other s e u = after_rule P i s (some (filled p maybe_non_invariant i)) u
