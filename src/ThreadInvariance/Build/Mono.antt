-- ===== src/ThreadInvariance/Build/Mono.antt =====
-- The value that a visit gives falls when the values that it reads fall.
use vari_ocl.Base.{
  ℕ, zero, suc, ◌+◌, ◌-◌, ◌%◌, ◌^◌, ◌/◌, ◌≡◌, refl, Bool, true, false, not, ◌||◌, List, [], ◌∷◌,
  Option, none, some, ◌==◌, if◌then◌else◌, Both, both_bind, both_refl, both_if, length, ltb, map,
}
use vari_ocl.OpenClAl.{
  Function, is_global_index, is_local_index, is_group_index, get_index_axis, no_axis,
}
use vari_ocl.ControlDependence.{get_input_dependence}
use vari_ocl.ThreadInvariance.Kind.{maybe_non_invariant, invariant}
use vari_ocl.ThreadInvariance.Scalar.{Scalar}
use vari_ocl.ThreadInvariance.Info.{
  Info, width, info_and_assign, info_reset, of_width, element, reset_pointer,
}
use vari_ocl.ThreadInvariance.Info.Order.{
  LeScalar, LeAll, Le, LeAll-refl, LeAll-length, info_and_assign-le,
}
use vari_ocl.ThreadInvariance.Info.Score.{info_or_assign-le, element-le}
use vari_ocl.ThreadInvariance.Impl.{
  Program, State, Op, alloca, binary, cast, cmp, get_element_ptr, select, call, extract_element,
  insert_element, load, phi, shuffle, store, branch, other, get_invariance,
}
use vari_ocl.ThreadInvariance.Visit.Common.{fresh, filled, merge_operands, set_values, set_element}
use vari_ocl.ThreadInvariance.Visit.Call.{const_int, first_const_int}
use vari_ocl.ThreadInvariance.Visit.{
  extract_result, control_source, control_invariance, is_controlled, merge_incoming, skipped,
  phi_result, pick, shuffle_elements, shuffle_result, mask_count, mask_operands, element_count,
  branch_result,
}
use vari_ocl.ThreadInvariance.Build.Plain.{axis_rule, call_rule, extract_rule, rule}

set_values-le :
    (i : ℕ) (v w : Scalar) (ss ts : List Scalar)
    → LeScalar v w
    → LeAll ss ts
    → Both LeAll (set_values ss i v) (set_values ts i w)
set_values-le i v w [] [] h k = tt
set_values-le i v w [] (t ∷ ts) h k = absurd k
set_values-le i v w (s ∷ ss) [] h k = absurd k
set_values-le zero v w (s ∷ ss) (t ∷ ts) h k = (h, k.1)
set_values-le (suc i) v w (s ∷ ss) (t ∷ ts) h k =
    both_bind LeAll LeAll (set_values ss i v) (set_values ts i w) _ _
      (set_values-le i v w ss ts h k.1) (λ xs ys e. (k.0, e))

set_element-le :
    (i : ℕ) (v w : Scalar) (a b : Info)
    → LeScalar v w
    → Le a b
    → Both Le (set_element i v a) (set_element i w b)
unfolding set_element
set_element-le i v w a b h k =
    both_bind LeAll Le (set_values a.values i v) (set_values b.values i w) _ _
      (set_values-le i v w a.values b.values h k) (λ xs ys e. e)

element_at-le : (i : ℕ) (a b : Info) → Le a b → Both LeScalar (element i a) (element i b)
unfolding element
element_at-le i a b h = element-le i a.values b.values h

Le-refl : (a : Info) → Le a a
Le-refl a = LeAll-refl a.values

pick-le :
    (ind : ℕ) (l l' r r' : Info) → Le l l' → Le r r' → Both LeScalar (pick ind l r) (pick ind l' r')
pick-le ind l l' r r' h k =
    let e = LeAll-length r.values r'.values k in
    rw e (
      both_if LeScalar (width r' == 0) none _ none _ tt (
        element_at-le (ind % width r') (if ind / width r' == 0 then l else r)
          (if ind / width r' == 0 then l' else r') (either (ind / width r' == 0))))
  where
    either : (b : Bool) → Le (if b then l else r) (if b then l' else r')
    either true = h
    either false = k

shuffle_elements-le :
    (n i : ℕ) (m : List (Option ℕ)) (l l' r r' a a' : Info)
    → Le l l'
    → Le r r'
    → Le a a'
    → Both Le (shuffle_elements n i m l r a) (shuffle_elements n i m l' r' a')
unfolding shuffle_elements
shuffle_elements-le zero i m l l' r r' a a' hl hr ha = ha
shuffle_elements-le (suc n) i [] l l' r r' a a' hl hr ha =
    both_bind LeScalar Le (element 0 l) (element 0 l') _ _ (element_at-le 0 l l' hl) (λ x y e.
      both_bind Le Le (set_element i x a) (set_element i y a') _ _ (set_element-le i x y a a' e ha)
        (λ b b' f. shuffle_elements-le n (i + 1) [] l l' r r' b b' hl hr f))
shuffle_elements-le (suc n) i (none ∷ m) l l' r r' a a' hl hr ha =
    shuffle_elements-le n (i + 1) m l l' r r' a a' hl hr ha
shuffle_elements-le (suc n) i (some ind ∷ m) l l' r r' a a' hl hr ha =
    both_bind LeScalar Le (pick ind l r) (pick ind l' r') _ _ (pick-le ind l l' r r' hl hr)
      (λ x y e.
        both_bind Le Le (set_element i x a) (set_element i y a') _ _
          (set_element-le i x y a a' e ha)
          (λ b b' f. shuffle_elements-le n (i + 1) m l l' r r' b b' hl hr f))

-- Every value read is lower, and is read in the same cases.
abbrev pub Below : Program → State → State → Type 0
Below p s s' = (v : ℕ) → Both Le (get_invariance p v s) (get_invariance p v s')

module _ (p : Program) (s s' : State) (below : Below p s s') where
  open p use {sort, elements, parent, deps, terminator, op}

  merge_operands-le :
      (os : List ℕ) (a b : Info)
      → Le a b
      → Both Le (merge_operands p os s a) (merge_operands p os s' b)
  unfolding merge_operands
  merge_operands-le [] a b h = h
  merge_operands-le (o ∷ os) a b h =
      both_bind Le Le (get_invariance p o s) (get_invariance p o s') _ _ (below o) (λ x y e.
        merge_operands-le os (info_and_assign a x) (info_and_assign b y)
          (info_and_assign-le a b x y h e))

  control_invariance-le :
      (bb : ℕ) → Both Le (control_invariance p bb s) (control_invariance p bb s')
  unfolding control_invariance
  control_invariance-le bb =
      both_bind ◌≡◌ Le (get_input_dependence bb deps) (get_input_dependence bb deps) _ _
        (both_refl ◌≡◌ (get_input_dependence bb deps) (λ x. refl))
        (λ x y e. rw e (
          merge_operands-le (map (control_source p) y) (info_reset invariant (of_width 1))
            (info_reset invariant (of_width 1)) (Le-refl (info_reset invariant (of_width 1)))))

  abbrev LePair : Info × Info → Info × Info → Type 0
  LePair x y = Le x.0 y.0 × Le x.1 y.1

  merge_incoming-le :
      (this : ℕ) (ps : List (ℕ × ℕ)) (r r' c c' : Info)
      → Le r r'
      → Le c c'
      → Both LePair (merge_incoming p this ps s r c) (merge_incoming p this ps s' r' c')
  unfolding merge_incoming
  merge_incoming-le this [] r r' c c' h k = (h, k)
  merge_incoming-le this ((v, bb) ∷ ps) r r' c c' h k =
      both_bind Le LePair (get_invariance p v s) (get_invariance p v s') _ _ (below v) (λ x y e.
        both_bind Le LePair _ _ _ _
          (both_if Le (is_controlled p this v bb) _ (some c) _ (some c')
            (both_bind Le Le (control_invariance p bb s) (control_invariance p bb s') _ _
              (control_invariance-le bb) (λ a b e'. info_and_assign-le c c' a b k e'))
            k)
          (λ a b e'.
            merge_incoming-le this ps (info_and_assign r x) (info_and_assign r' y) a b
              (info_and_assign-le r r' x y h e) e'))

  phi_result-le : (i : ℕ) (ps : List (ℕ × ℕ)) → Both Le (phi_result p i ps s) (phi_result p i ps s')
  unfolding phi_result
  phi_result-le i ps =
      both_bind ◌≡◌ Le (parent i) (parent i) _ _ (both_refl ◌≡◌ (parent i) (λ x. refl)) (λ x y e.
        rw e (
          both_bind LePair Le (merge_incoming p y ps s (fresh p i) (fresh p i))
            (merge_incoming p y ps s' (fresh p i) (fresh p i)) _ _
            (merge_incoming-le y ps (fresh p i) (fresh p i) (fresh p i) (fresh p i)
              (Le-refl (fresh p i)) (Le-refl (fresh p i)))
            (joined (skipped p ps == 0 || ltb 1 (length ps - skipped p ps)))))
    where
      joined :
          (b : Bool) (x y : Info × Info)
          → LePair x y
          → Le
              (if b then info_and_assign x.0 x.1 else x.0)
              (if b then info_and_assign y.0 y.1 else y.0)
      joined true x y h = info_and_assign-le x.0 y.0 x.1 y.1 h.0 h.1
      joined false x y h = h.0

  same : (m : Option Info) → Both Le m m
  same m = both_refl Le m Le-refl

  call_rule-le :
      (i : ℕ) (f : Option Function) (os : List ℕ)
      → Both Le (call_rule p i f os s) (call_rule p i f os s')
  unfolding call_rule axis_rule
  call_rule-le i none os = Le-refl (filled p maybe_non_invariant i)
  call_rule-le i (some f) os = both_if Le (is_global_index (some f)) _ _ _ _ (same _) (
      both_if Le (is_local_index (some f)) _ _ _ _ (same _) (
        both_if Le (is_group_index (some f)) _ _ _ _ (same _) (
          both_if Le (not (get_index_axis (some f) (first_const_int p os) == no_axis)) _ _ _ _
            (same _)
            (both_if Le f.is_declaration _ _ _ _
              (merge_operands-le os (fresh p i) (fresh p i) (Le-refl (fresh p i)))
              (same (some (filled p maybe_non_invariant i)))))))

  extract_rule-le :
      (o : Option (ℕ × ℕ)) (i v : ℕ) → Both Le (extract_rule p o i v s) (extract_rule p o i v s')
  unfolding extract_rule extract_result
  extract_rule-le none i v = tt
  extract_rule-le (some (w, ind)) i v =
      both_bind Le Le (get_invariance p v s) (get_invariance p v s') _ _ (below v) (λ x y e.
        both_bind LeScalar Le (element (ind % 2 ^ 32) x) (element (ind % 2 ^ 32) y) _ _
          (element_at-le (ind % 2 ^ 32) x y e)
          (λ a b f.
            set_element-le 0 a b (filled p maybe_non_invariant i) (filled p maybe_non_invariant i) f
              (Le-refl (filled p maybe_non_invariant i))))

  shuffle_result-le :
      (i l r : ℕ) (m : Option (ℕ × List (Option ℕ)))
      → Both Le (shuffle_result p i l r m s) (shuffle_result p i l r m s')
  unfolding shuffle_result
  shuffle_result-le i l r m =
      both_bind Le Le (get_invariance p l s) (get_invariance p l s') _ _ (below l) (λ x y e.
        both_bind Le Le (get_invariance p r s) (get_invariance p r s') _ _ (below r) (λ a b f.
          shuffle_elements-le (mask_count (element_count (elements i)) m) 0 (mask_operands m) x y a
            b (fresh p i) (fresh p i) e f (Le-refl (fresh p i))))

  branch_result-le :
      (i : ℕ) (c : Option ℕ) → Both Le (branch_result p i c s) (branch_result p i c s')
  unfolding branch_result
  branch_result-le i none = Le-refl (fresh p i)
  branch_result-le i (some c) =
      both_bind Le Le (get_invariance p c s) (get_invariance p c s') _ _ (below c)
        (λ x y e. info_or_assign-le (elements i) x y e)

  pub rule-le : (i : ℕ) (o : Op) → Both Le (rule p i o s) (rule p i o s')
  unfolding rule
  rule-le i (alloca static) = same (reset_pointer i (filled p invariant i))
  rule-le i (binary os) = merge_operands-le os (fresh p i) (fresh p i) (Le-refl (fresh p i))
  rule-le i (cast os) = merge_operands-le os (fresh p i) (fresh p i) (Le-refl (fresh p i))
  rule-le i (cmp os) = merge_operands-le os (fresh p i) (fresh p i) (Le-refl (fresh p i))
  rule-le i (get_element_ptr os) =
      merge_operands-le os (fresh p i) (fresh p i) (Le-refl (fresh p i))
  rule-le i (select os) = merge_operands-le os (fresh p i) (fresh p i) (Le-refl (fresh p i))
  rule-le i (call f os) = call_rule-le i f os
  rule-le i (extract_element v n) = extract_rule-le (const_int (sort n)) i v
  rule-le i (insert_element v x n os) = tt
  rule-le i (load ptr) = merge_operands-le (ptr ∷ []) (fresh p i) (fresh p i) (Le-refl (fresh p i))
  rule-le i (phi ps) = phi_result-le i ps
  rule-le i (shuffle l r m) = shuffle_result-le i l r m
  rule-le i (store x ptr) =
      merge_operands-le (ptr ∷ x ∷ []) (fresh p i) (fresh p i) (Le-refl (fresh p i))
  rule-le i (branch c) = branch_result-le i c
  rule-le i other = Le-refl (filled p maybe_non_invariant i)
