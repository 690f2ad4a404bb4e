-- ===== src/ThreadInvariance/Build/Width.antt =====
-- The value that a visit gives has the width of the instruction.
use vari_ocl.Base.{
  ℕ, zero, suc, ◌+◌, ◌-◌, ◌%◌, ◌^◌, ◌≡◌, refl, ap, ◌∙◌, not, ◌||◌, List, [], ◌∷◌, Option, none,
  some, ◌==◌, if◌then◌else◌, ◌>>=◌, After, after_any, after_bind, after_if, after_weaken, choose,
  length, ltb,
}
use vari_ocl.OpenClAl.{
  Function, is_global_index, is_local_index, is_group_index, get_index_axis, no_axis,
}
use vari_ocl.ThreadInvariance.Kind.{InvarianceKind, maybe_non_invariant, non_invariant, invariant}
use vari_ocl.ThreadInvariance.Scalar.{Scalar, DimLevel, set, set_base_pointer}
use vari_ocl.ThreadInvariance.Info.{
  Info, width, info_and_assign, info_reset, set_pointers, element, reset_pointer,
}
use vari_ocl.ThreadInvariance.Info.Merge.{length-map, width-assign}
use vari_ocl.ThreadInvariance.Impl.{
  Program, State, Op, alloca, binary, cast, cmp, get_element_ptr, select, call, extract_element,
  insert_element, load, phi, shuffle, store, branch, other, get_invariance,
}
use vari_ocl.ThreadInvariance.Visit.Common.{
  fresh, filled, merge_operands, set_values, set_element, vary,
}
use vari_ocl.ThreadInvariance.Visit.Call.{
  const_int, vary_levels, vary_axes, index_result, first_const_int,
}
use vari_ocl.ThreadInvariance.Visit.{
  extract_result, is_controlled, control_invariance, merge_incoming, skipped, phi_result, pick,
  shuffle_elements, shuffle_result, mask_count, mask_operands, element_count, branch_result,
}
use vari_ocl.ThreadInvariance.Build.Plain.{axis_rule, call_rule, extract_rule, rule}

-- Of the width of `a`.
abbrev pub Wide : Info → Info → Type 0
Wide a r = width r ≡ width a

set_values-length :
    (i : ℕ) (v : Scalar) (ss : List Scalar)
    → After (λ ts. length ts ≡ length ss) (set_values ss i v)
set_values-length i v [] = tt
set_values-length zero v (s ∷ ss) = refl
set_values-length (suc i) v (s ∷ ss) =
    after_bind (λ ts. length ts ≡ length ss) (λ ts. length ts ≡ length (s ∷ ss)) (set_values ss i v)
      _ (set_values-length i v ss) (λ ts e. ap suc e)

set_element-Wide : (i : ℕ) (v : Scalar) (a : Info) → After (Wide a) (set_element i v a)
unfolding set_element
set_element-Wide i v a =
    after_bind (λ ts. length ts ≡ length a.values) (Wide a) (set_values a.values i v) _
      (set_values-length i v a.values) (λ ts e. e)

vary-Wide : (l : DimLevel) (i axis : ℕ) (a : Info) → After (Wide a) (vary l i axis a)
vary-Wide l i axis a =
    after_any (Wide a) (element i a) _ (λ s e. set_element-Wide i (set l axis non_invariant s) a)

Wide-trans : (a b : Info) (m : Option Info) → Wide a b → After (Wide b) m → After (Wide a) m
Wide-trans a b m h k = after_weaken (Wide b) (Wide a) m k (λ r e. e ∙ h)

vary_levels-Wide :
    (ls : List DimLevel) (axis : ℕ) (a : Info) → After (Wide a) (vary_levels ls axis a)
unfolding vary_levels
vary_levels-Wide [] axis a = refl
vary_levels-Wide (l ∷ ls) axis a =
    after_bind (Wide a) (Wide a) (vary l axis axis a) _ (vary-Wide l axis axis a)
      (λ b e. Wide-trans a b (vary_levels ls axis b) e (vary_levels-Wide ls axis b))

vary_axes-Wide :
    (ls : List DimLevel) (axes : List ℕ) (a : Info) → After (Wide a) (vary_axes ls axes a)
unfolding vary_axes
vary_axes-Wide ls [] a = refl
vary_axes-Wide ls (axis ∷ axes) a =
    after_bind (Wide a) (Wide a) (vary_levels ls axis a) _ (vary_levels-Wide ls axis a)
      (λ b e. Wide-trans a b (vary_axes ls axes b) e (vary_axes-Wide ls axes b))

set_pointers-length :
    (v : ℕ) (ss : List Scalar) → After (λ ts. length ts ≡ length ss) (set_pointers v ss)
set_pointers-length v [] = refl
set_pointers-length v (s ∷ ss) =
    go (set_base_pointer v s) (set_pointers v ss) (set_pointers-length v ss)
  where
    go :
        (m : Option Scalar) (n : Option (List Scalar))
        → After (λ ts. length ts ≡ length ss) n
        → After
            (λ ts. length ts ≡ length (s ∷ ss))
            (elim m [ none ↦ none | some s' ↦ elim n [ none ↦ none | some ss' ↦ some (s' ∷ ss') ] ])
    go none n h = tt
    go (some s') none h = tt
    go (some s') (some ss') h = ap suc h

reset_pointer-Wide : (v : ℕ) (a : Info) → After (Wide a) (reset_pointer v a)
unfolding reset_pointer
reset_pointer-Wide v a = go (set_pointers v a.values) (set_pointers-length v a.values)
  where
    go :
        (m : Option (List Scalar))
        → After (λ ts. length ts ≡ length a.values) m
        → After (Wide a) (elim m [ none ↦ none | some ss ↦ some (record { values = ss }) ])
    go none h = tt
    go (some ss) h = h

shuffle_elements-Wide :
    (n i : ℕ) (m : List (Option ℕ)) (l r a : Info) → After (Wide a) (shuffle_elements n i m l r a)
unfolding shuffle_elements
shuffle_elements-Wide zero i m l r a = refl
shuffle_elements-Wide (suc n) i [] l r a = after_any (Wide a) (element 0 l) _ (λ x e.
    after_bind (Wide a) (Wide a) (set_element i x a) _ (set_element-Wide i x a) (λ b f.
      Wide-trans a b (shuffle_elements n (i + 1) [] l r b) f
        (shuffle_elements-Wide n (i + 1) [] l r b)))
shuffle_elements-Wide (suc n) i (none ∷ m) l r a = shuffle_elements-Wide n (i + 1) m l r a
shuffle_elements-Wide (suc n) i (some ind ∷ m) l r a = after_any (Wide a) (pick ind l r) _ (λ x e.
    after_bind (Wide a) (Wide a) (set_element i x a) _ (set_element-Wide i x a) (λ b f.
      Wide-trans a b (shuffle_elements n (i + 1) m l r b) f
        (shuffle_elements-Wide n (i + 1) m l r b)))

module _ (p : Program) (s : State) where
  open p use {sort, elements, parent}

  filled-Wide : (k : InvarianceKind) (i : ℕ) → Wide (fresh p i) (filled p k i)
  unfolding info_reset
  filled-Wide k i = length-map _ (fresh p i).values

  -- The same of a value that is filled first.
  of_filled :
      (k : InvarianceKind) (i : ℕ) (m : Option Info)
      → After (Wide (filled p k i)) m
      → After (Wide (fresh p i)) m
  of_filled k i m h = Wide-trans (fresh p i) (filled p k i) m (filled-Wide k i) h

  merge_operands-Wide : (os : List ℕ) (a : Info) → After (Wide a) (merge_operands p os s a)
  unfolding merge_operands
  merge_operands-Wide [] a = refl
  merge_operands-Wide (o ∷ os) a = after_any (Wide a) (get_invariance p o s) _ (λ b e.
      Wide-trans a (info_and_assign a b) (merge_operands p os s (info_and_assign a b))
        (width-assign a b).0 (merge_operands-Wide os (info_and_assign a b)))

  merge_incoming-Wide :
      (this : ℕ) (ps : List (ℕ × ℕ)) (r c : Info)
      → After (λ x. Wide r x.0) (merge_incoming p this ps s r c)
  unfolding merge_incoming
  merge_incoming-Wide this [] r c = refl
  merge_incoming-Wide this ((v, bb) ∷ ps) r c =
      after_any (λ x. Wide r x.0) (get_invariance p v s) _
        (λ a e.
          after_any (λ x. Wide r x.0)
            (if is_controlled p this v bb
              then (control_invariance p bb s >>= λ d. some (info_and_assign c d))
              else some c)
            _
            (λ d e'.
              after_weaken (λ x. Wide (info_and_assign r a) x.0) (λ x. Wide r x.0)
                (merge_incoming p this ps s (info_and_assign r a) d)
                (merge_incoming-Wide this ps (info_and_assign r a) d)
                (λ x w. w ∙ (width-assign r a).0)))

  phi_result-Wide : (i : ℕ) (ps : List (ℕ × ℕ)) → After (Wide (fresh p i)) (phi_result p i ps s)
  unfolding phi_result
  phi_result-Wide i ps = after_any (Wide (fresh p i)) (parent i) _ (λ this e.
      after_bind (λ x. Wide (fresh p i) x.0) (Wide (fresh p i))
        (merge_incoming p this ps s (fresh p i) (fresh p i)) _
        (merge_incoming-Wide this ps (fresh p i) (fresh p i))
        (λ x w.
          choose (Wide (fresh p i)) (skipped p ps == 0 || ltb 1 (length ps - skipped p ps))
            (info_and_assign x.0 x.1) x.0 (λ t. (width-assign x.0 x.1).0 ∙ w) (λ t. w)))

  index-Wide : (ls : List DimLevel) (i : ℕ) → After (Wide (fresh p i)) (index_result p ls i)
  unfolding index_result
  index-Wide ls i =
      of_filled invariant i _ (vary_axes-Wide ls (0 ∷ 1 ∷ 2 ∷ []) (filled p invariant i))

  call_rule-Wide :
      (i : ℕ) (f : Option Function) (os : List ℕ) → After (Wide (fresh p i)) (call_rule p i f os s)
  unfolding call_rule axis_rule
  call_rule-Wide i none os = filled-Wide maybe_non_invariant i
  call_rule-Wide i (some f) os =
      after_if (Wide (fresh p i)) (is_global_index (some f)) _ _ (λ t. index-Wide _ i)
        (λ t.
          after_if (Wide (fresh p i)) (is_local_index (some f)) _ _ (λ u. index-Wide _ i)
            (λ u.
              after_if (Wide (fresh p i)) (is_group_index (some f)) _ _ (λ v. index-Wide _ i)
                (λ v.
                  after_if (Wide (fresh p i))
                    (not (get_index_axis (some f) (first_const_int p os) == no_axis)) _ _
                    (λ w. of_filled invariant i _ (vary-Wide _ 0 _ (filled p invariant i)))
                    (λ w.
                      after_if (Wide (fresh p i)) f.is_declaration _ _
                        (λ x. merge_operands-Wide os (fresh p i))
                        (λ x. filled-Wide maybe_non_invariant i)))))

  extract_rule-Wide :
      (o : Option (ℕ × ℕ)) (i v : ℕ) → After (Wide (fresh p i)) (extract_rule p o i v s)
  unfolding extract_rule extract_result
  extract_rule-Wide none i v = tt
  extract_rule-Wide (some (w, ind)) i v =
      after_any (Wide (fresh p i)) (get_invariance p v s) _ (λ a e.
        after_any (Wide (fresh p i)) (element (ind % 2 ^ 32) a) _ (λ x e'.
          of_filled maybe_non_invariant i _
            (set_element-Wide 0 x (filled p maybe_non_invariant i))))

  shuffle_result-Wide :
      (i l r : ℕ) (m : Option (ℕ × List (Option ℕ)))
      → After (Wide (fresh p i)) (shuffle_result p i l r m s)
  unfolding shuffle_result
  shuffle_result-Wide i l r m = after_any (Wide (fresh p i)) (get_invariance p l s) _ (λ a e.
      after_any (Wide (fresh p i)) (get_invariance p r s) _ (λ b e'.
        shuffle_elements-Wide (mask_count (element_count (elements i)) m) 0 (mask_operands m) a b
          (fresh p i)))

  branch_result-Wide : (i : ℕ) (c : Option ℕ) → After (Wide (fresh p i)) (branch_result p i c s)
  unfolding branch_result
  branch_result-Wide i none = refl
  branch_result-Wide i (some c) =
      after_any (Wide (fresh p i)) (get_invariance p c s) _ (λ a e. (width-assign (fresh p i) a).1)

  pub rule-Wide : (i : ℕ) (o : Op) → After (Wide (fresh p i)) (rule p i o s)
  unfolding rule
  rule-Wide i (alloca static) =
      of_filled invariant i _ (reset_pointer-Wide i (filled p invariant i))
  rule-Wide i (binary os) = merge_operands-Wide os (fresh p i)
  rule-Wide i (cast os) = merge_operands-Wide os (fresh p i)
  rule-Wide i (cmp os) = merge_operands-Wide os (fresh p i)
  rule-Wide i (get_element_ptr os) = merge_operands-Wide os (fresh p i)
  rule-Wide i (select os) = merge_operands-Wide os (fresh p i)
  rule-Wide i (call f os) = call_rule-Wide i f os
  rule-Wide i (extract_element v n) = extract_rule-Wide (const_int (sort n)) i v
  rule-Wide i (insert_element v x n os) = tt
  rule-Wide i (load ptr) = merge_operands-Wide (ptr ∷ []) (fresh p i)
  rule-Wide i (phi ps) = phi_result-Wide i ps
  rule-Wide i (shuffle l r m) = shuffle_result-Wide i l r m
  rule-Wide i (store x ptr) = merge_operands-Wide (ptr ∷ x ∷ []) (fresh p i)
  rule-Wide i (branch c) = branch_result-Wide i c
  rule-Wide i other = filled-Wide maybe_non_invariant i
