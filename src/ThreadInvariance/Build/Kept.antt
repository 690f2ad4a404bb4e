-- ===== src/ThreadInvariance/Build/Kept.antt =====
-- What the updates keep, every visitor, AnalyzeBlock and each round of Build keep.
use vari_ocl.Base.{
  ℕ, true, not, ◌&&◌, List, [], ◌∷◌, Option, none, some, ◌==◌, ◌>>=◌, After, after_any, after_bind,
  after_if, is_some, choose,
}
use vari_ocl.ThreadInvariance.Info.{Info, info_ne, info_and_assign, element}
use vari_ocl.ThreadInvariance.Impl.{
  Program, State, Op, alloca, binary, cast, cmp, get_element_ptr, select, call, extract_element,
  insert_element, load, phi, shuffle, store, branch, other, get_invariance, is_argument,
  is_instruction, is_alloca,
}
use vari_ocl.ThreadInvariance.Visit.Update.{update_argument, update_instruction}
use vari_ocl.ThreadInvariance.Visit.Common.{fresh, merge_operands, apply_standard_rule, set_element}
use vari_ocl.ThreadInvariance.Visit.Call.{const_int}
use vari_ocl.ThreadInvariance.Visit.{
  extract_result, visit_extract_element, insert_result, visit_insert_element, detect_coarse,
  visit_load, control_invariance, phi_result, visit_phi, shuffle_result, visit_shuffle, copy_global,
  store_private, store_local, store_to_base, visit_store, branch_result, visit_branch, visit_op,
}
use vari_ocl.ThreadInvariance.Visit.Keeps.{Keeps, keeps-update_argument}
use vari_ocl.ThreadInvariance.Build.{visit_all, analyze_block}
use vari_ocl.ThreadInvariance.Build.Visitors.{
  Kept, update, update_with, keeps-base, keeps-visit_instruction, keeps-apply_standard_rule,
  keeps-visit_alloca, keeps-visit_call,
}

module _ (p : Program) (Q : List ℕ → Type 0) (P : State → Type 0) (k : Keeps p Q P) where
  open p use {sort, space, elements, parent, insts, op}

  keeps-visit_extract_element :
      (i vector index : ℕ) → Kept p Q P k (visit_extract_element p i vector index)
  unfolding visit_extract_element
  keeps-visit_extract_element i vector index s h = at (const_int (sort index))
    where
      at :
          (o : Option (ℕ × ℕ))
          → After P (elim o [
            | none ↦ get_invariance p vector s >>= λ source. some s
            | some (w, ind) ↦
                extract_result p i vector ind s >>= λ result. update_instruction p i result s
          ])
      at none = after_any P (get_invariance p vector s) (λ source. some s) (λ source e. h)
      at (some (w, ind)) = update_with p Q P k i (extract_result p i vector ind s) s h

  keeps-visit_insert_element :
      (i vector value index : ℕ) (os : List ℕ)
      → Kept p Q P k (visit_insert_element p i vector value index os)
  unfolding visit_insert_element
  keeps-visit_insert_element i vector value index os s h = at (const_int (sort index))
    where
      at :
          (o : Option (ℕ × ℕ))
          → After P (elim o [
            | none ↦ apply_standard_rule p i os s
            | some (w, ind) ↦
                insert_result p vector value ind s >>= λ result. update_instruction p i result s
          ])
      at none = keeps-apply_standard_rule p Q P k i os s h
      at (some (w, ind)) = update_with p Q P k i (insert_result p vector value ind s) s h

  keeps-detect_coarse : (i : ℕ) (s : State) → P s → P (detect_coarse p i s)
  keeps-detect_coarse i s h =
      choose P (is_some (elements i)) (record s { coarse_detected = true }) s (λ t. k.coarse s h)
        (λ f. h)

  keeps-visit_load : (i ptr : ℕ) → Kept p Q P k (visit_load p i ptr)
  unfolding visit_load
  keeps-visit_load i ptr s h =
      let s' = detect_coarse p i s in
      update_with p Q P k i (merge_operands p (ptr ∷ []) s' (fresh p i)) s'
        (keeps-detect_coarse i s h)

  keeps-store_private : (base : ℕ) (r : Info) → Kept p Q P k (store_private p base r)
  unfolding store_private
  keeps-store_private base r s h =
      after_if P (is_instruction (sort base) && is_alloca (op base)) _ _
        (λ t.
          after_any P (get_invariance p base s) _
            (λ a e. update p Q P k base (info_and_assign r a) s h))
        (λ f.
          after_if P (is_argument (sort base)) (update_argument p base r s) (some s)
            (λ t. keeps-update_argument p Q P k base r s h) (λ g. h))

  keeps-store_local : (i base : ℕ) (b r : Info) → Kept p Q P k (store_local p i base b r)
  unfolding store_local
  keeps-store_local i base b r s h = after_any P (element 0 r) _ (λ x ex.
      after_any P (element 0 b) _ (λ y ey.
        after_any P (set_element 0 (copy_global x 2 (copy_global x 1 (copy_global x 0 y))) b) _
          (λ new e.
            after_if P (not (info_ne new b)) (some s) _ (λ t. h)
              (λ f. keeps-base p Q P k i base new s h))))

  keeps-store_to_base : (i ptr base : ℕ) (r : Info) → Kept p Q P k (store_to_base p i ptr base r)
  unfolding store_to_base
  keeps-store_to_base i ptr base r s h = after_any P (get_invariance p base s) _ (λ b e.
      after_if P (not (is_some (space base))) (some s) _ (λ t. h)
        (λ f. after_any P (space ptr) _ (λ a g.
          after_if P (a == 0) (store_private p base r s) _ (λ t. keeps-store_private base r s h)
            (λ g0.
              after_if P (a == 3) (store_local p i base b r s) (some s)
                (λ t. keeps-store_local i base b r s h) (λ g1. h)))))

  keeps-visit_store : (i value ptr : ℕ) → Kept p Q P k (visit_store p i value ptr)
  unfolding visit_store
  keeps-visit_store i value ptr s h = after_any P (get_invariance p ptr s) _ (λ a ea.
      after_any P (get_invariance p value s) _ (λ b eb. after_any P (element 0 a) _ (λ first e.
        let r = info_and_assign (info_and_assign (fresh p i) a) b in
        let s' = detect_coarse p i s in
        after_bind P P (update_instruction p i r s') _
          (update p Q P k i r s' (keeps-detect_coarse i s h))
          (λ s'' h''. to_base first.base_ptr r s'' h''))))
    where
      to_base :
          (o : Option ℕ) (r : Info) (s'' : State)
          → P s''
          → After P (elim o [ none ↦ some s'' | some base ↦ store_to_base p i ptr base r s'' ])
      to_base none r s'' h'' = h''
      to_base (some base) r s'' h'' = keeps-store_to_base i ptr base r s'' h''

  keeps-visit_op : (i : ℕ) (o : Op) → Kept p Q P k (visit_op p i o)
  unfolding visit_op visit_phi visit_shuffle visit_branch
  keeps-visit_op i (alloca static) s h = keeps-visit_alloca p Q P k i static s h
  keeps-visit_op i (binary os) s h = keeps-apply_standard_rule p Q P k i os s h
  keeps-visit_op i (cast os) s h = keeps-apply_standard_rule p Q P k i os s h
  keeps-visit_op i (cmp os) s h = keeps-apply_standard_rule p Q P k i os s h
  keeps-visit_op i (get_element_ptr os) s h = keeps-apply_standard_rule p Q P k i os s h
  keeps-visit_op i (select os) s h = keeps-apply_standard_rule p Q P k i os s h
  keeps-visit_op i (call f os) s h = keeps-visit_call p Q P k i f os s h
  keeps-visit_op i (extract_element v n) s h = keeps-visit_extract_element i v n s h
  keeps-visit_op i (insert_element v x n os) s h = keeps-visit_insert_element i v x n os s h
  keeps-visit_op i (load ptr) s h = keeps-visit_load i ptr s h
  keeps-visit_op i (phi incoming) s h = update_with p Q P k i (phi_result p i incoming s) s h
  keeps-visit_op i (shuffle l r m) s h = update_with p Q P k i (shuffle_result p i l r m s) s h
  keeps-visit_op i (store x ptr) s h = keeps-visit_store i x ptr s h
  keeps-visit_op i (branch c) s h = update_with p Q P k i (branch_result p i c s) s h
  keeps-visit_op i other s h = keeps-visit_instruction p Q P k i s h

  keeps-visit_all : (is : List ℕ) → Kept p Q P k (visit_all p is)
  unfolding visit_all
  keeps-visit_all [] s h = h
  keeps-visit_all (i ∷ is) s h =
      after_bind P P (visit_op p i (op i) s) (visit_all p is) (keeps-visit_op i (op i) s h)
        (λ s' h'. keeps-visit_all is s' h')

  pub keeps-analyze_block : (bb : ℕ) → Kept p Q P k (analyze_block p bb)
  unfolding analyze_block
  keeps-analyze_block bb s h = after_any P (control_invariance p bb s) _ (λ c e.
      after_bind P P (visit_all p (insts bb) (record s { current = c })) _
        (keeps-visit_all (insts bb) (record s { current = c }) (k.control c s h))
        (λ s' h'. k.control s.current s' h'))
