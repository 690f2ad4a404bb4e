-- ===== src/ThreadInvariance/Build/Progress.antt =====
-- Each round on a plain function lowers the sum of the scores or adds nothing to the queue.
use vari_ocl.Base.{
  ℕ, ◌≡◌, ◌≤◌, ◌<◌, refl, sym, ap, subst, ◌∙◌, true, false, List, [], ◌∷◌, Option, none, some, elem,
  ◌==◌, ==_iff, ==_refl, if◌then◌else◌, arith, After, after_any, after_bind, after_if, after_weaken,
  Both, both_refl, Bool-cases, inl, inr, insert,
}
use vari_ocl.Base.Reach.{Sub}
use vari_ocl.ControlDependence.{get_output_dependence}
use vari_ocl.ThreadInvariance.Info.{Info, info_eq, info_and_assign}
use vari_ocl.ThreadInvariance.Info.Order.{Le, LeAll-trans, info_and_assign-lower}
use vari_ocl.ThreadInvariance.Info.Score.{score, score-lt}
use vari_ocl.ThreadInvariance.Impl.{
  Program, State, instruction, block, get_invariance, impl_update, store_invariance,
}
use vari_ocl.ThreadInvariance.Visit.Update.{update_blocks, spread, update_instruction}
use vari_ocl.ThreadInvariance.Visit.{control_invariance, visit_op}
use vari_ocl.ThreadInvariance.Build.{visit_all, analyze_block}
use vari_ocl.ThreadInvariance.Build.Queue.{IsClosed}
use vari_ocl.ThreadInvariance.Build.Plain.{changes, IsPlain, rule, after_visit_op}
use vari_ocl.ThreadInvariance.Build.Mono.{Below, rule-le}
use vari_ocl.ThreadInvariance.Build.Descent.{
  current, get_invariance-changes, current-store, current-lower, store-Below, Le-refl, sum_blocks,
  sum_blocks-le, sum_blocks-lt,
}

module _ (p : Program) (plain : IsPlain p) (closed : IsClosed p) where
  open p use {sort, blocks, insts, op, parent, deps}

  -- No instruction would get a higher value from another visit.
  abbrev pub IsGood : State → Type 0
  IsGood s =
      (bb i : ℕ)
      → elem bb blocks ≡ true
      → elem i (insts bb) ≡ true
      → After (λ r. Le r (current p i s.variances)) (rule p i (op i) s)

  abbrev sum : State → ℕ
  sum s = sum_blocks p blocks s.variances

  after_below :
      (m n : Option Info) (c : Info) → Both Le m n → After (λ r. Le r c) n → After (λ r. Le r c) m
  after_below none n c h k = tt
  after_below (some a) none c h k = absurd h
  after_below (some a) (some b) c h k = LeAll-trans a.values b.values c.values h k

  same-Below : (s t : State) → t.variances ≡ s.variances → Below p t s
  unfolding get_invariance
  same-Below s t e v =
      subst (λ m. Both Le (get_invariance p v (record t { variances = m })) (get_invariance p v s))
        (sym e) (both_refl Le (get_invariance p v s) (Le-refl p))

  pub same-IsGood : (s t : State) → t.variances ≡ s.variances → IsGood s → IsGood t
  same-IsGood s t e g bb i b m =
      subst (λ x. After (λ r. Le r (current p i x)) (rule p i (op i) t)) (sym e)
        (after_below (rule p i (op i) t) (rule p i (op i) s) (current p i s.variances)
          (rule-le p t s (same-Below s t e) i (op i)) (g bb i b m))

  -- A write of a lower value, which for an instruction is no lower than its rule.
  store-IsGood :
      (w : ℕ) (r : Info) (s : State)
      → changes (sort w) ≡ true
      → Le r (current p w s.variances)
      → (sort w ≡ instruction → After (λ x. Le x r) (rule p w (op w) s))
      → IsGood s
      → IsGood (store_invariance p w r s)
  store-IsGood w r s h l below_r g bb i b m =
      let t = store_invariance p w r s in
      let fall = rule-le p t s (store-Below p plain w r s h l) i (op i) in
      elim (Bool-cases (w == i)) [
        | inl e ↦
            let at = (==_iff w i).0 e in
            let k = below_r (ap sort at ∙ plain.sorts bb i b m) in
            rw (current-store p w i r s.variances, e)
              (after_below (rule p i (op i) t) (rule p i (op i) s) r fall
                (subst (λ x. After (λ y. Le y r) (rule p x (op x) s)) at k))
        | inr e ↦
            rw (current-store p w i r s.variances, e)
              (after_below (rule p i (op i) t) (rule p i (op i) s) (current p i s.variances) fall
                (g bb i b m))
      ]

  -- Good, and with a sum below a bound.
  abbrev Fallen : ℕ → State → Type 0
  Fallen n t = IsGood t × (sum t < n)

  block_changes : (b : ℕ) → elem b blocks ≡ true → changes (sort b) ≡ true
  block_changes b m = ap changes (plain.block_sorts b m)

  -- What is read of a value that changes.
  read_current :
      (v : ℕ) (s : State) (a : Info)
      → changes (sort v) ≡ true
      → get_invariance p v s ≡ some a
      → a ≡ current p v s.variances
  read_current v s a h e = let c = get_invariance-changes p v s h in cc

  impl_update-Fallen :
      (n b : ℕ) (r : Info) (s : State)
      → elem b blocks ≡ true
      → Le r (current p b s.variances)
      → Fallen n s
      → After (Fallen n) (impl_update p b r s)
  unfolding impl_update
  impl_update-Fallen n b r s m l h = after_any (Fallen n) (get_invariance p b s) _ (λ c e.
      after_if (Fallen n) (info_eq c r) (some s) (some (store_invariance p b r s)) (λ t. h)
        (λ f. (
          store-IsGood b r s (block_changes b m) l
              (λ e'. absurd (not_block (sym e' ∙ plain.block_sorts b m))) h.0,
          omega (
            arith,
            sum_blocks-le p blocks (insert b r s.variances) s.variances
                (λ v. current-lower p b v r s.variances l),
            h.1,
          ),
        )))
    where
      not_block : instruction ≡ block → ⊥
      not_block e = cc

  update_blocks-Fallen :
      (n : ℕ) (bs : List ℕ) (r : Info) (s : State)
      → Sub bs blocks
      → Fallen n s
      → After (Fallen n) (update_blocks p bs r s)
  unfolding update_blocks
  update_blocks-Fallen n [] r s m h = h
  update_blocks-Fallen n (b ∷ bs) r s m h =
      let mb = m b (ground (arith, ==_refl b)) in
      after_any (Fallen n) (get_invariance p b s) _ (λ a e.
        after_bind (Fallen n) (Fallen n) (impl_update p b (info_and_assign a r) s) _
          (impl_update-Fallen n b (info_and_assign a r) s mb
            (subst (Le (info_and_assign a r)) (read_current b s a (block_changes b mb) e)
              (info_and_assign-lower a r))
            h)
          (λ s' h'. update_blocks-Fallen n bs r s' (λ x e'. m x (ground arith)) h'))

  spread-Fallen :
      (n v bb : ℕ) (r : Info) (s : State) → Fallen n s → After (Fallen n) (spread p v bb r s)
  unfolding spread
  spread-Fallen n v bb r s h =
      after_if (Fallen n) (p.is_terminator v) _ _
        (λ t. after_any (Fallen n) (get_output_dependence true bb deps) _ (λ out e.
          after_bind (Fallen n) (Fallen n) (update_blocks p out r s) _
            (update_blocks-Fallen n out r s (closed.dependents bb out e) h)
            (λ s' h'. (same-IsGood s' _ refl h'.0, h'.1))))
        (λ f. (same-IsGood s _ refl h.0, h.1))

  -- What a step makes of the state.
  pub record Progress (s t : State) : Type 0 where
    pub good : IsGood t
    pub le : sum t ≤ sum s
    pub idle : sum s ≤ sum t → t.queue ≡ s.queue

  pub Progress-refl : (s : State) → IsGood s → Progress s s
  Progress-refl s g = record { good = g; le = omega arith; idle = λ h. refl }

  pub Progress-trans : (s t u : State) → Progress s t → Progress t u → Progress s u
  Progress-trans s t u h k = record {
    good = k.good;
    le = omega (arith, h.le, k.le);
    idle = λ e. k.idle (omega (arith, h.le)) ∙ h.idle (omega (arith, k.le));
  }

  Progress-of_Fallen : (s t : State) → Fallen (sum s) t → Progress s t
  Progress-of_Fallen s t h = record {
    good = h.0;
    le = omega (arith, h.1);
    idle = λ e. absurd (omega (arith, h.1));
  }

  -- The first write of an update, which `operator==` tells apart from what was there.
  impl_update-falls :
      (bb i : ℕ) (r : Info) (s : State)
      → elem bb blocks ≡ true
      → elem i (insts bb) ≡ true
      → Le r (current p i s.variances)
      → After (λ x. Le x r) (rule p i (op i) s)
      → IsGood s
      → info_eq (current p i s.variances) r ≡ false
      → After (Fallen (sum s)) (impl_update p i r s)
  unfolding impl_update
  impl_update-falls bb i r s b m l k g f =
      let h : changes (sort i) ≡ true = ap changes (plain.sorts bb i b m) in
      let m' = insert i r s.variances in
      let at : current p i m' ≡ r =
        current-store p i i r s.variances
        ∙ ap (λ x. if x then r else current p i s.variances) (==_refl i) in
      let lower = λ (v : ℕ). current-lower p i v r s.variances l in
      let falls =
        subst (λ x. score x.values < score (current p i s.variances).values) (sym at)
          (score-lt r (current p i s.variances) l f) in
      after_any (Fallen (sum s)) (get_invariance p i s) _ (λ c e.
        after_if (Fallen (sum s)) (info_eq c r) (some s) (some (store_invariance p i r s))
          (λ t.
            let c_eq = ap (λ x. info_eq x r) (read_current i s c h e) in
            absurd (false_of (sym t ∙ c_eq ∙ f)))
          (λ t. (
            store-IsGood i r s h l (λ e'. k) g,
            sum_blocks-lt p m' s.variances lower i bb blocks falls m b,
          )))
    where
      false_of : true ≡ false → ⊥
      false_of e = cc

  update-Progress :
      (bb i : ℕ) (r : Info) (s : State)
      → elem bb blocks ≡ true
      → elem i (insts bb) ≡ true
      → Le r (current p i s.variances)
      → After (λ x. Le x r) (rule p i (op i) s)
      → IsGood s
      → After (Progress s) (update_instruction p i r s)
  unfolding update_instruction
  update-Progress bb i r s b m l k g =
      let h : changes (sort i) ≡ true = ap changes (plain.sorts bb i b m) in
      after_any (Progress s) (get_invariance p i s) _ (λ a e.
        after_if (Progress s) (info_eq a r) (some s) _ (λ t. Progress-refl s g)
          (λ f.
            after_bind (Fallen (sum s)) (Progress s) (impl_update p i r s) _
              (impl_update-falls bb i r s b m l k g
                (subst (λ x. info_eq x r ≡ false) (read_current i s a h e) f))
              (λ s' h'. in_block (parent i) s' h')))
    where
      in_block :
          (o : Option ℕ) (s' : State)
          → Fallen (sum s) s'
          → After (Progress s) (elim o [ none ↦ some s' | some c ↦ spread p i c r s' ])
      in_block none s' h' = Progress-of_Fallen s s' h'
      in_block (some c) s' h' =
          after_weaken (Fallen (sum s)) (Progress s) (spread p i c r s')
            (spread-Fallen (sum s) i c r s' h') (λ t x. Progress-of_Fallen s t x)

  -- The rule gives a value that is low enough and does not give a higher one after it.
  rule-Progress :
      (bb i : ℕ) (r : Info) (s t : State)
      → elem bb blocks ≡ true
      → elem i (insts bb) ≡ true
      → IsGood s
      → rule p i (op i) s ≡ some r
      → t.variances ≡ s.variances
      → After (Progress t) (update_instruction p i r t)
  rule-Progress bb i r s t b m g e v =
      let l = subst (After (λ x. Le x (current p i s.variances))) e (g bb i b m) in
      let mono = rule-le p t s (same-Below s t v) i (op i) in
      let k =
        after_below (rule p i (op i) t) (rule p i (op i) s) r mono
          (subst (After (λ x. Le x r)) (sym e) (Le-refl p r)) in
      update-Progress bb i r t b m (subst (λ x. Le r (current p i x)) (sym v) l) k
        (same-IsGood s t v g)

  visit_op-Progress :
      (bb i : ℕ) (s : State)
      → elem bb blocks ≡ true
      → elem i (insts bb) ≡ true
      → IsGood s
      → After (Progress s) (visit_op p i (op i) s)
  visit_op-Progress bb i s b m g =
      let t = record s { coarse_detected = true } in
      after_visit_op p (Progress s) i (op i) s (plain.ops bb i b m) (record {
        idle = Progress-refl s g;
        by_rule = λ r e. rule-Progress bb i r s s b m g e refl;
        by_rule_coarse = λ r e.
            after_weaken (Progress t) (Progress s) (update_instruction p i r t)
              (rule-Progress bb i r s t b m g e refl)
              (λ u k. record { good = k.good; le = k.le; idle = k.idle });
      })

  visit_all-Progress :
      (bb : ℕ) (is : List ℕ) (s : State)
      → elem bb blocks ≡ true
      → Sub is (insts bb)
      → IsGood s
      → After (Progress s) (visit_all p is s)
  unfolding visit_all
  visit_all-Progress bb [] s b m g = Progress-refl s g
  visit_all-Progress bb (i ∷ is) s b m g =
      after_bind (Progress s) (Progress s) (visit_op p i (op i) s) (visit_all p is)
        (visit_op-Progress bb i s b (m i (ground (arith, ==_refl i))) g)
        (λ t h.
          after_weaken (Progress t) (Progress s) (visit_all p is t)
            (visit_all-Progress bb is t b (λ x e. m x (ground arith)) h.good)
            (λ u k. Progress-trans s t u h k))

  pub analyze_block-Progress :
      (bb : ℕ) (s : State)
      → elem bb blocks ≡ true
      → IsGood s
      → After (Progress s) (analyze_block p bb s)
  unfolding analyze_block
  analyze_block-Progress bb s b g = after_any (Progress s) (control_invariance p bb s) _ (λ c e.
      let s0 = record s { current = c } in
      after_bind (Progress s0) (Progress s) (visit_all p (insts bb) s0) _
        (visit_all-Progress bb (insts bb) s0 b (λ x m. m) (same-IsGood s s0 refl g))
        (λ t h. record {
          good = same-IsGood t (record t { current = s.current }) refl h.good;
          le = h.le;
          idle = h.idle;
        }))
