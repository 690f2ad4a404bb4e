-- ===== src/ThreadInvariance/Build/Ends.antt =====
-- The loop of Build comes to an end on plain functions.
use vari_ocl.Base.{
  ℕ, zero, suc, ◌≡◌, ◌<◌, refl, sym, ap, subst, ◌∙◌, true, List, [], ◌∷◌, Option, none, some, ◌==◌,
  ==_iff, ==_refl, length, if◌then◌else◌, arith, ltb, After, after_any, after_bind, after_if,
  after_weaken, Bool-cases, Option-cases, inl, inr, lookup, lookup-insert, IsDistinct,
}
use vari_ocl.Base.Reach.{Sub}
use vari_ocl.ThreadInvariance.Info.{Info}
use vari_ocl.ThreadInvariance.Info.Order.{Le}
use vari_ocl.ThreadInvariance.Info.Score.{Le-of_value}
use vari_ocl.ThreadInvariance.Impl.{
  Program, State, argument, impl_update, get_invariance, initialize_map, store_invariance,
}
use vari_ocl.ThreadInvariance.Visit.Common.{fresh}
use vari_ocl.ThreadInvariance.Build.{
  Outcome, ended, failed, out_of_fuel, initial, analyze_block, run, build,
}
use vari_ocl.ThreadInvariance.Build.Kept.{keeps-analyze_block}
use vari_ocl.ThreadInvariance.Build.Queue.{IsClosed, IsQueue, queue_Keeps}
use vari_ocl.ThreadInvariance.Build.Plain.{changes, IsPlain, rule}
use vari_ocl.ThreadInvariance.Build.Descent.{sum_blocks}
use vari_ocl.ThreadInvariance.Build.Width.{rule-Wide}
use vari_ocl.ThreadInvariance.Build.Progress.{IsGood, same-IsGood, Progress, analyze_block-Progress}

module _ (p : Program) (plain : IsPlain p) (closed : IsClosed p) where
  open p use {sort, blocks, insts, op, args}

  -- Nothing but arguments is in the map.
  abbrev Unmapped : State → Type 0
  Unmapped s = (v : ℕ) → changes (sort v) ≡ true → lookup v s.variances ≡ none

  impl_update-Unmapped :
      (a : ℕ) (r : Info) (s : State)
      → sort a ≡ argument
      → Unmapped s
      → After Unmapped (impl_update p a r s)
  unfolding impl_update
  impl_update-Unmapped a r s e u = after_any Unmapped (get_invariance p a s) _ (λ c g.
      after_if Unmapped _ (some s) (some (store_invariance p a r s)) (λ t. u)
        (λ t v h. lookup-insert a v r s.variances ∙ away v h))
    where
      away :
          (v : ℕ)
          → changes (sort v) ≡ true
          → (if a == v then some r else lookup v s.variances) ≡ none
      away v h = elim (Bool-cases (a == v)) [
        | inl at ↦
            let same = ap (λ x. changes (sort x)) ((==_iff a v).0 at) in
            let arg = ap changes e in cc
        | inr off ↦ rw off (u v h)
      ]

  initialize_map-Unmapped :
      (as' : List ℕ) (s : State)
      → Sub as' args
      → Unmapped s
      → After Unmapped (initialize_map p as' s)
  unfolding initialize_map
  initialize_map-Unmapped [] s h u = u
  initialize_map-Unmapped (a ∷ as') s h u = after_any Unmapped _ _ (λ r e.
      after_bind Unmapped Unmapped (impl_update p a r s) _
        (impl_update-Unmapped a r s (plain.arguments a (h a (ground (arith, ==_refl a)))) u)
        (λ s' u'. initialize_map-Unmapped as' s' (λ x m. h x (ground arith)) u'))

  initial-IsGood : (s : State) → Unmapped s → IsGood p plain closed s
  initial-IsGood s u bb i b m =
      let h : changes (sort i) ≡ true = ap changes (plain.sorts bb i b m) in
      after_weaken _ _ (rule p i (op i) s) (rule-Wide p s i (op i)) (λ r w.
        subst (λ (o : Option Info). Le r (elim o [ some x ↦ x | none ↦ fresh p i ])) (sym (u i h))
          (Le-of_value r (p.elements i) w))

  abbrev sum : State → ℕ
  sum s = sum_blocks p blocks s.variances

  -- The loop came to its end, or stopped at a failed assertion.
  abbrev pub Finished : Outcome → Type 0
  Finished (ended t) = (t.queue ≡ []) × IsGood p plain closed t
  Finished failed = Unit {0}
  Finished out_of_fuel = ⊥

  abbrev Stops : State → Type 0
  Stops s = (fuel : ℕ) × Finished (run p fuel s)

  run-empty : (s : State) → s.queue ≡ [] → run p 0 s ≡ ended s
  unfolding run
  run-empty s e = ap (λ (l : List ℕ). elim l [ [] ↦ ended s | bb ∷ queue ↦ out_of_fuel ]) e

  run-round :
      (fuel : ℕ) (s : State) (bb : ℕ) (queue : List ℕ) (o : Option State)
      → s.queue ≡ bb ∷ queue
      → analyze_block p bb (record s { queue = queue }) ≡ o
      → run p (suc fuel) s ≡ elim o [ none ↦ failed | some t ↦ run p fuel t ]
  unfolding run
  run-round fuel s bb queue o e a =
      ap
        (λ (l : List ℕ). elim l [
          | [] ↦ ended s
          | b ∷ q ↦ elim (analyze_block p b (record s { queue = q })) [
            | none ↦ failed
            | some t ↦ run p fuel t
          ]
        ])
        e
      ∙ ap (λ (x : Option State). elim x [ none ↦ failed | some t ↦ run p fuel t ]) a

  -- A round that succeeds.
  round :
      (s : State) (bb : ℕ) (queue : List ℕ) (t : State)
      → s.queue ≡ bb ∷ queue
      → analyze_block p bb (record s { queue = queue }) ≡ some t
      → IsGood p plain closed s
      → IsQueue blocks s.queue
      → Progress p plain closed (record s { queue = queue }) t × IsQueue blocks t.queue
  round s bb queue t e a g q =
      let s0 = record s { queue = queue } in
      let whole : IsQueue blocks (bb ∷ queue) = subst (IsQueue blocks) e q in
      let m = whole.1 bb (ground (arith, ==_refl bb)) in
      let rest : IsQueue blocks queue = (whole.0.1, λ x h. whole.1 x (ground arith)) in
      let fall =
        analyze_block-Progress p plain closed bb s0 m (same-IsGood p plain closed s s0 refl g) in
      let keep =
        keeps-analyze_block p (λ set. Sub set blocks) (λ u. IsQueue blocks u.queue)
          (queue_Keeps p closed) bb s0 rest in
      (
        subst (After (Progress p plain closed s0)) a fall,
        subst (After (λ (u : State). IsQueue blocks u.queue)) a keep,
      )

  -- Either the sum falls, or the queue is one shorter.
  stops :
      (n : ℕ) (s : State) (k : ℕ)
      → sum s < n
      → length s.queue < k
      → IsGood p plain closed s
      → IsQueue blocks s.queue
      → Stops s
  stops zero s k h l g q = absurd (omega arith)
  stops (suc n) s zero h l g q = absurd (omega arith)
  stops (suc n) s (suc k) h l g q =
      at s.queue refl (λ t. stops n t (suc (length t.queue))) (λ t. stops (suc n) t k)
    where
      after_round :
          (bb : ℕ) (queue : List ℕ) (t : State)
          → s.queue ≡ bb ∷ queue
          → analyze_block p bb (record s { queue = queue }) ≡ some t
          → Stops t
          → Stops s
      after_round bb queue t e a r =
          (suc r.0, subst Finished (sym (run-round r.0 s bb queue (some t) e a)) r.1)

      at :
          (l' : List ℕ)
          → s.queue ≡ l'
          → ((t : State)
              → sum t < n
              → length t.queue < suc (length t.queue)
              → IsGood p plain closed t
              → IsQueue blocks t.queue
              → Stops t)
          → ((t : State)
              → sum t < suc n
              → length t.queue < k
              → IsGood p plain closed t
              → IsQueue blocks t.queue
              → Stops t)
          → Stops s
      at [] e lower shorter = (0, subst Finished (sym (run-empty s e)) (e, g))
      at (bb ∷ queue) e lower shorter =
          elim (Option-cases (analyze_block p bb (record s { queue = queue }))) [
            | inl a ↦ (1, subst Finished (sym (run-round 0 s bb queue none e a)) tt)
            | inr (t, a) ↦
                let (fall, q') = round s bb queue t e a g q in
                let le = fall.le in
                after_round bb queue t e a (elim (Bool-cases (ltb (sum t) (sum s))) [
                  | inl f ↦ lower t (ground arith) (omega arith) fall.good q'
                  | inr f ↦
                      let same = ap length (fall.idle (ground arith)) in
                      let all = ap length e in shorter t (omega arith) (omega arith) fall.good q'
                ])
          ]

  -- On a function whose stores go neither to private nor to local memory, with static allocations
  -- alone, no safe atomics and no writes to vector elements, with distinct blocks, and with all users
  -- and dependent blocks in the function, some number of rounds is enough: the loop of Build then has
  -- an empty queue, and another visit would raise the value of no instruction, or the loop has stopped
  -- at a failed assertion.
  pub build_stops : IsDistinct blocks → (fuel : ℕ) × Finished (build p fuel)
  unfolding build
  build_stops d =
      at (initialize_map p args initial)
        (initialize_map-Unmapped args initial (λ x m. m) (λ v h. refl))
    where
      at :
          (o : Option State)
          → After Unmapped o
          → (fuel : ℕ) × Finished
              (elim o [ none ↦ failed | some s ↦ run p fuel (record s { queue = blocks }) ])
      at none u = (0, tt)
      at (some s) u =
          let s0 = record s { queue = blocks } in
          stops (suc (sum s0)) s0 (suc (length blocks)) (omega arith) (omega arith)
            (same-IsGood p plain closed s s0 refl (initial-IsGood s u)) (d, λ x m. m)
