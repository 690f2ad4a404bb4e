-- ===== src/ThreadInvariance/Visit/Keeps.antt =====
-- A property of the state that every write keeps and every round of enqueuing keeps is kept by the
-- visitors: one lemma for each function of the data flow.
use vari_ocl.Base.{
  ℕ, ◌≡◌, refl, Bool, true, List, [], ◌∷◌, Option, none, some, ◌==◌, if◌then◌else◌, ◌>>=◌, After,
  choose, after_any, after_bind, after_if,
}
use vari_ocl.ControlDependence.{get_output_dependence}
use vari_ocl.ThreadInvariance.Info.{Info, info_eq, info_and_assign}
use vari_ocl.ThreadInvariance.Impl.{
  Program, State, impl_update, get_invariance, store_invariance, is_instruction,
}
use vari_ocl.ThreadInvariance.Visit.Update.{
  user_blocks, insert_block, insert_all, enqueue, is_affected, update_argument, update_global,
  update_blocks, spread, update_instruction,
}

-- A predicate on sets of blocks that the blocks of the program pass.
pub record Keeps (p : Program) (Q : List ℕ → Type 0) (P : State → Type 0) : Type 0 where
  pub none_yet : Q []
  pub user :
      (u container : ℕ) (set : List ℕ)
      → p.parent u ≡ some container
      → Q set
      → Q (insert_block container set)
  pub dependent :
      (bb : ℕ) (out set : List ℕ)
      → get_output_dependence true bb p.deps ≡ some out
      → Q set
      → Q (insert_all out set)
  pub stored : (v : ℕ) (i : Info) (s : State) → P s → P (store_invariance p v i s)
  pub queued :
      (blocks : List ℕ) (s : State)
      → Q blocks
      → P s
      → P (record s { queue = enqueue blocks s.queue })
  pub coarse : (s : State) → P s → P (record s { coarse_detected = true })
  pub control : (c : Info) (s : State) → P s → P (record s { current = c })

module _ (p : Program) (Q : List ℕ → Type 0) (P : State → Type 0) (k : Keeps p Q P) where
  open p use {sort, op, parent, users}

  one_user :
      (accept : ℕ → ℕ → Bool) (u : ℕ) (set : List ℕ) (o : Option ℕ)
      → parent u ≡ o
      → Q set
      → Q (elim o [
        | none ↦ set
        | some container ↦ if accept u container then insert_block container set else set
      ])
  one_user accept u set none e q = q
  one_user accept u set (some c) e q =
      choose Q (accept u c) (insert_block c set) set (λ t. k.user u c set e q) (λ f. q)

  keeps-user_blocks :
      (accept : ℕ → ℕ → Bool) (us set : List ℕ) → Q set → Q (user_blocks p accept us set)
  unfolding user_blocks
  keeps-user_blocks accept [] set q = q
  keeps-user_blocks accept (u ∷ us) set q = keeps-user_blocks accept us _ (
      choose Q (is_instruction (sort u)) _ set (λ t. one_user accept u set (parent u) refl q)
        (λ f. q))

  pub keeps-impl_update : (v : ℕ) (i : Info) (s : State) → P s → After P (impl_update p v i s)
  unfolding impl_update
  keeps-impl_update v i s h = after_any P (get_invariance p v s) _ (λ current e.
      after_if P (info_eq current i) (some s) (some (store_invariance p v i s)) (λ t. h)
        (λ f. k.stored v i s h))

  -- A write, and the blocks of the users that are let through.
  write :
      (v : ℕ) (i : Info) (accept : ℕ → ℕ → Bool) (s : State)
      → P s
      → After P (
          impl_update p v i s >>= λ s'.
          some (record s' { queue = enqueue (user_blocks p accept (users v) []) s'.queue }))
  write v i accept s h =
      after_bind P P (impl_update p v i s) _ (keeps-impl_update v i s h) (λ s' h'.
        k.queued (user_blocks p accept (users v) []) s'
          (keeps-user_blocks accept (users v) [] k.none_yet) h')

  pub keeps-update_argument :
      (a : ℕ) (i : Info) (s : State) → P s → After P (update_argument p a i s)
  unfolding update_argument
  keeps-update_argument a i s h = after_any P (get_invariance p a s) _ (λ original e.
      after_if P (info_eq original (info_and_assign original i)) (some s) _ (λ t. h)
        (λ f. write a (info_and_assign original i) (λ u container. true) s h))

  pub keeps-update_global :
      (gv : ℕ) (i : Info) (bb : ℕ) (s : State) → P s → After P (update_global p gv i bb s)
  unfolding update_global
  keeps-update_global gv i bb s h = after_any P (get_invariance p gv s) _ (λ original e.
      after_if P (info_eq original i) (some s) _ (λ t. h)
        (λ f. write gv i (λ u container. p.function_of container == p.function_of bb) s h))

  keeps-update_blocks :
      (bs : List ℕ) (i : Info) (s : State) → P s → After P (update_blocks p bs i s)
  unfolding update_blocks
  keeps-update_blocks [] i s h = h
  keeps-update_blocks (b ∷ bs) i s h = after_any P (get_invariance p b s) _ (λ inv_b e.
      after_bind P P (impl_update p b (info_and_assign inv_b i) s) _
        (keeps-impl_update b (info_and_assign inv_b i) s h)
        (λ s' h'. keeps-update_blocks bs i s' h'))

  keeps-spread : (v bb : ℕ) (i : Info) (s : State) → P s → After P (spread p v bb i s)
  unfolding spread
  keeps-spread v bb i s h =
      let accept = is_affected p bb in
      let blocks = user_blocks p accept (users v) [] in
      let q = keeps-user_blocks accept (users v) [] k.none_yet in
      after_if P (p.is_terminator v) _ (some (record s { queue = enqueue blocks s.queue }))
        (λ t. after_any P (get_output_dependence true bb p.deps) _ (λ out e.
          after_bind P P (update_blocks p out i s) _ (keeps-update_blocks out i s h)
            (λ s' h'. k.queued (insert_all out blocks) s' (k.dependent bb out blocks e q) h')))
        (λ f. k.queued blocks s q h)

  pub keeps-update_instruction :
      (v : ℕ) (i : Info) (s : State) → P s → After P (update_instruction p v i s)
  unfolding update_instruction
  keeps-update_instruction v i s h = after_any P (get_invariance p v s) _ (λ original e.
      after_if P (info_eq original i) (some s) _ (λ t. h)
        (λ f.
          after_bind P P (impl_update p v i s) _ (keeps-impl_update v i s h)
            (λ s' h'. in_block (parent v) s' h')))
    where
      in_block :
          (o : Option ℕ) (s' : State)
          → P s'
          → After P (elim o [ none ↦ some s' | some bb ↦ spread p v bb i s' ])
      in_block none s' h' = h'
      in_block (some bb) s' h' = keeps-spread v bb i s' h'
