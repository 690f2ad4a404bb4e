-- ===== src/ThreadInvariance/Visit/Update.antt =====
-- The three overloads of DataFlow::updateInvariance (ThreadInvariance.cpp).
use vari_ocl.Base.{
  ℕ, Bool, true, not, ◌||◌, List, [], ◌∷◌, ◌++◌, Option, none, some, elem, ◌==◌, if◌then◌else◌,
  ◌>>=◌,
}
use vari_ocl.ControlDependence.{get_output_dependence}
use vari_ocl.ThreadInvariance.Info.{Info, info_eq, info_and_assign}
use vari_ocl.ThreadInvariance.Impl.{
  Program, State, get_invariance, impl_update, is_instruction, is_phi,
}

-- `blocks.insert`, in a set.
abbrev pub insert_block : ℕ → List ℕ → List ℕ
insert_block b set = if elem b set then set else set ++ b ∷ []

abbrev pub insert_all : List ℕ → List ℕ → List ℕ
insert_all [] set = set
insert_all (b ∷ bs) set = insert_all bs (insert_block b set)

-- A block goes to the back of the queue unless it is there.
unfoldable pub enqueue : List ℕ → List ℕ → List ℕ
enqueue [] queue = queue
enqueue (b ∷ bs) queue = enqueue bs (if elem b queue then queue else queue ++ b ∷ [])

module _ (p : Program) where
  open p use {sort, op, parent, users, function_of, is_terminator, deps}

  -- The loop over the uses: the blocks of the users that are instructions in a block and that
  -- `accept` lets through.
  unfoldable pub user_blocks : (ℕ → ℕ → Bool) → List ℕ → List ℕ → List ℕ
  user_blocks accept [] set = set
  user_blocks accept (u ∷ us) set = user_blocks accept us (
      if is_instruction (sort u)
      then (elim (parent u) [
        | none ↦ set
        | some container ↦ if accept u container then insert_block container set else set
      ])
      else set)

  unfoldable pub update_argument : ℕ → Info → State → Option State
  unfolding get_invariance impl_update user_blocks enqueue
  update_argument a result s = get_invariance p a s >>= λ original.
      let actual = info_and_assign original result in
      if info_eq original actual
      then some s
      else (impl_update p a actual s >>= λ s'.
          some (record s' {
            queue = enqueue (user_blocks (λ u container. true) (users a) []) s'.queue;
          }))

  unfoldable pub update_global : ℕ → Info → ℕ → State → Option State
  unfolding get_invariance impl_update user_blocks enqueue
  update_global gv result current_block s = get_invariance p gv s >>= λ original.
      if info_eq original result
      then some s
      else (impl_update p gv result s >>= λ s'.
          let same_function =
            λ (u container : ℕ). function_of container == function_of current_block in
          some (record s' { queue = enqueue (user_blocks same_function (users gv) []) s'.queue }))

  -- The blocks that depend on a terminator: their own values are merged with the new one.
  unfoldable pub update_blocks : List ℕ → Info → State → Option State
  unfolding get_invariance impl_update
  update_blocks [] result s = some s
  update_blocks (b ∷ bs) result s = get_invariance p b s >>= λ inv_b.
      impl_update p b (info_and_assign inv_b result) s >>= λ s'. update_blocks bs result s'

  -- A user in the block of the value itself comes behind it, unless it is a PHI.
  abbrev pub is_affected : ℕ → ℕ → ℕ → Bool
  is_affected current_block u container = not (container == current_block) || is_phi (op u)

  -- What follows the write: the blocks to visit again.
  unfoldable pub spread : ℕ → ℕ → Info → State → Option State
  unfolding user_blocks enqueue update_blocks
  spread v current_block result s =
      let blocks = user_blocks (is_affected current_block) (users v) [] in
      if is_terminator v
      then (get_output_dependence true current_block deps >>= λ out.
          update_blocks out result s >>= λ s'.
          some (record s' { queue = enqueue (insert_all out blocks) s'.queue }))
      else some (record s { queue = enqueue blocks s.queue })

  unfoldable pub update_instruction : ℕ → Info → State → Option State
  unfolding get_invariance impl_update spread
  update_instruction v result s = get_invariance p v s >>= λ original.
      if info_eq original result
      then some s
      else (impl_update p v result s >>= λ s'. elim (parent v) [
        | none ↦ some s'
        | some current_block ↦ spread v current_block result s'
      ])
