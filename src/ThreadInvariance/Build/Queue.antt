-- ===== src/ThreadInvariance/Build/Queue.antt =====
-- The work queue of Build along its rounds.
use vari_ocl.Base.{
  ℕ, ◌≡◌, ◌≤◌, ◌<◌, refl, subst, sym, Bool, true, false, not, List, [], ◌∷◌, ◌++◌, some, elem,
  elem-append, elem-keep, keep, length, IsDistinct, ◌==◌, ==_refl, ==_iff, arith, After, Bool-cases,
  inl, inr,
}
use vari_ocl.Base.Reach.{Sub}
use vari_ocl.ControlDependence.{get_output_dependence}
use vari_ocl.ThreadInvariance.Impl.{Program, State}
use vari_ocl.ThreadInvariance.Visit.Update.{enqueue, insert_block, insert_all}
use vari_ocl.ThreadInvariance.Visit.Keeps.{Keeps}
use vari_ocl.ThreadInvariance.Build.{analyze_block}
use vari_ocl.ThreadInvariance.Build.Kept.{keeps-analyze_block}

-- The states that the loop of Build comes through: each round takes the block in front.
pub data Reached (p : Program) (s : State) : State → Type 0 where
  start : Reached p s s
  round :
      {t u : State} {queue : List ℕ} (bb : ℕ)
      → Reached p s t
      → t.queue ≡ bb ∷ queue
      → analyze_block p bb (record t { queue = queue }) ≡ some u
      → Reached p s u

-- Users and dependent blocks are in the function.
pub record IsClosed (p : Program) : Type 0 where
  pub parents : (u bb : ℕ) → p.parent u ≡ some bb → elem bb p.blocks ≡ true
  pub dependents :
      (bb : ℕ) (out : List ℕ) → get_output_dependence true bb p.deps ≡ some out → Sub out p.blocks

IsDistinct-snoc :
    (xs : List ℕ) (b : ℕ) → IsDistinct xs → elem b xs ≡ false → IsDistinct (xs ++ b ∷ [])
IsDistinct-snoc [] b d e = (refl, tt)
IsDistinct-snoc (x ∷ xs) b d e = (
  ground (arith, elem-append x xs (b ∷ []), ==_iff x b, ==_refl b, d.0),
  IsDistinct-snoc xs b d.1 (ground arith),
)

Sub-snoc : (xs ys : List ℕ) (b : ℕ) → Sub xs ys → elem b ys ≡ true → Sub (xs ++ b ∷ []) ys
Sub-snoc xs ys b h m x e = elim (Bool-cases (x == b)) [
  | inl at ↦ subst (λ z. elem z ys ≡ true) (sym ((==_iff x b).0 at)) m
  | inr away ↦ h x (ground (arith, elem-append x xs (b ∷ [])))
]

-- The queue has distinct blocks of the function.
abbrev pub IsQueue : List ℕ → List ℕ → Type 0
IsQueue blocks queue = IsDistinct queue × Sub queue blocks

enqueue-IsQueue :
    (blocks bs queue : List ℕ)
    → Sub bs blocks
    → IsQueue blocks queue
    → IsQueue blocks (enqueue bs queue)
unfolding enqueue
enqueue-IsQueue blocks [] queue h q = q
enqueue-IsQueue blocks (b ∷ bs) queue h q =
    let m = h b (ground (arith, ==_refl b)) in
    let rest : Sub bs blocks = λ x e. h x (ground arith) in
    elim (Bool-cases (elem b queue)) [
      | inl e ↦ rw e (enqueue-IsQueue blocks bs queue rest q)
      | inr e ↦ rw e (
          enqueue-IsQueue blocks bs (queue ++ b ∷ []) rest
            (IsDistinct-snoc queue b q.0 e, Sub-snoc queue blocks b q.1 m))
    ]

insert_block-Sub :
    (b : ℕ) (set blocks : List ℕ)
    → elem b blocks ≡ true
    → Sub set blocks
    → Sub (insert_block b set) blocks
insert_block-Sub b set blocks m h = elim (Bool-cases (elem b set)) [
  | inl e ↦ rw e h
  | inr e ↦ rw e (Sub-snoc set blocks b h m)
]

insert_all-Sub :
    (bs set blocks : List ℕ) → Sub bs blocks → Sub set blocks → Sub (insert_all bs set) blocks
insert_all-Sub [] set blocks h k = k
insert_all-Sub (b ∷ bs) set blocks h k =
    insert_all-Sub bs (insert_block b set) blocks (λ x e. h x (ground arith))
      (insert_block-Sub b set blocks (h b (ground (arith, ==_refl b))) k)

module _ (p : Program) (c : IsClosed p) where
  pub queue_Keeps : Keeps p (λ set. Sub set p.blocks) (λ s. IsQueue p.blocks s.queue)
  queue_Keeps = record {
    none_yet = λ x e. cc;
    user = λ u b set e h. insert_block-Sub b set p.blocks (c.parents u b e) h;
    dependent = λ bb out set e h. insert_all-Sub out set p.blocks (c.dependents bb out e) h;
    stored = λ v i s h. h;
    queued = λ bs s h q. enqueue-IsQueue p.blocks bs s.queue h q;
    coarse = λ s h. h;
    control = λ i s h. h;
  }

  Reached-IsQueue :
      {s t : State} → IsQueue p.blocks s.queue → Reached p s t → IsQueue p.blocks t.queue
  Reached-IsQueue q start = q
  Reached-IsQueue {s} q (round {t} {u} {queue} bb r e a) =
      let h : IsQueue p.blocks (bb ∷ queue) = subst (IsQueue p.blocks) e (Reached-IsQueue q r) in
      subst (After (λ s'. IsQueue p.blocks s'.queue)) a (
        keeps-analyze_block p (λ set. Sub set p.blocks) (λ s'. IsQueue p.blocks s'.queue)
          queue_Keeps bb (record t { queue = queue }) (h.0.1, λ x m. h.1 x (ground arith)))

length-keep_le : (p : ℕ → Bool) (xs : List ℕ) → length (keep p xs) ≤ length xs
length-keep_le p [] = omega arith
length-keep_le p (x ∷ xs) = ground (arith, length-keep_le p xs)

length-keep_lt :
    (b : ℕ) (xs : List ℕ) → elem b xs ≡ true → length (keep (λ x. not (x == b)) xs) < length xs
length-keep_lt b [] m = cc
length-keep_lt b (x ∷ xs) m = ground (
  arith,
  length-keep_le (λ x. not (x == b)) xs,
  length-keep_lt b xs,
  ==_iff b x,
  ==_iff x b,
  ==_refl b,
)

-- Distinct members of a list are no more than the list has.
pub length-Sub : (xs ys : List ℕ) → IsDistinct xs → Sub xs ys → length xs ≤ length ys
length-Sub [] ys d h = omega arith
length-Sub (x ∷ xs) ys d h =
    let q = λ (y : ℕ). not (y == x) in
    let others : Sub xs (keep q ys) =
      λ y m. ground (arith, elem-keep q y ys, h y, ==_iff y x, d.0) in
    omega (
      arith,
      length-keep_lt x ys (h x (ground (arith, ==_refl x))),
      length-Sub xs (keep q ys) d.1 others,
    )

-- From a queue of all blocks, which are distinct and which the users and the dependent blocks are
-- among, every round of Build leaves a queue without repetition and no longer than the list of
-- blocks.
pub queue_bounded :
    (p : Program)
    → IsClosed p
    → IsDistinct p.blocks
    → (s t : State) → s.queue ≡ p.blocks
    → Reached p s t
    → IsDistinct t.queue × (length t.queue ≤ length p.blocks)
queue_bounded p c d s t e r =
    let q0 : IsQueue p.blocks s.queue = subst (IsQueue p.blocks) (sym e) (d, λ x m. m) in
    let q = Reached-IsQueue p c q0 r in (q.0, length-Sub t.queue p.blocks q.0 q.1)
