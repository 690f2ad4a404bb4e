-- ===== src/ThreadInvariance/Build/Descent.antt =====
-- A write of a lower value: what it changes of the values that are read, and of their sum.
use vari_ocl.Base.{
  ℕ, ◌+◌, ◌≡◌, ◌≤◌, ◌<◌, refl, ap, subst, ◌∙◌, Bool, true, false, List, [], ◌∷◌, Option, none, some,
  elem, ◌==◌, ==_iff, if◌then◌else◌, ◌>>=◌, arith, both_refl, Bool-cases, inl, inr, Map, lookup,
  insert, lookup-insert, is_some,
}
use vari_ocl.ThreadInvariance.Kind.{invariant}
use vari_ocl.ThreadInvariance.Info.{Info, info_reset, of_value, reset_pointer}
use vari_ocl.ThreadInvariance.Info.Order.{Le, LeAll-refl}
use vari_ocl.ThreadInvariance.Info.Score.{score, score-le}
use vari_ocl.ThreadInvariance.Impl.{
  Program, State, Sort, argument, instruction, block, other_value, global_variable, undef, constant,
  constant_int, constant_expr, get_invariance, unmapped, store_invariance,
}
use vari_ocl.ThreadInvariance.Visit.Common.{fresh}
use vari_ocl.ThreadInvariance.Build.Plain.{changes, chain, IsPlain}
use vari_ocl.ThreadInvariance.Build.Mono.{Below}

module _ (p : Program) where
  open p use {sort, space, elements, blocks, insts, op}

  -- The value of an instruction or a block.
  abbrev pub current : ℕ → Map Info → Info
  current v m = elim (lookup v m) [ some i ↦ i | none ↦ fresh p v ]

  unmapped-changes :
      (m : Map Info) (v : ℕ) (k : Sort) → changes k ≡ true → unmapped p m v k ≡ some (fresh p v)
  unfolding unmapped
  unmapped-changes m v instruction h = refl
  unmapped-changes m v block h = refl
  unmapped-changes m v argument h = cc
  unmapped-changes m v other_value h = cc
  unmapped-changes m v global_variable h = cc
  unmapped-changes m v undef h = cc
  unmapped-changes m v constant h = cc
  unmapped-changes m v (constant_int w z) h = cc
  unmapped-changes m v (constant_expr o k) h = cc

  pub get_invariance-changes :
      (v : ℕ) (s : State)
      → changes (sort v) ≡ true
      → get_invariance p v s ≡ some (current v s.variances)
  unfolding get_invariance
  get_invariance-changes v s h = go (lookup v s.variances)
    where
      go :
          (o : Option Info)
          → elim o [ some i ↦ some i | none ↦ unmapped p s.variances v (sort v) ]
            ≡ some (elim o [ some i ↦ i | none ↦ fresh p v ])
      go none = unmapped-changes s.variances v (sort v) h
      go (some i) = refl

  apart : (w v : ℕ) → changes (sort w) ≡ true → changes (sort v) ≡ false → (w == v) ≡ false
  apart w v h k = elim (Bool-cases (w == v)) [
    | inl e ↦ let same = ap (λ x. changes (sort x)) ((==_iff w v).0 e) in cc
    | inr e ↦ e
  ]

  lookup-away :
      (m : Map Info) (w v : ℕ) (r : Info) → (w == v) ≡ false → lookup v (insert w r m) ≡ lookup v m
  lookup-away m w v r e = lookup-insert w v r m ∙ ap (λ b. if b then some r else lookup v m) e

  -- The other values do not change.
  unmapped-insert :
      (m : Map Info) (w v : ℕ) (r : Info) (k : Sort)
      → changes (sort w) ≡ true
      → chain p k ≡ true
      → unmapped p (insert w r m) v k ≡ unmapped p m v k
  unfolding unmapped
  unmapped-insert m w v r argument h c = refl
  unmapped-insert m w v r instruction h c = refl
  unmapped-insert m w v r block h c = refl
  unmapped-insert m w v r other_value h c = refl
  unmapped-insert m w v r global_variable h c = refl
  unmapped-insert m w v r undef h c = refl
  unmapped-insert m w v r constant h c = refl
  unmapped-insert m w v r (constant_int x z) h c = refl
  unmapped-insert m w v r (constant_expr o k) h c =
      let plain = some (info_reset invariant (of_value (elements v))) in
      ap
        (λ (x : Option Info).
          if is_some (space v)
          then (elim x [
            | some i ↦ reset_pointer o i
            | none ↦ unmapped p (insert w r m) o k >>= reset_pointer o
          ])
          else plain)
        (lookup-away m w o r (apart w o h (ground arith)))
      ∙ ap
          (λ (y : Option Info).
            if is_some (space v)
            then (elim (lookup o m) [ some i ↦ reset_pointer o i | none ↦ y >>= reset_pointer o ])
            else plain)
          (unmapped-insert m w o r k h (ground arith))

  get_invariance-store :
      (w v : ℕ) (r : Info) (s : State)
      → changes (sort w) ≡ true
      → changes (sort v) ≡ false
      → chain p (sort v) ≡ true
      → get_invariance p v (store_invariance p w r s) ≡ get_invariance p v s
  unfolding get_invariance
  get_invariance-store w v r s h k c =
      let m = s.variances in
      ap
        (λ (x : Option Info). elim x [
          | some i ↦ some i
          | none ↦ unmapped p (insert w r m) v (sort v)
        ])
        (lookup-away m w v r (apart w v h k))
      ∙ ap (λ (y : Option Info). elim (lookup v m) [ some i ↦ some i | none ↦ y ])
          (unmapped-insert m w v r (sort v) h c)

  pub current-store :
      (w v : ℕ) (r : Info) (m : Map Info)
      → current v (insert w r m) ≡ (if w == v then r else current v m)
  current-store w v r m =
      ap (λ (o : Option Info). elim o [ some i ↦ i | none ↦ fresh p v ]) (lookup-insert w v r m)
      ∙ push (w == v)
    where
      push :
          (b : Bool)
          → elim (if b then some r else lookup v m) [ some i ↦ i | none ↦ fresh p v ]
            ≡ (if b then r else current v m)
      push true = refl
      push false = refl

  pub current-lower :
      (w v : ℕ) (r : Info) (m : Map Info)
      → Le r (current w m)
      → Le (current v (insert w r m)) (current v m)
  current-lower w v r m h = elim (Bool-cases (w == v)) [
    | inl e ↦ rw (current-store w v r m, e) (subst (λ x. Le r (current x m)) ((==_iff w v).0 e) h)
    | inr e ↦ rw (current-store w v r m, e) (LeAll-refl (current v m).values)
  ]

  pub Le-refl : (a : Info) → Le a a
  Le-refl a = LeAll-refl a.values

  pub store-Below :
      (plain : IsPlain p) (w : ℕ) (r : Info) (s : State)
      → changes (sort w) ≡ true
      → Le r (current w s.variances)
      → Below p (store_invariance p w r s) s
  store-Below plain w r s h l v = elim (Bool-cases (changes (sort v))) [
    | inl e ↦
        rw (get_invariance-changes v (store_invariance p w r s) e, get_invariance-changes v s e)
          (current-lower w v r s.variances l)
    | inr e ↦
        rw (get_invariance-store w v r s h e (plain.chains v))
          (both_refl Le (get_invariance p v s) Le-refl)
  ]

  -- The sum of the scores of all instructions.
  pub sum_insts : List ℕ → Map Info → ℕ
  sum_insts [] m = 0
  sum_insts (i ∷ is) m = score (current i m).values + sum_insts is m

  pub sum_blocks : List ℕ → Map Info → ℕ
  unfolding sum_insts
  sum_blocks [] m = 0
  sum_blocks (b ∷ bs) m = sum_insts (insts b) m + sum_blocks bs m

  -- A second map is lower.
  abbrev Lower : Map Info → Map Info → Type 0
  Lower m' m = (v : ℕ) → Le (current v m') (current v m)

  sum_insts-le : (is : List ℕ) (m' m : Map Info) → Lower m' m → sum_insts is m' ≤ sum_insts is m
  unfolding sum_insts
  sum_insts-le [] m' m l = omega arith
  sum_insts-le (i ∷ is) m' m l =
      omega
        (arith, score-le (current i m').values (current i m).values (l i), sum_insts-le is m' m l)

  pub sum_blocks-le :
      (bs : List ℕ) (m' m : Map Info) → Lower m' m → sum_blocks bs m' ≤ sum_blocks bs m
  unfolding sum_blocks
  sum_blocks-le [] m' m l = omega arith
  sum_blocks-le (b ∷ bs) m' m l =
      omega (arith, sum_insts-le (insts b) m' m l, sum_blocks-le bs m' m l)

  module _ (m' m : Map Info) (l : Lower m' m) (i : ℕ) where
    abbrev Falls : Type 0
    Falls = score (current i m').values < score (current i m).values

    sum_insts-lt : (is : List ℕ) → Falls → elem i is ≡ true → sum_insts is m' < sum_insts is m
    unfolding sum_insts
    sum_insts-lt [] f e = cc
    sum_insts-lt (j ∷ is) f e = elim (Bool-cases (i == j)) [
      | inl at ↦
          let here =
            subst (λ x. score (current x m').values < score (current x m).values)
              ((==_iff i j).0 at) f in
          omega (arith, here, sum_insts-le is m' m l)
      | inr away ↦ omega (
        arith,
        score-le (current j m').values (current j m).values (l j),
        sum_insts-lt is f (ground arith),
      )
    ]

    pub sum_blocks-lt :
        (bb : ℕ) (bs : List ℕ)
        → Falls
        → elem i (insts bb) ≡ true
        → elem bb bs ≡ true
        → sum_blocks bs m' < sum_blocks bs m
    unfolding sum_blocks
    sum_blocks-lt bb [] f e g = cc
    sum_blocks-lt bb (b ∷ bs) f e g = elim (Bool-cases (bb == b)) [
      | inl at ↦
          let e' = subst (λ x. elem i (insts x) ≡ true) ((==_iff bb b).0 at) e in
          omega (arith, sum_insts-lt (insts b) f e', sum_blocks-le bs m' m l)
      | inr away ↦
          omega (arith, sum_insts-le (insts b) m' m l, sum_blocks-lt bb bs f e (ground arith))
    ]
