-- ===== src/ThreadInvariance/Info/Score.antt =====
-- A number that falls whenever a value falls in the order, and the highest value of each width.
use vari_ocl.Base.{
  ℕ, zero, suc, ◌+◌, ◌≡◌, ◌≤◌, ◌<◌, refl, ap, ◌∙◌, Bool, true, false, not, ◌||◌, List, [], ◌∷◌,
  Option, none, some, length, ◌==◌, if◌then◌else◌, get_elem?, arith, Bool-cases, inl, inr, Both,
  ltb,
}
use vari_ocl.ThreadInvariance.Kind.{InvarianceKind, join, unknown, invariant}
use vari_ocl.ThreadInvariance.Kind.Lattice.{rank}
use vari_ocl.ThreadInvariance.Scalar.{
  Scalar, DimLevel, dim_local, dim_global, dim_max, index, max_axis, scalar, get_invariance,
  or_assign,
}
use vari_ocl.ThreadInvariance.Scalar.Laws.{Same}
use vari_ocl.ThreadInvariance.Info.{
  Info, width, zip_with, info_or_assign, info_eq, replicate, of_width, of_value,
}
use vari_ocl.ThreadInvariance.Info.Merge.{SameAll, info_eq_iff}
use vari_ocl.ThreadInvariance.Info.Order.{LeScalar, LeAll, Le, LeAll-length, LeAll-refl}

-- The six kinds of a scalar.
abbrev at : DimLevel → ℕ → Scalar → ℕ
at level j s = rank (get_invariance level j s)

pub score_scalar : Scalar → ℕ
score_scalar s =
    at dim_local 0 s
    + at dim_local 1 s
    + at dim_local 2 s
    + at dim_global 0 s
    + at dim_global 1 s
    + at dim_global 2 s

pub score : List Scalar → ℕ
score [] = 0
score (s ∷ ss) = score_scalar s + score ss

score_scalar-le : (s t : Scalar) → LeScalar s t → score_scalar s ≤ score_scalar t
unfolding score_scalar
score_scalar-le s t h = omega (
  arith,
  h dim_local 0,
  h dim_local 1,
  h dim_local 2,
  h dim_global 0,
  h dim_global 1,
  h dim_global 2,
)

pub score-le : (ss ts : List Scalar) → LeAll ss ts → score ss ≤ score ts
unfolding score
score-le [] [] h = omega arith
score-le [] (t ∷ ts) h = absurd h
score-le (s ∷ ss) [] h = absurd h
score-le (s ∷ ss) (t ∷ ts) h = omega (arith, score_scalar-le s t h.0, score-le ss ts h.1)

rank_injective : (a b : InvarianceKind) → rank a ≡ rank b → a ≡ b
rank_injective a b h = ground arith

-- Where the score does not fall, no read tells the two apart.
Same-of_score : (s t : Scalar) → LeScalar s t → score_scalar t ≤ score_scalar s → Same t s
unfolding score_scalar get_invariance
Same-of_score s t h k level j = rank_injective _ _ (go level j)
  where
    six :
        (at dim_local 0 t ≡ at dim_local 0 s)
        × (at dim_local 1 t ≡ at dim_local 1 s)
        × (at dim_local 2 t ≡ at dim_local 2 s)
        × (at dim_global 0 t ≡ at dim_global 0 s)
        × (at dim_global 1 t ≡ at dim_global 1 s)
        × (at dim_global 2 t ≡ at dim_global 2 s)
    six = omega (
      arith,
      h dim_local 0,
      h dim_local 1,
      h dim_local 2,
      h dim_global 0,
      h dim_global 1,
      h dim_global 2,
    )

    go : (level : DimLevel) (j : ℕ) → at level j t ≡ at level j s
    go dim_local zero = six.0
    go dim_local (suc zero) = six.1
    go dim_local (suc (suc zero)) = six.2
    go dim_global zero = six.3
    go dim_global (suc zero) = six.4
    go dim_global (suc (suc zero)) = six.5
    go level (suc (suc (suc j))) = ground arith
    go dim_max j = ground arith

SameAll-of_score : (ss ts : List Scalar) → LeAll ss ts → score ts ≤ score ss → SameAll ts ss
unfolding score
SameAll-of_score [] [] h k = tt
SameAll-of_score [] (t ∷ ts) h k = absurd h
SameAll-of_score (s ∷ ss) [] h k = absurd h
SameAll-of_score (s ∷ ss) (t ∷ ts) h k =
    let a = score_scalar-le s t h.0 in
    let b = score-le ss ts h.1 in
    (Same-of_score s t h.0 (omega arith), SameAll-of_score ss ts h.1 (omega arith))

-- A lower value that `operator==` tells apart has a lower score.
pub score-lt :
    (low high : Info)
    → Le low high
    → info_eq high low ≡ false
    → score low.values < score high.values
score-lt low high h e = elim (Bool-cases (ltb (score low.values) (score high.values))) [
  | inl l ↦ ground arith
  | inr l ↦
      let same =
        (info_eq_iff high low).1 (SameAll-of_score low.values high.values h (ground arith)) in
      cc
]

-- The default scalar is the highest, since `unknown` is the highest kind.
rank_bound : (k : InvarianceKind) → rank k ≤ 3
rank_bound k = ground arith

-- Whether a read is in range.
abbrev inside : DimLevel → ℕ → Bool
inside level j = not (not (ltb j max_axis) || not (ltb (index level) 2))

read_scalar :
    (level : DimLevel) (j : ℕ)
    → get_invariance level j scalar ≡ (if inside level j then unknown else invariant)
unfolding scalar get_invariance
read_scalar level j = ground arith

read_outside :
    (level : DimLevel) (j : ℕ) (s : Scalar)
    → inside level j ≡ false
    → get_invariance level j s ≡ invariant
unfolding get_invariance
read_outside level j s h = ground arith

le-scalar : (s : Scalar) → LeScalar s scalar
le-scalar s level j = elim (Bool-cases (inside level j)) [
  | inl e ↦ rw (read_scalar level j, e) (rank_bound (get_invariance level j s))
  | inr e ↦ rw (read_outside level j s e, read_outside level j scalar e) (omega arith)
]

pub LeAll-replicate : (ss : List Scalar) (n : ℕ) → length ss ≡ n → LeAll ss (replicate n)
unfolding replicate
LeAll-replicate [] zero h = tt
LeAll-replicate [] (suc n) h = absurd (omega arith)
LeAll-replicate (s ∷ ss) zero h = absurd (omega arith)
LeAll-replicate (s ∷ ss) (suc n) h = (le-scalar s, LeAll-replicate ss n (omega arith))

length-replicate : (n : ℕ) → length (replicate n) ≡ n
unfolding replicate
length-replicate zero = refl
length-replicate (suc n) = ap suc (length-replicate n)

pub Le-of_value : (a : Info) (n : Option ℕ) → width a ≡ width (of_value n) → Le a (of_value n)
unfolding of_value of_width
Le-of_value a none h = LeAll-replicate a.values 1 (h ∙ refl)
Le-of_value a (some n) h = LeAll-replicate a.values n (h ∙ length-replicate n)

-- The default scalar `|` a value is that value, so the order is kept.
read-or_assign :
    (level : DimLevel) (j : ℕ) (s : Scalar)
    → get_invariance level j (or_assign scalar s) ≡ get_invariance level j s
unfolding get_invariance or_assign scalar join
read-or_assign level j s = ground arith

or_assign-le : (s t : Scalar) → LeScalar s t → LeScalar (or_assign scalar s) (or_assign scalar t)
or_assign-le s t h level j = rw (read-or_assign level j s, read-or_assign level j t) (h level j)

pub or_values-le :
    (n : ℕ) (ss ts : List Scalar)
    → LeAll ss ts
    → LeAll (zip_with or_assign (replicate n) ss) (zip_with or_assign (replicate n) ts)
unfolding replicate
or_values-le zero ss ts h = tt
or_values-le (suc n) [] [] h = LeAll-refl (replicate (suc n))
or_values-le (suc n) [] (t ∷ ts) h = absurd h
or_values-le (suc n) (s ∷ ss) [] h = absurd h
or_values-le (suc n) (s ∷ ss) (t ∷ ts) h = (or_assign-le s t h.0, or_values-le n ss ts h.1)

or_width-le :
    (m : ℕ) (a b : Info)
    → Le a b
    → Le (info_or_assign (of_width m) a) (info_or_assign (of_width m) b)
unfolding info_or_assign of_width
or_width-le m a b h =
    let l = LeAll-length a.values b.values h in
    elim (Bool-cases (width (of_width m) == width a)) [
      | inl e ↦
          let e' : (width (of_width m) == width b) ≡ true = ground arith in
          rw (e, e') (or_values-le m a.values b.values h)
      | inr e ↦
          let e' : (width (of_width m) == width b) ≡ false = ground arith in
          rw (e, e') (LeAll-refl (replicate m))
    ]

-- A condition `|` the fresh value of a branch.
pub info_or_assign-le :
    (n : Option ℕ) (a b : Info)
    → Le a b
    → Le (info_or_assign (of_value n) a) (info_or_assign (of_value n) b)
unfolding of_value
info_or_assign-le none a b h = or_width-le 1 a b h
info_or_assign-le (some n) a b h = or_width-le n a b h

-- Elements and writes to them respect the order.
pub element-le :
    (i : ℕ) (ss ts : List Scalar) → LeAll ss ts → Both LeScalar (get_elem? ss i) (get_elem? ts i)
element-le i [] [] h = tt
element-le i [] (t ∷ ts) h = absurd h
element-le i (s ∷ ss) [] h = absurd h
element-le zero (s ∷ ss) (t ∷ ts) h = h.0
element-le (suc i) (s ∷ ss) (t ∷ ts) h = element-le i ss ts h.1
