-- ===== src/ThreadInvariance/Info/Order.antt =====
-- The order of the values by how much is known to be invariant, and a number that falls along it.
use vari_ocl.Base.{
  ℕ, suc, ◌≡◌, ◌≤◌, refl, ap, List, [], ◌∷◌, map, length, ◌==◌, arith, Bool-cases, inl, inr,
}
use vari_ocl.ThreadInvariance.Kind.Lattice.{rank, meet-join_rank}
use vari_ocl.ThreadInvariance.Scalar.{Scalar, DimLevel, get_invariance, and_assign}
use vari_ocl.ThreadInvariance.Scalar.Laws.{get_invariance-and_assign}
use vari_ocl.ThreadInvariance.Info.{
  Info, width, zip_with, merge_narrow, merge_wide, info_and_assign,
}
use vari_ocl.ThreadInvariance.Info.Merge.{merge_equal, merge_one, merge_by_one, merge_none}

abbrev pub LeScalar : Scalar → Scalar → Type 0
LeScalar s t =
    (level : DimLevel) (j : ℕ) → rank (get_invariance level j s) ≤ rank (get_invariance level j t)

abbrev pub LeAll : List Scalar → List Scalar → Type 0
LeAll [] [] = Unit {0}
LeAll [] (t ∷ ts) = ⊥
LeAll (s ∷ ss) [] = ⊥
LeAll (s ∷ ss) (t ∷ ts) = LeScalar s t × LeAll ss ts

-- Of one width, and element by element.
abbrev pub Le : Info → Info → Type 0
Le a b = LeAll a.values b.values

pub LeAll-refl : (ss : List Scalar) → LeAll ss ss
LeAll-refl [] = tt
LeAll-refl (s ∷ ss) = (λ level j. omega arith, LeAll-refl ss)

pub LeAll-trans : (ss ts us : List Scalar) → LeAll ss ts → LeAll ts us → LeAll ss us
LeAll-trans [] [] us h k = k
LeAll-trans [] (t ∷ ts) us h k = absurd h
LeAll-trans (s ∷ ss) [] us h k = absurd h
LeAll-trans (s ∷ ss) (t ∷ ts) [] h k = absurd k
LeAll-trans (s ∷ ss) (t ∷ ts) (u ∷ us) h k =
    (λ level j. omega (arith, h.0 level j, k.0 level j), LeAll-trans ss ts us h.1 k.1)

pub LeAll-length : (ss ts : List Scalar) → LeAll ss ts → length ss ≡ length ts
LeAll-length [] [] h = refl
LeAll-length [] (t ∷ ts) h = absurd h
LeAll-length (s ∷ ss) [] h = absurd h
LeAll-length (s ∷ ss) (t ∷ ts) h = ap suc (LeAll-length ss ts h.1)

-- `&=` respects the order.
and_assign-le :
    (s s' t t' : Scalar)
    → LeScalar s s'
    → LeScalar t t'
    → LeScalar (and_assign s t) (and_assign s' t')
and_assign-le s s' t t' h k level j =
    let a = get_invariance level j s in
    let b = get_invariance level j t in
    let a' = get_invariance level j s' in
    let b' = get_invariance level j t' in
    rw (get_invariance-and_assign level j s t, get_invariance-and_assign level j s' t')
      (ground (arith, (meet-join_rank a b).0, (meet-join_rank a' b').0, h level j, k level j))

zip_with-le :
    (ss ss' ts ts' : List Scalar)
    → LeAll ss ss'
    → LeAll ts ts'
    → LeAll (zip_with and_assign ss ts) (zip_with and_assign ss' ts')
zip_with-le [] [] ts ts' h k = tt
zip_with-le [] (s ∷ ss) ts ts' h k = absurd h
zip_with-le (s ∷ ss) [] ts ts' h k = absurd h
zip_with-le (s ∷ ss) (s' ∷ ss') [] [] h k = h
zip_with-le (s ∷ ss) (s' ∷ ss') [] (t ∷ ts) h k = absurd k
zip_with-le (s ∷ ss) (s' ∷ ss') (t ∷ ts) [] h k = absurd k
zip_with-le (s ∷ ss) (s' ∷ ss') (t ∷ ts) (t' ∷ ts') h k =
    (and_assign-le s s' t t' h.0 k.0, zip_with-le ss ss' ts ts' h.1 k.1)

merge_narrow-le :
    (ss ss' ts ts' : List Scalar)
    → LeAll ss ss'
    → LeAll ts ts'
    → LeAll (merge_narrow ss ts) (merge_narrow ss' ts')
merge_narrow-le [] [] ts ts' h k = tt
merge_narrow-le [] (s ∷ ss) ts ts' h k = absurd h
merge_narrow-le (s ∷ ss) [] ts ts' h k = absurd h
merge_narrow-le (s ∷ ss) (s' ∷ ss') [] [] h k = h
merge_narrow-le (s ∷ ss) (s' ∷ ss') [] (t ∷ ts) h k = absurd k
merge_narrow-le (s ∷ ss) (s' ∷ ss') (t ∷ ts) [] h k = absurd k
merge_narrow-le (s ∷ ss) (s' ∷ ss') (t ∷ ts) (t' ∷ ts') h k = (and_assign-le s s' t t' h.0 k.0, h.1)

map-le :
    (ss ss' : List Scalar) (t t' : Scalar)
    → LeAll ss ss'
    → LeScalar t t'
    → LeAll (map (λ s. and_assign s t) ss) (map (λ s. and_assign s t') ss')
map-le [] [] t t' h k = tt
map-le [] (s ∷ ss) t t' h k = absurd h
map-le (s ∷ ss) [] t t' h k = absurd h
map-le (s ∷ ss) (s' ∷ ss') t t' h k = (and_assign-le s s' t t' h.0 k, map-le ss ss' t t' h.1 k)

merge_wide-le :
    (ss ss' ts ts' : List Scalar)
    → LeAll ss ss'
    → LeAll ts ts'
    → LeAll (merge_wide ss ts) (merge_wide ss' ts')
merge_wide-le ss ss' [] [] h k = h
merge_wide-le ss ss' [] (t ∷ ts) h k = absurd k
merge_wide-le ss ss' (t ∷ ts) [] h k = absurd k
merge_wide-le ss ss' (t ∷ ts) (t' ∷ ts') h k = map-le ss ss' t t' h k.0

pub info_and_assign-le :
    (a a' b b' : Info) → Le a a' → Le b b' → Le (info_and_assign a b) (info_and_assign a' b')
info_and_assign-le a a' b b' h k =
    let l = LeAll-length a.values a'.values h in
    let m = LeAll-length b.values b'.values k in
    elim (Bool-cases (width a == width b)) [
      | inl e ↦
          rw (merge_equal a b e, merge_equal a' b' (ground arith))
            (zip_with-le a.values a'.values b.values b'.values h k)
      | inr e ↦ elim (Bool-cases (width a == 1)) [
        | inl f ↦
            rw (merge_one a b e f, merge_one a' b' (ground arith) (ground arith))
              (merge_narrow-le a.values a'.values b.values b'.values h k)
        | inr f ↦ elim (Bool-cases (width b == 1)) [
          | inl g ↦
              rw
                (
                  merge_by_one a b e f g,
                  merge_by_one a' b' (ground arith) (ground arith) (ground arith),
                )
                (merge_wide-le a.values a'.values b.values b'.values h k)
          | inr g ↦
              rw
                (
                  merge_none a b e f g,
                  merge_none a' b' (ground arith) (ground arith) (ground arith),
                )
                h
        ]
      ]
    ]

-- `&=` never raises a value.
and_assign-lower : (s t : Scalar) → LeScalar (and_assign s t) s
and_assign-lower s t level j =
    let a = get_invariance level j s in
    let b = get_invariance level j t in
    rw (get_invariance-and_assign level j s t) (ground (arith, (meet-join_rank a b).0))

zip_with-lower : (ss ts : List Scalar) → LeAll (zip_with and_assign ss ts) ss
zip_with-lower [] ts = tt
zip_with-lower (s ∷ ss) [] = LeAll-refl (s ∷ ss)
zip_with-lower (s ∷ ss) (t ∷ ts) = (and_assign-lower s t, zip_with-lower ss ts)

merge_narrow-lower : (ss ts : List Scalar) → LeAll (merge_narrow ss ts) ss
merge_narrow-lower [] ts = tt
merge_narrow-lower (s ∷ ss) [] = LeAll-refl (s ∷ ss)
merge_narrow-lower (s ∷ ss) (t ∷ ts) = (and_assign-lower s t, LeAll-refl ss)

map-lower : (ss : List Scalar) (t : Scalar) → LeAll (map (λ s. and_assign s t) ss) ss
map-lower [] t = tt
map-lower (s ∷ ss) t = (and_assign-lower s t, map-lower ss t)

merge_wide-lower : (ss ts : List Scalar) → LeAll (merge_wide ss ts) ss
merge_wide-lower ss [] = LeAll-refl ss
merge_wide-lower ss (t ∷ ts) = map-lower ss t

pub info_and_assign-lower : (a b : Info) → Le (info_and_assign a b) a
info_and_assign-lower a b = elim (Bool-cases (width a == width b)) [
  | inl e ↦ rw (merge_equal a b e) (zip_with-lower a.values b.values)
  | inr e ↦ elim (Bool-cases (width a == 1)) [
    | inl f ↦ rw (merge_one a b e f) (merge_narrow-lower a.values b.values)
    | inr f ↦ elim (Bool-cases (width b == 1)) [
      | inl g ↦ rw (merge_by_one a b e f g) (merge_wide-lower a.values b.values)
      | inr g ↦ rw (merge_none a b e f g) (LeAll-refl a.values)
    ]
  ]
]
