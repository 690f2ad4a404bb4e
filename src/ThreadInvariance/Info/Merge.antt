-- ===== src/ThreadInvariance/Info/Merge.antt =====
-- What `&=` does at every combination of widths.
use vari_ocl.Base.{
  ℕ, zero, suc, ◌≡◌, refl, true, false, ◌||◌, Option, none, some, get_elem?, if◌then◌else◌, List,
  [], ◌∷◌, map, arith, length, ◌==◌, ap, ◌↔◌, Bool-cases, inl, inr,
}
use vari_ocl.ThreadInvariance.Kind.{InvarianceKind, meet}
use vari_ocl.ThreadInvariance.Scalar.{DimLevel, get_invariance, Scalar, and_assign, or_assign}
use vari_ocl.ThreadInvariance.Scalar.Laws.{Same, ne_iff, and_assign_laws, get_invariance-and_assign}
use vari_ocl.ThreadInvariance.Info.{
  Info, width, any_ne, info_eq, zip_with, merge_narrow, merge_wide, info_and_assign, info_or_assign,
  element,
}

length-zip_with :
    (f : Scalar → Scalar → Scalar) (ss ts : List Scalar) → length (zip_with f ss ts) ≡ length ss
length-zip_with f [] ts = refl
length-zip_with f (s ∷ ss) [] = refl
length-zip_with f (s ∷ ss) (t ∷ ts) = ap suc (length-zip_with f ss ts)

pub length-map : (f : Scalar → Scalar) (ss : List Scalar) → length (map f ss) ≡ length ss
length-map f [] = refl
length-map f (s ∷ ss) = ap suc (length-map f ss)

length-merge_narrow : (ss ts : List Scalar) → length (merge_narrow ss ts) ≡ length ss
length-merge_narrow [] ts = refl
length-merge_narrow (s ∷ ss) [] = refl
length-merge_narrow (s ∷ ss) (t ∷ ts) = refl

length-merge_wide : (ss ts : List Scalar) → length (merge_wide ss ts) ≡ length ss
length-merge_wide ss [] = refl
length-merge_wide ss (t ∷ ts) = length-map (λ s. and_assign s t) ss

-- No operator that assigns changes the width.
pub width-assign :
    (a b : Info) → (width (info_and_assign a b) ≡ width a) × (width (info_or_assign a b) ≡ width a)
unfolding info_and_assign info_or_assign
width-assign a b = (
  ground (
    arith,
    length-zip_with and_assign a.values b.values,
    length-merge_narrow a.values b.values,
    length-merge_wide a.values b.values,
  ),
  ground (arith, length-zip_with or_assign a.values b.values),
)

-- The elements agree in pairs.
abbrev pub SameAll : List Scalar → List Scalar → Type 0
SameAll [] [] = Unit {0}
SameAll [] (t ∷ ts) = ⊥
SameAll (s ∷ ss) [] = ⊥
SameAll (s ∷ ss) (t ∷ ts) = Same s t × SameAll ss ts

any_ne_iff :
    (ss ts : List Scalar) → ((length ss ≡ length ts) × (any_ne ss ts ≡ false)) ↔ SameAll ss ts
any_ne_iff [] [] = (λ h. tt, λ h. (refl, refl))
any_ne_iff [] (t ∷ ts) = (λ h. absurd (omega arith), λ h. absurd h)
any_ne_iff (s ∷ ss) [] = (λ h. absurd (omega arith), λ h. absurd h)
any_ne_iff (s ∷ ss) (t ∷ ts) =
    let rest = any_ne_iff ss ts in
    let one = ne_iff s t in
    (
      λ h. (one.0 (ground arith), rest.0 (omega arith, ground arith)),
      λ h. let (l, e) = rest.1 h.1 in let o = one.1 h.0 in (ap suc l, ground arith),
    )

-- `operator==` holds exactly of values of one width whose elements agree, at every level and axis, on
-- the kind that `getInvariance` reads; the base pointers, which `getBasePointer` reads, do not count.
pub info_eq_iff : (a b : Info) → (info_eq a b ≡ true) ↔ SameAll a.values b.values
unfolding info_eq
info_eq_iff a b =
    let r = any_ne_iff a.values b.values in
    (λ h. r.0 (ground arith, ground arith), λ h. let (l, e) = r.1 h in ground arith)

-- Each kind of an element after a merge of two values of one width is the lower of the two.
SameAll-comm :
    (ss ts : List Scalar)
    → length ss ≡ length ts
    → SameAll (zip_with and_assign ss ts) (zip_with and_assign ts ss)
SameAll-comm [] [] h = tt
SameAll-comm [] (t ∷ ts) h = absurd (omega arith)
SameAll-comm (s ∷ ss) [] h = absurd (omega arith)
SameAll-comm (s ∷ ss) (t ∷ ts) h = ((and_assign_laws s t).0, SameAll-comm ss ts (omega arith))

module _ (a b : Info) where
  pub merge_equal :
      (width a == width b) ≡ true
      → info_and_assign a b ≡ record { values = zip_with and_assign a.values b.values }
  unfolding info_and_assign
  merge_equal e = rw e

  pub merge_one :
      (width a == width b) ≡ false
      → (width a == 1) ≡ true
      → info_and_assign a b ≡ record { values = merge_narrow a.values b.values }
  unfolding info_and_assign
  merge_one e f = rw (e, f)

  pub merge_by_one :
      (width a == width b) ≡ false
      → (width a == 1) ≡ false
      → (width b == 1) ≡ true
      → info_and_assign a b ≡ record { values = merge_wide a.values b.values }
  unfolding info_and_assign
  merge_by_one e f g = rw (e, f, g)

  pub merge_none :
      (width a == width b) ≡ false
      → (width a == 1) ≡ false
      → (width b == 1) ≡ false
      → info_and_assign a b ≡ a
  unfolding info_and_assign
  merge_none e f g = rw (e, f, g)

-- The element of `b` that `a &= b` merges into the element at `i` of `a`.
pub partner : Info → Info → ℕ → Option Scalar
partner a b i =
    if width a == width b
    then get_elem? b.values i
    else if width a == 1 || width b == 1
    then get_elem? b.values 0
    else none

-- The kind that a read sees once the partner is merged in.
abbrev pub met : DimLevel → ℕ → Scalar → Option Scalar → InvarianceKind
met level j s none = get_invariance level j s
met level j s (some t) = meet (get_invariance level j s) (get_invariance level j t)

-- An element with its partner merged in.
abbrev merged : Scalar → Option Scalar → Scalar
merged s none = s
merged s (some t) = and_assign s t

merged-met :
    (level : DimLevel) (j : ℕ) (s : Scalar) (o : Option Scalar)
    → get_invariance level j (merged s o) ≡ met level j s o
merged-met level j s none = refl
merged-met level j s (some t) = get_invariance-and_assign level j s t

get_elem?-zip_with :
    (ss ts : List Scalar) (i : ℕ) (s : Scalar)
    → get_elem? ss i ≡ some s
    → get_elem? (zip_with and_assign ss ts) i ≡ some (merged s (get_elem? ts i))
get_elem?-zip_with [] ts i s h = cc
get_elem?-zip_with (x ∷ ss) [] zero s h = h
get_elem?-zip_with (x ∷ ss) [] (suc i) s h = h
get_elem?-zip_with (x ∷ ss) (t ∷ ts) zero s h = cc
get_elem?-zip_with (x ∷ ss) (t ∷ ts) (suc i) s h = get_elem?-zip_with ss ts i s h

get_elem?-merge_narrow :
    (ss ts : List Scalar) (i : ℕ) (s : Scalar)
    → length ss ≡ 1
    → get_elem? ss i ≡ some s
    → get_elem? (merge_narrow ss ts) i ≡ some (merged s (get_elem? ts 0))
get_elem?-merge_narrow [] ts i s l h = cc
get_elem?-merge_narrow (x ∷ y ∷ ss) ts i s l h = absurd (omega arith)
get_elem?-merge_narrow (x ∷ []) [] zero s l h = h
get_elem?-merge_narrow (x ∷ []) (t ∷ ts) zero s l h = cc
get_elem?-merge_narrow (x ∷ []) ts (suc i) s l h = cc

get_elem?-map :
    (f : Scalar → Scalar) (ss : List Scalar) (i : ℕ) (s : Scalar)
    → get_elem? ss i ≡ some s
    → get_elem? (map f ss) i ≡ some (f s)
get_elem?-map f [] i s h = cc
get_elem?-map f (x ∷ ss) zero s h = cc
get_elem?-map f (x ∷ ss) (suc i) s h = get_elem?-map f ss i s h

get_elem?-merge_wide :
    (ss ts : List Scalar) (i : ℕ) (s : Scalar)
    → get_elem? ss i ≡ some s
    → get_elem? (merge_wide ss ts) i ≡ some (merged s (get_elem? ts 0))
get_elem?-merge_wide ss [] i s h = h
get_elem?-merge_wide ss (t ∷ ts) i s h = get_elem?-map (λ x. and_assign x t) ss i s h

element-merged :
    (a b : Info) (i : ℕ) (s : Scalar)
    → get_elem? a.values i ≡ some s
    → get_elem? (info_and_assign a b).values i ≡ some (merged s (partner a b i))
unfolding partner
element-merged a b i s h = elim (Bool-cases (width a == width b)) [
  | inl e ↦ rw (merge_equal a b e, e) (get_elem?-zip_with a.values b.values i s h)
  | inr e ↦ elim (Bool-cases (width a == 1)) [
    | inl f ↦
        rw (merge_one a b e f, e, f) (get_elem?-merge_narrow a.values b.values i s (ground arith) h)
    | inr f ↦ elim (Bool-cases (width b == 1)) [
      | inl g ↦ rw (merge_by_one a b e f g, e, f, g) (get_elem?-merge_wide a.values b.values i s h)
      | inr g ↦ rw (merge_none a b e f g, e, f, g) h
    ]
  ]
]

-- `a &= b` keeps the elements of `a`, and each kind of the element at `i` becomes the meet with the
-- same kind of its partner: the element at `i` of `b`, if the widths are the same, else the first
-- element of `b`, if one of the widths is 1, and no element otherwise, which leaves the kind as it is.
-- So a value of width 1 takes the first element of a wider one alone.
pub info_and_assign-reads :
    (a b : Info) (i : ℕ) (s : Scalar)
    → element i a ≡ some s
    → (r : Scalar) × (element i (info_and_assign a b) ≡ some r)
      × ((level : DimLevel) (j : ℕ) → get_invariance level j r ≡ met level j s (partner a b i))
unfolding element
info_and_assign-reads a b i s h = (
  merged s (partner a b i),
  element-merged a b i s h,
  λ level j. merged-met level j s (partner a b i),
)
