-- ===== src/ThreadInvariance/Info.antt =====
-- class InvarianceInfo (ThreadInvariance.h, ThreadInvariance.cpp): one scalar for each element of a
-- vector value, or one. `values` has `width` elements.
pub mod Merge
pub mod Order
pub mod Score
use vari_ocl.Base.{
  ℕ, zero, suc, ◌≡◌, Bool, true, false, not, ◌||◌, List, [], ◌∷◌, map, Option, none, some, length,
  ◌==◌, if◌then◌else◌, get_elem?,
}
use vari_ocl.ThreadInvariance.Kind.{InvarianceKind}
use vari_ocl.ThreadInvariance.Scalar
use vari_ocl.ThreadInvariance.Scalar.{
  Scalar, scalar, reset, ne, eq, and_assign, or_assign, set_base_pointer,
}

pub record Info : Type 0 where
  pub values : List Scalar

abbrev pub width : Info → ℕ
width a = length a.values

unfoldable pub replicate : ℕ → List Scalar
replicate zero = []
replicate (suc n) = scalar ∷ replicate n

-- The constructors: of a width, and of an LLVM value, given by its number of elements if its type
-- is a vector.
unfoldable pub of_width : ℕ → Info
unfolding replicate
of_width w = record { values = replicate w }

unfoldable pub of_value : Option ℕ → Info
unfolding of_width
of_value none = of_width 1
of_value (some n) = of_width n

-- `operator[]`: `none` is the failed assertion.
unfoldable pub element : ℕ → Info → Option Scalar
element val a = get_elem? a.values val

abbrev pub any_ne : List Scalar → List Scalar → Bool
any_ne [] ts = false
any_ne (s ∷ ss) [] = false
any_ne (s ∷ ss) (t ∷ ts) = ne s t || any_ne ss ts

unfoldable pub info_ne : Info → Info → Bool
info_ne a b = if not (width a == width b) then true else any_ne a.values b.values

unfoldable pub info_eq : Info → Info → Bool
unfolding info_ne
info_eq a b = not (info_ne a b)

abbrev pub zip_with : (Scalar → Scalar → Scalar) → List Scalar → List Scalar → List Scalar
zip_with f [] ts = []
zip_with f (s ∷ ss) [] = s ∷ ss
zip_with f (s ∷ ss) (t ∷ ts) = f s t ∷ zip_with f ss ts

-- `operator|=`; with assertions off, a mismatch of the widths leaves the value alone.
unfoldable pub info_or_assign : Info → Info → Info
info_or_assign a b =
    if width a == width b then record { values = zip_with or_assign a.values b.values } else a

-- The second case of `operator&=` runs to this width, which is 1, and so reads `other[0]` alone.
abbrev pub merge_narrow : List Scalar → List Scalar → List Scalar
merge_narrow [] ts = []
merge_narrow (s ∷ ss) [] = s ∷ ss
merge_narrow (s ∷ ss) (t ∷ ts) = and_assign s t ∷ ss

abbrev pub merge_wide : List Scalar → List Scalar → List Scalar
merge_wide ss [] = ss
merge_wide ss (t ∷ ts) = map (λ s. and_assign s t) ss

unfoldable pub info_and_assign : Info → Info → Info
info_and_assign a b =
    if width a == width b
    then record { values = zip_with and_assign a.values b.values }
    else if width a == 1
    then record { values = merge_narrow a.values b.values }
    else if width b == 1
    then record { values = merge_wide a.values b.values }
    else a

unfoldable pub info_reset : InvarianceKind → Info → Info
info_reset kind a = record { values = map (reset kind) a.values }

abbrev pub set_pointers : ℕ → List Scalar → Option (List Scalar)
set_pointers v [] = some []
set_pointers v (s ∷ ss) = elim (set_base_pointer v s) [
  | none ↦ none
  | some s' ↦ elim (set_pointers v ss) [ none ↦ none | some ss' ↦ some (s' ∷ ss') ]
]

unfoldable pub reset_pointer : ℕ → Info → Option Info
reset_pointer v a = elim (set_pointers v a.values) [
  | none ↦ none
  | some ss ↦ some (record { values = ss })
]
