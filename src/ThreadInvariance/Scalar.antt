-- ===== src/ThreadInvariance/Scalar.antt =====
-- class ScalarInvarianceInfo (ThreadInvariance.h, ThreadInvariance.cpp). The array `Invariances` is
-- a function of level and axis, read below `kDimMax` and `MaxAxis`; a pointer is a number.
pub mod Laws
use vari_ocl.Base.{
  ℕ, zero, suc, ◌+◌, ◌-◌, ◌%◌, Bool, true, false, not, ◌||◌, ◌&&◌, List, [], ◌∷◌, Option, none,
  some, any, ltb, ◌==◌, if◌then◌else◌,
}
use vari_ocl.ThreadInvariance.Kind.{InvarianceKind, invariant, unknown, is_kind, meet, join}

pub data DimLevel : Type 0 where
  dim_local dim_global dim_max : DimLevel

-- The enumerators as numbers.
abbrev pub index : DimLevel → ℕ
index dim_local = 0
index dim_global = 1
index dim_max = 2

abbrev pub max_axis : ℕ
max_axis = 3

abbrev pub levels : List ℕ
levels = 0 ∷ 1 ∷ []

abbrev pub axes : List ℕ
axes = 0 ∷ 1 ∷ 2 ∷ []

pub record Scalar : Type 0 where
  pub at : ℕ → ℕ → InvarianceKind
  pub base_ptr : Option ℕ

-- `Invariances[i][j] = val`.
abbrev pub write : ℕ → ℕ → InvarianceKind → Scalar → Scalar
write i j val s = record s { at = λ k l. if k == i && l == j then val else s.at k l }

-- The inner loop of `Set`, `n` rounds from axis `j`, and the outer one from level `i`.
unfoldable pub set_axes : ℕ → ℕ → ℕ → InvarianceKind → Scalar → Scalar
set_axes zero i j val s = s
set_axes (suc n) i j val s = set_axes n i (j + 1) val (write i j val s)

unfoldable pub set_levels : ℕ → ℕ → ℕ → ℕ → InvarianceKind → Scalar → Scalar
set_levels zero i n j val s = s
set_levels (suc m) i n j val s = set_levels m (i + 1) n j val (set_axes n i j val s)

unfoldable pub set : DimLevel → ℕ → InvarianceKind → Scalar → Scalar
unfolding set_axes set_levels
set level axis val s =
    let start_axis = if ltb axis max_axis then axis else 0 in
    let end_axis = if ltb axis max_axis then axis + 1 else max_axis in
    let start_level = if ltb (index level) 2 then index level else 0 in
    let end_level = if ltb (index level) 2 then index level + 1 else 2 in
    set_levels (end_level - start_level) start_level (end_axis - start_axis) start_axis val s

unfoldable pub reset : InvarianceKind → Scalar → Scalar
unfolding set
reset val s = set dim_max max_axis val s

-- The default constructor. The array is not initialised before `Reset` fills it; `unknown` stands
-- for that, and is what `Reset` writes.
unfoldable pub scalar : Scalar
unfolding reset
scalar = reset unknown (record { at = λ i j. unknown; base_ptr = none })

unfoldable pub get_invariance : DimLevel → ℕ → Scalar → InvarianceKind
get_invariance level axis s =
    if not (ltb axis max_axis) || not (ltb (index level) 2)
    then invariant
    else s.at (index level) axis

-- `operator!=` compares the kinds and not the base pointers.
unfoldable pub ne : Scalar → Scalar → Bool
ne s t = any (λ i. any (λ j. not (is_kind (s.at i j) (t.at i j))) axes) levels

unfoldable pub eq : Scalar → Scalar → Bool
unfolding ne
eq s t = not (ne s t)

abbrev pub first_ptr : Option ℕ → Option ℕ → Option ℕ
first_ptr none q = q
first_ptr (some p) q = some p

-- `operator|=` and `operator&=`, which also take over a base pointer where there is none.
unfoldable pub or_assign : Scalar → Scalar → Scalar
or_assign s t = record {
  at = λ i j. join (s.at i j) (t.at i j);
  base_ptr = first_ptr s.base_ptr t.base_ptr;
}

unfoldable pub and_assign : Scalar → Scalar → Scalar
and_assign s t = record {
  at = λ i j. meet (s.at i j) (t.at i j);
  base_ptr = first_ptr s.base_ptr t.base_ptr;
}

-- `none` is the abort at a pointer that is not a multiple of 4.
unfoldable pub set_base_pointer : ℕ → Scalar → Option Scalar
set_base_pointer v s = if v % 4 == 0 then some (record s { base_ptr = some v }) else none
