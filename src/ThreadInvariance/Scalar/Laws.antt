-- ===== src/ThreadInvariance/Scalar/Laws.antt =====
-- Reads after writes, and the order of the scalar values.
use vari_ocl.Base.{
  ℕ, zero, suc, ◌+◌, ◌-◌, ◌≡◌, Bool, true, false, not, ◌||◌, ◌&&◌, arith, ltb, leb, ◌==◌,
  if◌then◌else◌, ◌↔◌, sym, ap, ◌∙◌,
}
use vari_ocl.ThreadInvariance.Kind.{InvarianceKind, invariant, is_kind, meet}
use vari_ocl.ThreadInvariance.Kind.Lattice.{is_kind_iff, meet_comm, meet_assoc, meet_self}
use vari_ocl.ThreadInvariance.Scalar.{
  DimLevel, dim_local, dim_global, dim_max, index, max_axis, Scalar, write, set_axes, set_levels,
  set, get_invariance, ne, eq, and_assign,
}

at-set_axes :
    (n i j : ℕ) (val : InvarianceKind) (s : Scalar) (k l : ℕ)
    → (set_axes n i j val s).at k l
      ≡ (if k == i && (leb j l && ltb l (j + n)) then val else s.at k l)
unfolding set_axes
at-set_axes zero i j val s k l = ground arith
at-set_axes (suc n) i j val s k l =
    ground (arith, at-set_axes n i (j + 1) val (write i j val s) k l)

at-set_levels :
    (m i n j : ℕ) (val : InvarianceKind) (s : Scalar) (k l : ℕ)
    → (set_levels m i n j val s).at k l
      ≡ (if leb i k && ltb k (i + m) && (leb j l && ltb l (j + n)) then val else s.at k l)
unfolding set_levels
at-set_levels zero i n j val s k l = ground arith
at-set_levels (suc m) i n j val s k l =
    ground (
      arith,
      at-set_levels m (i + 1) n j val (set_axes n i j val s) k l,
      at-set_axes n i j val s k l,
    )

-- A level or an axis that is out of range stands for all of them in a write.
abbrev pub covers : DimLevel → ℕ → ℕ → ℕ → Bool
covers level axis i j =
    (not (ltb (index level) 2) || i == index level) && (not (ltb axis max_axis) || j == axis)

-- A read in range gives what was written where the write covers it, and the old kind elsewhere; a
-- read out of range gives invariant.
pub get_invariance-set :
    (level other : DimLevel) (axis j : ℕ) (val : InvarianceKind) (s : Scalar)
    → get_invariance other j (set level axis val s) ≡ (
        if ltb j max_axis && ltb (index other) 2
        then (if covers level axis (index other) j then val else get_invariance other j s)
        else invariant)
unfolding get_invariance set
get_invariance-set level other axis j val s =
    let start_axis = if ltb axis max_axis then axis else 0 in
    let end_axis = if ltb axis max_axis then axis + 1 else max_axis in
    let start_level = if ltb (index level) 2 then index level else 0 in
    let end_level = if ltb (index level) 2 then index level + 1 else 2 in
    ground (
      arith,
      at-set_levels (end_level - start_level) start_level (end_axis - start_axis) start_axis val s
          (index other) j,
    )

-- Two values agree in all six kinds, which is what a read can see.
abbrev pub Same : Scalar → Scalar → Type 0
Same s t = (level : DimLevel) (j : ℕ) → get_invariance level j s ≡ get_invariance level j t

abbrev Six : Scalar → Scalar → Type 0
Six s t =
    (s.at 0 0 ≡ t.at 0 0)
    × (s.at 0 1 ≡ t.at 0 1)
    × (s.at 0 2 ≡ t.at 0 2)
    × (s.at 1 0 ≡ t.at 1 0)
    × (s.at 1 1 ≡ t.at 1 1)
    × (s.at 1 2 ≡ t.at 1 2)

all_six :
    (a b c d e f : Bool)
    → (not (
          (not a || (not b || (not c || false)))
          || ((not d || (not e || (not f || false))) || false))
        ≡ true)
      ↔ ((a ≡ true) × (b ≡ true) × (c ≡ true) × (d ≡ true) × (e ≡ true) × (f ≡ true))
all_six a b c d e f = ground arith

eq-Six : (s t : Scalar) → (eq s t ≡ true) ↔ Six s t
unfolding eq
eq-Six s t =
    let k = λ (i j : ℕ). is_kind_iff (s.at i j) (t.at i j) in
    let six =
      all_six (is_kind (s.at 0 0) (t.at 0 0)) (is_kind (s.at 0 1) (t.at 0 1))
        (is_kind (s.at 0 2) (t.at 0 2)) (is_kind (s.at 1 0) (t.at 1 0))
        (is_kind (s.at 1 1) (t.at 1 1)) (is_kind (s.at 1 2) (t.at 1 2)) in
    (
      λ h.
          let (a, b, c, d, e, f) = six.0 h in
          ((k 0 0).0 a, (k 0 1).0 b, (k 0 2).0 c, (k 1 0).0 d, (k 1 1).0 e, (k 1 2).0 f),
      λ h. six.1 (
        (k 0 0).1 h.0,
        (k 0 1).1 h.1,
        (k 0 2).1 h.2,
        (k 1 0).1 h.3,
        (k 1 1).1 h.4,
        (k 1 2).1 h.5,
      ),
    )

Same-of_Six : (s t : Scalar) → Six s t → Same s t
unfolding get_invariance
Same-of_Six s t h dim_local zero = h.0
Same-of_Six s t h dim_local (suc zero) = h.1
Same-of_Six s t h dim_local (suc (suc zero)) = h.2
Same-of_Six s t h dim_global zero = h.3
Same-of_Six s t h dim_global (suc zero) = h.4
Same-of_Six s t h dim_global (suc (suc zero)) = h.5
Same-of_Six s t h level (suc (suc (suc j))) = ground arith
Same-of_Six s t h dim_max j = ground arith

Six-of_Same : (s t : Scalar) → Same s t → Six s t
unfolding get_invariance
Six-of_Same s t h =
    (h dim_local 0, h dim_local 1, h dim_local 2, h dim_global 0, h dim_global 1, h dim_global 2)

-- `operator==` holds exactly of values that no read tells apart.
pub eq_iff : (s t : Scalar) → (eq s t ≡ true) ↔ Same s t
eq_iff s t = (λ h. Same-of_Six s t ((eq-Six s t).0 h), λ h. (eq-Six s t).1 (Six-of_Same s t h))

pub ne_iff : (s t : Scalar) → (ne s t ≡ false) ↔ Same s t
ne_iff s t =
    let e : (not (ne s t) ≡ true) ↔ Same s t = unfold eq in eq_iff s t in
    (λ h. e.0 (rw h), λ h. not_true (ne s t) (e.1 h))
  where
    not_true : (b : Bool) → not b ≡ true → b ≡ false
    not_true b h = ground arith

-- `&=` merges every kind that a read sees by `meet`.
pub get_invariance-and_assign :
    (level : DimLevel) (j : ℕ) (s t : Scalar)
    → get_invariance level j (and_assign s t)
      ≡ meet (get_invariance level j s) (get_invariance level j t)
unfolding get_invariance and_assign
get_invariance-and_assign level j s t = ground (arith, meet_self invariant)

-- Merging again, by the same value or in the other order, changes no kind.
pub and_assign_laws :
    (s t : Scalar)
    → Same (and_assign s t) (and_assign t s) × Same (and_assign (and_assign s t) t) (and_assign s t)
and_assign_laws s t = (
  λ level j.
      get_invariance-and_assign level j s t
      ∙ meet_comm (get_invariance level j s) (get_invariance level j t)
      ∙ sym (get_invariance-and_assign level j t s),
  λ level j.
      let a = get_invariance level j s in
      let b = get_invariance level j t in
      get_invariance-and_assign level j (and_assign s t) t
      ∙ ap (λ k. meet k b) (get_invariance-and_assign level j s t)
      ∙ meet_assoc a b b
      ∙ ap (meet a) (meet_self b)
      ∙ sym (get_invariance-and_assign level j s t),
)
