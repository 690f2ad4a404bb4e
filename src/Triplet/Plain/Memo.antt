-- ===== src/Triplet/Plain/Memo.antt =====
-- The maps and the colours of getOrCalculateTriplet (triplet_invariance_analysis.cpp) do not change
-- what it says, on functions without allocas and without calls that have no argument.
use vari_ocl.Base.{
  ℕ, ◌<◌, ◌≡◌, ap, false, Option, some, ◌==◌, ==_iff, arith, lookup, lookup-insert, Bool-cases, inl,
  inr,
}
use vari_ocl.Triplet.{
  Triplet, Node, Tia, Outcome, returns, undefined, no_fuel, and_then, set_triplet_to_value,
  paint_grey, is_pending, is_triplet_invariance_analyzed, grey,
}
use vari_ocl.Triplet.Plain.{triplet_of}

-- A call that returns, and what it leaves.
abbrev pub Gives : {A : Type 0} → (Tia → A → Type 0) → Outcome A → Type 0
Gives P (returns s a) = P s a
Gives P undefined = ⊥
Gives P no_fuel = ⊥

pub Gives-and_then :
    {A B : Type 0} (P : Tia → A → Type 0) (R : Tia → B → Type 0) (o : Outcome A)
    (k : Tia → A → Outcome B)
    → Gives P o
    → ((s : Tia) (a : A) → P s a → Gives R (k s a))
    → Gives R (and_then o k)
Gives-and_then P R (returns s a) k h g = g s a h
Gives-and_then P R undefined k h g = h
Gives-and_then P R no_fuel k h g = h

module _ (node : ℕ → Node) (constant : ℕ → Option ℕ) (rank : ℕ → ℕ) where
  -- The maps say what is so.
  abbrev pub IsSound : Tia → Type 0
  IsSound s = (u : ℕ) (t : Triplet) → lookup u s.tc ≡ some t → t ≡ triplet_of node constant rank u

  -- No value below `r` is on the way.
  abbrev pub IsClear : ℕ → Tia → Type 0
  IsClear r s = (w : ℕ) → rank w < r → is_pending s w ≡ false

  -- No value is on the way that was not before.
  abbrev pub Fewer : Tia → Tia → Type 0
  Fewer s s1 = (w : ℕ) → is_pending s w ≡ false → is_pending s1 w ≡ false

  abbrev pub Said : Tia → Triplet → Tia → Triplet → Type 0
  Said s t s1 u = (u ≡ t) × IsSound s1 × Fewer s s1

  pub stored-IsSound :
      (s : Tia) (v : ℕ) (t : Triplet)
      → IsSound s
      → t ≡ triplet_of node constant rank v
      → IsSound (set_triplet_to_value s v t)
  unfolding set_triplet_to_value
  stored-IsSound s v t h e u w l = elim (Bool-cases (v == u)) [
    | inl k ↦
        let same : v ≡ u = (==_iff v u).0 k in
        ground (arith, lookup-insert v u t s.tc, ap (triplet_of node constant rank) same)
    | inr k ↦ h u w (ground (arith, lookup-insert v u t s.tc))
  ]

  pub stored-Fewer : (s : Tia) (v : ℕ) (t : Triplet) → Fewer s (set_triplet_to_value s v t)
  unfolding set_triplet_to_value is_pending is_triplet_invariance_analyzed
  stored-Fewer s v t w h = ground (arith, lookup-insert v w t s.tc)

  pub stored-done :
      (s : Tia) (v : ℕ) (t : Triplet) → is_pending (set_triplet_to_value s v t) v ≡ false
  unfolding set_triplet_to_value is_pending is_triplet_invariance_analyzed
  stored-done s v t = ground (arith, lookup-insert v v t s.tc)

  pub painted-other :
      (s : Tia) (v w : ℕ) → (v == w) ≡ false → is_pending (paint_grey s v) w ≡ is_pending s w
  unfolding is_pending is_triplet_invariance_analyzed
  painted-other s v w h = ground (arith, lookup-insert v w grey s.colors)
