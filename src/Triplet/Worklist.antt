-- ===== src/Triplet/Worklist.antt =====
-- unionTripletFromAllOperands (triplet_invariance_analysis.h) and the loop of WorklistApproach
-- (triplet_invariance_analysis.cpp).
use vari_ocl.Base.{
  ℕ, zero, suc, ◌≤◌, ◌≡◌, refl, Bool, true, false, not, List, [], ◌∷◌, ◌++◌, ap, ◌∙◌, append-nil,
  lookup-insert, Option, if◌then◌else◌, insert, lookup_or, length, arith,
}
use vari_ocl.Triplet.Invariant.{Holds, Holds-and_then, always}
use vari_ocl.Triplet.{
  Triplet, Color, all_invariant, Tia, Outcome, returns, undefined, no_fuel, and_then, Node,
  get_or_calculate_triplet, unknown, invariant, non_invariant, maybe_non_invariant, triplets_of,
  is_triplet_equal, color_eq,
}

-- `TI[v]`, with the triplet of zeros for a value that has none, which the map then holds.
abbrev pub read_ti : Tia → ℕ → Triplet
read_ti s v = lookup_or all_invariant v s.ti

abbrev pub write_ti : Tia → ℕ → Triplet → Tia
write_ti s v t = record s { ti = insert v t s.ti }

module _ (node : ℕ → Node) (constant : ℕ → Option ℕ) (operands users : ℕ → List ℕ) where
  -- The union goes to a variable of the inner block; the outer `T` is returned.
  unfoldable pub union_triplet_from_all_operands : ℕ → Tia → ℕ → Outcome Triplet
  unfolding get_or_calculate_triplet
  union_triplet_from_all_operands f s v =
      let t : Triplet = read_ti s v in
      and_then
        (triplets_of (get_or_calculate_triplet node constant f) node constant (write_ti s v t)
          (operands v))
        (λ s1 ts. returns s1 t)

  -- One round: what it pushes is the result.
  unfoldable pub visit : ℕ → Tia → ℕ → Outcome (List ℕ)
  unfolding union_triplet_from_all_operands is_triplet_equal
  visit f s n =
      let old : Triplet = read_ti s n in
      and_then (union_triplet_from_all_operands f (write_ti s n old) n) (λ s1 new.
        returns (write_ti s1 n new) (if not (is_triplet_equal old new) then users n else []))

  -- The `while` loop, with fuel for its rounds and for each calculation.
  unfoldable pub worklist : ℕ → ℕ → Tia → List ℕ → Outcome Bool
  unfolding visit
  worklist g f s [] = returns s false
  worklist zero f s (n ∷ ns) = no_fuel
  worklist (suc g) f s (n ∷ ns) =
      and_then (visit f s n) (λ s1 pushed. worklist g f s1 (ns ++ pushed))

  -- Each instruction of the queue once.
  abbrev pub visit_each : ℕ → Tia → List ℕ → Outcome Bool
  unfolding visit
  visit_each f s [] = returns s false
  visit_each f s (n ∷ ns) = and_then (visit f s n) (λ s1 pushed. visit_each f s1 ns)

color_eq_refl : (c : Color) → color_eq c c ≡ true
color_eq_refl invariant = refl
color_eq_refl non_invariant = refl
color_eq_refl unknown = refl
color_eq_refl maybe_non_invariant = refl

is_triplet_equal_refl : (t : Triplet) → is_triplet_equal t t ≡ true
unfolding is_triplet_equal
is_triplet_equal_refl t = ground (arith, color_eq_refl t.x, color_eq_refl t.y, color_eq_refl t.z)

and_then-same :
    {A B : Type 0} (P : Tia → A → Type 0) (o : Outcome A) (k l : Tia → A → Outcome B)
    → Holds P o
    → ((s : Tia) (a : A) → P s a → k s a ≡ l s a)
    → and_then o k ≡ and_then o l
and_then-same P (returns s a) k l h g = g s a h
and_then-same P undefined k l h g = refl
and_then-same P no_fuel k l h g = refl

module _ (node : ℕ → Node) (constant : ℕ → Option ℕ) (operands users : ℕ → List ℕ) where
  read-write : (s : Tia) (v : ℕ) (t : Triplet) → read_ti (write_ti s v t) v ≡ t
  read-write s v t = ground (arith, lookup-insert v v t s.ti)

  -- The union is never what the function returns.
  union-unchanged :
      (f : ℕ) (s : Tia) (v : ℕ)
      → Holds
          (λ s1 t. t ≡ read_ti s v)
          (union_triplet_from_all_operands node constant operands users f s v)
  unfolding union_triplet_from_all_operands
  union-unchanged f s v =
      Holds-and_then (λ s1 ts. Unit {0}) (λ s1 t. t ≡ read_ti s v) run
        (λ s1 ts. returns s1 (read_ti s v)) (always run) (λ s1 ts h. refl)
    where
      run : Outcome (List Triplet)
      run =
          triplets_of (get_or_calculate_triplet node constant f) node constant
            (write_ti s v (read_ti s v)) (operands v)

  equal-pushes :
      (n : ℕ) (old new : Triplet)
      → new ≡ old
      → (if not (is_triplet_equal old new) then users n else []) ≡ []
  equal-pushes n old new e =
      ap (λ t. if not (is_triplet_equal old t) then users n else []) e
      ∙ rw (is_triplet_equal_refl old) refl

  visit-pushes :
      (f : ℕ) (s : Tia) (n : ℕ)
      → Holds (λ s1 pushed. pushed ≡ []) (visit node constant operands users f s n)
  unfolding visit
  visit-pushes f s n =
      Holds-and_then (λ s1 t. t ≡ read_ti (write_ti s n old) n) (λ s1 pushed. pushed ≡ [])
        (union_triplet_from_all_operands node constant operands users f (write_ti s n old) n)
        (λ s1 new.
          returns (write_ti s1 n new) (if not (is_triplet_equal old new) then users n else []))
        (union-unchanged f (write_ti s n old) n)
        (λ s1 new e. equal-pushes n old new (e ∙ read-write s n old))
    where
      old : Triplet
      old = read_ti s n

  -- The worklist never grows: with fuel for its length the loop visits each instruction of the
  -- queue once, in order, and stops.
  pub worklist-visit_each :
      (g f : ℕ) (s : Tia) (ns : List ℕ)
      → length ns ≤ g
      → worklist node constant operands users g f s ns
        ≡ visit_each node constant operands users f s ns
  unfolding worklist
  worklist-visit_each g f s [] h = elim g [ zero ↦ refl | suc k ↦ refl ]
  worklist-visit_each zero f s (n ∷ ns) h = ground arith
  worklist-visit_each (suc g) f s (n ∷ ns) h =
      and_then-same (λ s1 pushed. pushed ≡ []) (visit node constant operands users f s n) _ _
        (visit-pushes f s n)
        (λ s1 pushed e.
          ap (λ p. worklist node constant operands users g f s1 (ns ++ p)) e
          ∙ ap (λ q. worklist node constant operands users g f s1 q) (append-nil ns)
          ∙ worklist-visit_each g f s1 ns (omega (arith, h)))
