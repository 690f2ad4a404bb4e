-- ===== src/Triplet/Plain/Correct.antt =====
-- getOrCalculateTriplet (triplet_invariance_analysis.cpp) ends on functions without allocas and
-- without calls that have no argument, and the maps and the colours do not change what it says.
use vari_ocl.Base.{ℕ, zero, suc, ◌<◌, ◌≡◌, refl, sym, true, Option, none, some, arith, lookup}
use vari_ocl.Triplet.{Triplet, Node, Tia, returns, calculate_node, get_or_calculate_triplet}
use vari_ocl.Triplet.Plain.{is_plain, triplet_of, triplet_of-node}
use vari_ocl.Triplet.Plain.Memo.{Gives, IsSound, IsClear, Said}
use vari_ocl.Triplet.Plain.Handlers.{node-said}

module _ (node : ℕ → Node) (constant : ℕ → Option ℕ) (rank : ℕ → ℕ) where
  module _ (plain : (v : ℕ) → is_plain rank (rank v) (node v) ≡ true) where
    -- On a function in which no alloca has a user, every call has an argument and operands have lower
    -- ranks, in a state whose triplets
    -- are right and in which no value up to the rank of `v` is on the way, fuel for the rank of `v`
    -- is enough: the call returns, with the triplet of `v` that its operands make, it leaves such a
    -- state, and no value is on the way that was not before.
    pub get_or_calculate_triplet_correct :
        (f : ℕ) (s : Tia) (v : ℕ)
        → rank v < f
        → IsSound node constant rank s
        → IsClear node constant rank (suc (rank v)) s
        → Gives
            (Said node constant rank s (triplet_of node constant rank v))
            (get_or_calculate_triplet node constant f s v)
    unfolding get_or_calculate_triplet
    get_or_calculate_triplet_correct zero s v l h c = ground arith
    get_or_calculate_triplet_correct (suc f) s v l h c =
        go (λ s1 u k h1 c1. get_or_calculate_triplet_correct f s1 u (omega (arith, k, l)) h1 c1)
          (lookup v s.tc) refl
      where
        go :
            ((s1 : Tia) (u : ℕ)
              → rank u < rank v
              → IsSound node constant rank s1
              → IsClear node constant rank (suc (rank u)) s1
              → Gives
                  (Said node constant rank s1 (triplet_of node constant rank u))
                  (get_or_calculate_triplet node constant f s1 u))
            → (o : Option Triplet) → lookup v s.tc ≡ o
            → Gives (Said node constant rank s (triplet_of node constant rank v)) (elim o [
              | some t ↦ returns s t
              | none ↦
                  calculate_node
                    (get_or_calculate_triplet node constant f)
                    node
                    constant
                    s
                    v
                    (node v)
            ])
        go ih (some t) e = (h v t e, h, λ w k. k)
        go ih none e =
            node-said node constant rank (get_or_calculate_triplet node constant f) v ih s (node v)
              (plain v) h (λ w k. c w (omega (arith, k)))
              (sym (triplet_of-node node constant rank plain v))
