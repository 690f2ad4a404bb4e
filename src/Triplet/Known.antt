-- ===== src/Triplet/Known.antt =====
-- The analysis decides: getOrCalculateTriplet (triplet_invariance_analysis.cpp) leaves no triplet
-- undecided and forgets none, and the alloca whose address is stored sends it round for ever.
use vari_ocl.Base.{
  ℕ, zero, suc, ◌≡◌, refl, Bool, true, false, ◌&&◌, List, [], ◌∷◌, Option, none, some, ◌==◌, arith,
  Map, lookup, insert, lookup-insert,
}
use vari_ocl.Triplet.{
  Color, invariant, non_invariant, unknown, maybe_non_invariant, Triplet, triplet, color_lut,
  triplet_union, Tia, no_fuel, set_triplet_to_value, Node, alloca, store, white, grey, color_of,
  is_pending, paint_grey, user_triplet, calculate_node, get_or_calculate_triplet,
}
use vari_ocl.Triplet.Invariant.{Holds, Invariant, calculate-Fine, two}

-- The colours that say yes or no.
abbrev pub is_decided_color : Color → Bool
is_decided_color invariant = true
is_decided_color non_invariant = true
is_decided_color unknown = false
is_decided_color maybe_non_invariant = false

abbrev pub is_decided : Triplet → Bool
is_decided t = is_decided_color t.x && (is_decided_color t.y && is_decided_color t.z)

abbrev pub is_all_decided : Map Triplet → Bool
is_all_decided [] = true
is_all_decided ((v, t) ∷ m) = is_decided t && is_all_decided m

color_lut-is_decided :
    (a b : Color)
    → is_decided_color a ≡ true
    → is_decided_color b ≡ true
    → is_decided_color (color_lut a b) ≡ true
unfolding color_lut
color_lut-is_decided invariant invariant h k = refl
color_lut-is_decided invariant non_invariant h k = refl
color_lut-is_decided non_invariant invariant h k = refl
color_lut-is_decided non_invariant non_invariant h k = refl
color_lut-is_decided a unknown h k = cc
color_lut-is_decided a maybe_non_invariant h k = cc
color_lut-is_decided unknown b h k = cc
color_lut-is_decided maybe_non_invariant b h k = cc

triplet_union-is_decided :
    (t u : Triplet)
    → is_decided t ≡ true
    → is_decided u ≡ true
    → is_decided (triplet_union t u) ≡ true
unfolding triplet_union
triplet_union-is_decided t u h k = ground (
  arith,
  color_lut-is_decided t.x u.x,
  color_lut-is_decided t.y u.y,
  color_lut-is_decided t.z u.z,
)

pub insert-is_all_decided :
    (v : ℕ) (t : Triplet) (m : Map Triplet)
    → is_all_decided m ≡ true
    → is_decided t ≡ true
    → is_all_decided (insert v t m) ≡ true
insert-is_all_decided v t [] h k = ground arith
insert-is_all_decided v t ((u, w) ∷ m) h k = ground (arith, insert-is_all_decided v t m)

lookup-is_decided :
    (v : ℕ) (t : Triplet) (m : Map Triplet)
    → is_all_decided m ≡ true
    → lookup v m ≡ some t
    → is_decided t ≡ true
lookup-is_decided v t [] h e = cc
lookup-is_decided v t ((u, w) ∷ m) h e = ground (arith, lookup-is_decided v t m)

decided : Invariant
unfolding set_triplet_to_value
decided = record {
  State = λ s. is_all_decided s.tc ≡ true;
  Good = λ t. is_decided t ≡ true;
  start = started;
  union = triplet_union-is_decided;
  stored = λ s v t h g. insert-is_all_decided v t s.tc h g;
  painted = λ s v h. h;
  found = λ s v t h e. lookup-is_decided v t s.tc h e;
}
  where
    one : (a : Bool) → is_decided_color (two a) ≡ true
    one true = refl
    one false = refl

    started : (a b c : Bool) → is_decided (triplet (two a) (two b) (two c)) ≡ true
    started a b c = ground (arith, one a, one b, one c)

-- From triplets that all say kInvariant or kNonInvariant in every dimension, a call that returns
-- gives such a triplet and leaves only such triplets.
pub get_or_calculate_triplet-decided :
    (node : ℕ → Node) (constant : ℕ → Option ℕ) (f : ℕ) (s : Tia) (v : ℕ)
    → is_all_decided s.tc ≡ true
    → Holds
        (λ s1 t. (is_all_decided s1.tc ≡ true) × (is_decided t ≡ true))
        (get_or_calculate_triplet node constant f s v)
unfolding decided
get_or_calculate_triplet-decided node constant f s v h =
    calculate-Fine decided node constant f s v h

-- An alloca whose first user stores the alloca's own address, neither with a triplet and the store
-- not visited: no fuel is enough.
pub escaping_alloca :
    (node : ℕ → Node) (constant : ℕ → Option ℕ) (a user : ℕ) (users : List ℕ)
    → node a ≡ alloca (user ∷ users)
    → node user ≡ store a
    → (a == user) ≡ false
    → (f : ℕ) (s : Tia) → lookup a s.tc ≡ none
    → color_of s user ≡ white
    → get_or_calculate_triplet node constant f s a ≡ no_fuel
unfolding get_or_calculate_triplet calculate_node is_pending user_triplet
escaping_alloca node constant a user users na nu d zero s l c = refl
escaping_alloca node constant a user users na nu d (suc f) s l c =
    rw
      (
        get_or_calculate_triplet,
        l,
        calculate_node,
        na,
        nu,
        still,
        escaping_alloca node constant a user users na nu d f (paint_grey s a) l unvisited,
      )
      refl
  where
    unvisited : color_of (paint_grey s a) user ≡ white
    unvisited = ground (arith, lookup-insert a user grey s.colors)

    still : is_pending (paint_grey s a) user ≡ false
    still = rw (is_pending, unvisited) refl
