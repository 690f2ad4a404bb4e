-- ===== src/Triplet/State.antt =====
-- The colours, triplets and maps of TripletInvarianceAnalysis (triplet_invariance_analysis.h, .cpp),
-- and what the analysis asks of a value.
use Prim.Native.String.{String}
use vari_ocl.Base.{
  ℕ, Bool, true, false, not, ◌||◌, ◌&&◌, List, [], ◌∷◌, Option, if◌then◌else◌, Map, lookup, insert,
  lookup_or, is_some,
}

pub data Color : Type 0 where
  invariant non_invariant unknown maybe_non_invariant : Color

pub data CycleColor : Type 0 where
  white grey black : CycleColor

abbrev pub color_eq : Color → Color → Bool
color_eq invariant invariant = true
color_eq non_invariant non_invariant = true
color_eq unknown unknown = true
color_eq maybe_non_invariant maybe_non_invariant = true
color_eq _ _ = false

pub record Triplet : Type 0 where
  pub x : Color
  pub y : Color
  pub z : Color

abbrev pub triplet : Color → Color → Color → Triplet
triplet a b c = record { x = a; y = b; z = c }

abbrev pub all_invariant : Triplet
all_invariant = triplet invariant invariant invariant

abbrev pub all_non_invariant : Triplet
all_non_invariant = triplet non_invariant non_invariant non_invariant

pub record Tia : Type 0 where
  pub ti : Map Triplet
  pub tc : Map Triplet
  pub colors : Map CycleColor

-- What a call of the analysis does: it returns, it reads past the end of a vector, or the fuel ends.
pub data Outcome (A : Type 0) : Type 0 where
  returns : Tia → A → Outcome A
  undefined : Outcome A
  no_fuel : Outcome A

abbrev pub and_then : {A B : Type 0} → Outcome A → (Tia → A → Outcome B) → Outcome B
and_then (returns s a) k = k s a
and_then undefined k = undefined
and_then no_fuel k = no_fuel

-- `setTripletToValue`, which `setTripletType` ends in.
unfoldable pub set_triplet_to_value : Tia → ℕ → Triplet → Tia
set_triplet_to_value s v t = record s { ti = insert v t s.ti; tc = insert v t s.tc }

unfoldable pub color_lut : Color → Color → Color
color_lut a b =
    if color_eq a non_invariant || color_eq b non_invariant
    then non_invariant
    else if color_eq a unknown || color_eq b unknown
    then unknown
    else if color_eq a invariant && color_eq b invariant
    then invariant
    else unknown

unfoldable pub triplet_union : Triplet → Triplet → Triplet
unfolding color_lut
triplet_union t u = triplet (color_lut t.x u.x) (color_lut t.y u.y) (color_lut t.z u.z)

unfoldable pub is_triplet_equal : Triplet → Triplet → Bool
is_triplet_equal t u = color_eq t.x u.x && (color_eq t.y u.y && color_eq t.z u.z)

-- What the analysis asks of a value. A GEP holds whether its operand is a pointer, that operand,
-- whether all its indices are constant, and the indices.
pub data Node : Type 0 where
  basic_block : Bool → Node
  argument_or_constant : Node
  alloca : List ℕ → Node
  load : ℕ → Node
  store : ℕ → Node
  branch : Option ℕ → Node
  return : Node
  phi : Node
  call : String → List ℕ → Node
  get_element_ptr : Bool → ℕ → Bool → List ℕ → Node
  other_instruction : List ℕ → Node
  other_value : Node

abbrev pub is_instruction : Node → Bool
is_instruction (basic_block e) = false
is_instruction argument_or_constant = false
is_instruction other_value = false
is_instruction _ = true

abbrev pub color_of : Tia → ℕ → CycleColor
color_of s v = lookup_or white v s.colors

abbrev pub is_grey : CycleColor → Bool
is_grey grey = true
is_grey _ = false

abbrev pub paint_grey : Tia → ℕ → Tia
paint_grey s v = record s { colors = insert v grey s.colors }

unfoldable pub is_triplet_invariance_analyzed : Tia → ℕ → Bool
is_triplet_invariance_analyzed s v = is_some (lookup v s.tc)

-- On the way, and with no triplet yet.
unfoldable pub is_pending : Tia → ℕ → Bool
unfolding is_triplet_invariance_analyzed
is_pending s v = is_grey (color_of s v) && not (is_triplet_invariance_analyzed s v)

unfoldable pub record_triplet : Tia → ℕ → Triplet → Outcome Triplet
unfolding set_triplet_to_value
record_triplet s v t = returns (set_triplet_to_value s v t) t

-- A `for` loop that unites.
unfoldable pub unite : Triplet → List Triplet → Triplet
unfolding triplet_union
unite t [] = t
unite t (u ∷ us) = unite (triplet_union t u) us

-- `VT[0]` united with the rest of `VT`.
abbrev pub unite_all : Tia → ℕ → List Triplet → Outcome Triplet
unite_all s v [] = undefined
unite_all s v (t ∷ ts) = record_triplet s v (unite t ts)
