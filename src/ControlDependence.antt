-- ===== src/ControlDependence.antt =====
-- class ControlDependence (ControlDependence.h, ControlDependence.cpp): the maps of direct control
-- dependences, by a quadratic search. The post-dominator tree's query and the successors of a
-- terminator are LLVM's, parameters here. A set is a list, a block a number.
pub mod Sets
use vari_ocl.Base.{
  ℕ, ◌≡◌, true, false, List, [], ◌∷◌, ◌++◌, arith, Bool, Option, none, some, elem, length, any, not,
  ltb, Map, lookup, lookup_or, insert, is_some, if◌then◌else◌,
}

pub record Dependences : Type 0 where
  pub input : Map (List ℕ)
  pub output : Map (List ℕ)

abbrev pub init : Dependences
init = record { input = []; output = [] }

-- `map.insert(make_pair(bb, empty))`: a key that is there keeps its set.
abbrev pub insert_empty : ℕ → Map (List ℕ) → Map (List ℕ)
insert_empty bb m = insert bb (lookup_or [] bb m) m

-- `map.find(k)->second.insert(v)`.
abbrev pub insert_at : ℕ → ℕ → Map (List ℕ) → Map (List ℕ)
insert_at k v m = let s = lookup_or [] k m in insert k (if elem v s then s else s ++ v ∷ []) m

-- The first loop.
pub initialize : List ℕ → Dependences → Dependences
initialize [] d = d
initialize (bb ∷ bbs) d =
    initialize bbs (record { input = insert_empty bb d.input; output = insert_empty bb d.output })

module _ (dominates : ℕ → ℕ → Bool) (succs : ℕ → List ℕ) where
  -- The body of the inner loop.
  pub consider : ℕ → ℕ → Dependences → Dependences
  consider s1 s2 d =
      if dominates s2 s1
      then d
      else if any (dominates s2) (succs s1)
      then record { output = insert_at s1 s2 d.output; input = insert_at s2 s1 d.input }
      else d

  pub search_from : ℕ → List ℕ → Dependences → Dependences
  search_from s1 [] d = d
  search_from s1 (s2 ∷ bbs) d = search_from s1 bbs (consider s1 s2 d)

  pub search : List ℕ → List ℕ → Dependences → Dependences
  search blocks [] d = d
  search blocks (s1 ∷ rest) d =
      search blocks rest (if ltb (length (succs s1)) 2 then d else search_from s1 blocks d)

  pub run_on_function : List ℕ → Dependences → Dependences
  run_on_function blocks d = search blocks blocks (initialize blocks d)

-- The queries. An instruction is given by whether it is a terminator and by its block; `none` is
-- NULL, which an assertion forbids for a block that the analysis did not see.
unfoldable pub get_output_dependence : Bool → ℕ → Dependences → Option (List ℕ)
get_output_dependence is_terminator bb d = if is_terminator then lookup bb d.output else none

unfoldable pub get_input_dependence : ℕ → Dependences → Option (List ℕ)
get_input_dependence bb d = lookup bb d.input
