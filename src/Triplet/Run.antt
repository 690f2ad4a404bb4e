-- ===== src/Triplet/Run.antt =====
-- runOnFunction and initialize of TripletInvarianceAnalysis (triplet_invariance_analysis.cpp).
use vari_ocl.Base.{
  ℕ, ◌≡◌, refl, Bool, true, false, List, [], ◌∷◌, foldl, Option, none, some, if◌then◌else◌, insert,
}
use vari_ocl.Ir.{Block, is_barrier_loop}
use vari_ocl.Triplet.{
  Triplet, all_invariant, all_non_invariant, Tia, Outcome, returns, and_then, set_triplet_to_value,
  Node, white, get_or_calculate_triplet,
}
use vari_ocl.Triplet.Invariant.{Holds, Holds-and_then}
use vari_ocl.Triplet.Known.{
  is_decided, is_all_decided, insert-is_all_decided, get_or_calculate_triplet-decided,
}

-- A loop: the values of its header and of its latch, if it has them, and its blocks.
pub record Loop : Type 0 where
  pub header : Option (List ℕ)
  pub latch : Option (List ℕ)
  pub blocks : List Block

-- The globals of the module, the instructions in order, the entry block, and each outermost loop
-- with the loops directly in it.
pub record Function : Type 0 where
  pub globals : List ℕ
  pub instructions : List ℕ
  pub entry : ℕ
  pub loops : List (Loop × List Loop)

abbrev pub mark_values : Triplet → Tia → List ℕ → Tia
unfolding set_triplet_to_value
mark_values t s [] = s
mark_values t s (v ∷ vs) = mark_values t (set_triplet_to_value s v t) vs

abbrev pub mark_block : Triplet → Tia → Option (List ℕ) → Tia
mark_block t s none = s
mark_block t s (some vs) = mark_values t s vs

-- The header and the latch of a loop with a barrier are uniform, those of any other loop are not.
unfoldable pub mark_loop : Tia → Loop → Tia
unfolding is_barrier_loop
mark_loop s l =
    let t : Triplet = if is_barrier_loop l.blocks then all_invariant else all_non_invariant in
    mark_block t (mark_block t s l.header) l.latch

unfoldable pub mark_loops : Tia → List (Loop × List Loop) → Tia
unfolding mark_loop
mark_loops s [] = s
mark_loops s ((l, inner) ∷ ls) = mark_loops (foldl mark_loop (mark_loop s l) inner) ls

abbrev pub paint_white : Tia → List ℕ → Tia
paint_white s [] = s
paint_white s (i ∷ is) = paint_white (record s { colors = insert i white s.colors }) is

module _ (node : ℕ → Node) (constant : ℕ → Option ℕ) where
  abbrev pub calculate_all : ℕ → Tia → List ℕ → Outcome Bool
  unfolding get_or_calculate_triplet
  calculate_all f s [] = returns s false
  calculate_all f s (i ∷ is) =
      and_then (get_or_calculate_triplet node constant f s i) (λ s1 t. calculate_all f s1 is)

  -- What stands in the maps before the instructions are looked at.
  unfoldable pub prepare : Tia → Function → Tia
  unfolding mark_loops set_triplet_to_value
  prepare s fn =
      let cleared : Tia = paint_white (record s { tc = [] }) fn.instructions in
      let marked : Tia = mark_values all_invariant cleared fn.globals in
      let initialized : Tia = record marked { ti = [] } in
      set_triplet_to_value (mark_loops initialized fn.loops) fn.entry all_invariant

  -- It returns whether it changed the function, which it never does.
  unfoldable pub run_on_function : ℕ → Tia → Function → Outcome Bool
  unfolding prepare
  run_on_function f s fn = calculate_all f (prepare s fn) fn.instructions

paint_white-tc : (s : Tia) (is : List ℕ) → (paint_white s is).tc ≡ s.tc
paint_white-tc s [] = refl
paint_white-tc s (i ∷ is) = paint_white-tc (record s { colors = insert i white s.colors }) is

mark_values-decided :
    (t : Triplet) (s : Tia) (vs : List ℕ)
    → is_decided t ≡ true
    → is_all_decided s.tc ≡ true
    → is_all_decided (mark_values t s vs).tc ≡ true
unfolding mark_values
mark_values-decided t s [] d h = h
mark_values-decided t s (v ∷ vs) d h =
    mark_values-decided t (record s { ti = insert v t s.ti; tc = insert v t s.tc }) vs d
      (insert-is_all_decided v t s.tc h d)

mark_block-decided :
    (t : Triplet) (s : Tia) (b : Option (List ℕ))
    → is_decided t ≡ true
    → is_all_decided s.tc ≡ true
    → is_all_decided (mark_block t s b).tc ≡ true
mark_block-decided t s none d h = h
mark_block-decided t s (some vs) d h = mark_values-decided t s vs d h

mark_loop-decided :
    (s : Tia) (l : Loop) → is_all_decided s.tc ≡ true → is_all_decided (mark_loop s l).tc ≡ true
unfolding mark_loop
mark_loop-decided s l h =
    mark_block-decided t (mark_block t s l.header) l.latch d (mark_block-decided t s l.header d h)
  where
    t : Triplet
    t = if is_barrier_loop l.blocks then all_invariant else all_non_invariant

    either : (b : Bool) → is_decided (if b then all_invariant else all_non_invariant) ≡ true
    either true = refl
    either false = refl

    d : is_decided t ≡ true
    d = either (is_barrier_loop l.blocks)

inner-decided :
    (s : Tia) (ls : List Loop)
    → is_all_decided s.tc ≡ true
    → is_all_decided (foldl mark_loop s ls).tc ≡ true
inner-decided s [] h = h
inner-decided s (l ∷ ls) h = inner-decided (mark_loop s l) ls (mark_loop-decided s l h)

mark_loops-decided :
    (s : Tia) (ls : List (Loop × List Loop))
    → is_all_decided s.tc ≡ true
    → is_all_decided (mark_loops s ls).tc ≡ true
unfolding mark_loops
mark_loops-decided s [] h = h
mark_loops-decided s ((l, inner) ∷ ls) h =
    mark_loops-decided (foldl mark_loop (mark_loop s l) inner) ls
      (inner-decided (mark_loop s l) inner (mark_loop-decided s l h))

calculate_all-decided :
    (node : ℕ → Node) (constant : ℕ → Option ℕ) (f : ℕ) (s : Tia) (is : List ℕ)
    → is_all_decided s.tc ≡ true
    → Holds
        (λ s1 changed. (is_all_decided s1.tc ≡ true) × (changed ≡ false))
        (calculate_all node constant f s is)
unfolding calculate_all
calculate_all-decided node constant f s [] h = (h, refl)
calculate_all-decided node constant f s (i ∷ is) h =
    Holds-and_then _ _ (get_or_calculate_triplet node constant f s i) _
      (get_or_calculate_triplet-decided node constant f s i h)
      (λ s1 t (h1, d). calculate_all-decided node constant f s1 is h1)

-- Whatever an earlier function left in the maps, a run that returns leaves only triplets that say
-- kInvariant or kNonInvariant in every dimension, and reports no change.
pub run_on_function-decided :
    (node : ℕ → Node) (constant : ℕ → Option ℕ) (f : ℕ) (s : Tia) (fn : Function)
    → Holds
        (λ s1 changed. (is_all_decided s1.tc ≡ true) × (changed ≡ false))
        (run_on_function node constant f s fn)
unfolding run_on_function prepare set_triplet_to_value
run_on_function-decided node constant f s fn =
    calculate_all-decided node constant f (prepare node constant s fn) fn.instructions (
      insert-is_all_decided fn.entry all_invariant _
        (mark_loops-decided _ fn.loops (
          mark_values-decided all_invariant _ fn.globals refl
            (rw (paint_white-tc (record s { tc = [] }) fn.instructions) refl)))
        refl)
