-- ===== src/Triplet/Invariant.antt =====
-- Invariants of getOrCalculateTriplet (triplet_invariance_analysis.cpp): what holds of the maps and
-- of the triplets whatever the values are.
use Prim.Native.String.{String}
use text.Mathlib.Text.{◌==◌ as str_eq}
use vari_ocl.Base.{
  ℕ, zero, suc, ◌≡◌, refl, Bool, true, false, not, ◌||◌, List, [], ◌∷◌, ◌++◌, Option, none, some,
  if◌then◌else◌, ◌==◌, lookup,
}
use vari_ocl.Triplet.{
  Color, invariant, non_invariant, Triplet, triplet, all_invariant, all_non_invariant, Tia, Outcome,
  returns, undefined, no_fuel, and_then, set_triplet_to_value, triplet_union, Node, basic_block,
  argument_or_constant, alloca, load, store, branch, return, phi, call, get_element_ptr,
  other_instruction, other_value, is_instruction, paint_grey, is_pending, record_triplet, unite,
  unite_all, triplets_of, user_kind_triplet, user_triplet, user_triplets, alloca_triplet,
  through_operand, id_triplet, is_uniform_query, call_triplet, gep_triplet, calculate_node,
  get_or_calculate_triplet,
}

-- What a call that returns leaves.
abbrev pub Holds : {A : Type 0} → (Tia → A → Type 0) → Outcome A → Type 0
Holds P (returns s a) = P s a
Holds P undefined = Unit {0}
Holds P no_fuel = Unit {0}

pub Holds-and_then :
    {A B : Type 0} (P : Tia → A → Type 0) (R : Tia → B → Type 0) (o : Outcome A)
    → (k : Tia → A → Outcome B) → Holds P o
    → ((s : Tia) (a : A) → P s a → Holds R (k s a))
    → Holds R (and_then o k)
Holds-and_then P R (returns s a) k h g = g s a h
Holds-and_then P R undefined k h g = tt
Holds-and_then P R no_fuel k h g = tt

pub always : {A : Type 0} (o : Outcome A) → Holds (λ s a. Unit {0}) o
always (returns s a) = tt
always undefined = tt
always no_fuel = tt

pub Holds-if :
    {A : Type 0} (P : Tia → A → Type 0) (c : Bool) (o u : Outcome A)
    → Holds P o
    → Holds P u
    → Holds P (if c then o else u)
Holds-if P true o u h g = h
Holds-if P false o u h g = g

abbrev pub Each : (Triplet → Type 0) → List Triplet → Type 0
Each Q [] = Unit {0}
Each Q (t ∷ ts) = Q t × Each Q ts

Each-append :
    (Q : Triplet → Type 0) (ts us : List Triplet) → Each Q ts → Each Q us → Each Q (ts ++ us)
Each-append Q [] us h k = k
Each-append Q (t ∷ ts) us (a, h) k = (a, Each-append Q ts us h k)

abbrev pub two : Bool → Color
two true = non_invariant
two false = invariant

-- A property of the maps and one of triplets, which the analysis cannot break.
pub record Invariant : Type 1 where
  pub State : Tia → Type 0
  pub Good : Triplet → Type 0
  pub start : (a b c : Bool) → Good (triplet (two a) (two b) (two c))
  pub union : (t u : Triplet) → Good t → Good u → Good (triplet_union t u)
  pub stored :
      (s : Tia) (v : ℕ) (t : Triplet) → State s → Good t → State (set_triplet_to_value s v t)
  pub painted : (s : Tia) (v : ℕ) → State s → State (paint_grey s v)
  pub found : (s : Tia) (v : ℕ) (t : Triplet) → State s → lookup v s.tc ≡ some t → Good t

module _ (i : Invariant) where
  abbrev pub Fine : Tia → Triplet → Type 0
  Fine s t = i.State s × i.Good t

  abbrev pub Fines : Tia → List Triplet → Type 0
  Fines s ts = i.State s × Each i.Good ts

  unite-Good : (t : Triplet) (ts : List Triplet) → i.Good t → Each i.Good ts → i.Good (unite t ts)
  unfolding unite
  unite-Good t [] g h = g
  unite-Good t (u ∷ us) g (a, h) = unite-Good (triplet_union t u) us (i.union t u g a) h

  recorded :
      (s : Tia) (v : ℕ) (t : Triplet) → i.State s → i.Good t → Holds Fine (record_triplet s v t)
  unfolding record_triplet
  recorded s v t h g = (i.stored s v t h g, g)

  unite_all-Fine :
      (s : Tia) (v : ℕ) (ts : List Triplet) → Fines s ts → Holds Fine (unite_all s v ts)
  unite_all-Fine s v [] h = tt
  unite_all-Fine s v (t ∷ ts) (h, (g, gs)) = recorded s v (unite t ts) h (unite-Good t ts g gs)

  module _ (rec : Tia → ℕ → Outcome Triplet) (node : ℕ → Node) (constant : ℕ → Option ℕ)
      (ih : (s : Tia) (v : ℕ) → i.State s → Holds Fine (rec s v)) where
    -- The handlers that ask the recursion first and record what it says.
    triplets_of-fine :
        (s : Tia) (vs : List ℕ) → i.State s → Holds Fines (triplets_of rec node constant s vs)
    triplets_of-fine s [] h = (h, tt)
    triplets_of-fine s (v ∷ vs) h =
        Holds-and_then Fine Fines (rec s v) _ (ih s v h) (λ s1 t (h1, g).
          Holds-and_then Fines Fines (triplets_of rec node constant s1 vs) _
            (triplets_of-fine s1 vs h1) (λ s2 ts (h2, gs). (h2, (g, gs))))

    asked :
        (s : Tia) (v u : ℕ)
        → i.State s
        → Holds Fine (and_then (rec s u) (λ s1 t. record_triplet s1 v t))
    asked s v u h =
        Holds-and_then Fine Fine (rec s u) _ (ih s u h) (λ s1 t (h1, g). recorded s1 v t h1 g)

    united :
        (s : Tia) (v : ℕ) (vs : List ℕ)
        → i.State s
        → Holds Fine (and_then (triplets_of rec node constant s vs) (λ s1 ts. unite_all s1 v ts))
    united s v vs h =
        Holds-and_then Fines Fine (triplets_of rec node constant s vs) _ (triplets_of-fine s vs h)
          (λ s1 ts h1. unite_all-Fine s1 v ts h1)

    invariantly : (s : Tia) (v : ℕ) → i.State s → Holds Fine (record_triplet s v all_invariant)
    invariantly s v h = recorded s v all_invariant h (i.start false false false)

    variantly : (s : Tia) (v : ℕ) → i.State s → Holds Fine (record_triplet s v all_non_invariant)
    variantly s v h = recorded s v all_non_invariant h (i.start true true true)

    user_kind-fine :
        (s : Tia) (v : ℕ) (n : Node)
        → i.State s
        → Holds Fines (user_kind_triplet rec node constant s v n)
    unfolding user_kind_triplet
    user_kind-fine s v (store value) h =
        Holds-and_then Fine Fines (rec s value) _ (ih s value h) (λ s1 t (h1, g). (h1, (g, tt)))
    user_kind-fine s v (load p) h = (h, tt)
    user_kind-fine s v _ h =
        (i.stored s v all_non_invariant h (i.start true true true), (i.start true true true, tt))

    user-fine :
        (s : Tia) (v user : ℕ) (n : Node)
        → i.State s
        → Holds Fines (user_triplet rec node constant s v user n)
    unfolding user_triplet
    user-fine s v user n h =
        Holds-if Fines (not (is_instruction n)) _ _ (h, tt)
          (Holds-if Fines (is_pending s user) _ _
            (
              i.stored s user all_invariant h (i.start false false false),
              (i.start false false false, tt),
            )
            (user_kind-fine s v n h))

    users-fine :
        (s : Tia) (v : ℕ) (users : List ℕ)
        → i.State s
        → Holds Fines (user_triplets rec node constant s v users)
    users-fine s v [] h = (h, tt)
    users-fine s v (user ∷ users) h =
        Holds-and_then Fines Fines (user_triplet rec node constant s v user (node user)) _
          (user-fine s v user (node user) h)
          (λ s1 ts (h1, gs).
            Holds-and_then Fines Fines (user_triplets rec node constant s1 v users) _
              (users-fine s1 v users h1) (λ s2 us (h2, ks). (h2, Each-append i.Good ts us gs ks)))

    alloca-Fine :
        (s : Tia) (v : ℕ) (users : List ℕ)
        → i.State s
        → Holds Fine (alloca_triplet rec node constant s v users)
    alloca-Fine s v [] h = invariantly (paint_grey s v) v (i.painted s v h)
    alloca-Fine s v (user ∷ users) h =
        Holds-and_then Fines Fine
          (user_triplets rec node constant (paint_grey s v) v (user ∷ users)) _
          (users-fine (paint_grey s v) v (user ∷ users) (i.painted s v h))
          (λ s1 ts h1. unite_all-Fine s1 v ts h1)

    through-Fine :
        (s : Tia) (v operand : ℕ)
        → i.State s
        → Holds Fine (through_operand rec node constant s v operand)
    unfolding through_operand
    through-Fine s v operand h =
        Holds-if Fine (is_pending (paint_grey s v) operand) _ _
          (variantly (paint_grey s v) operand (i.painted s v h))
          (asked (paint_grey s v) v operand (i.painted s v h))

    id-Fine :
        (s : Tia) (v : ℕ) (d : Option ℕ)
        → i.State s
        → Holds Fine (id_triplet rec node constant s v d)
    id-Fine s v none h = (h, i.start false false false)
    id-Fine s v (some d) h =
        Holds-if Fine (d == 0) _ _ (recorded s v _ h (i.start true false false)) (
          Holds-if Fine (d == 1) _ _ (recorded s v _ h (i.start false true false)) (
            Holds-if Fine (d == 2) _ _ (recorded s v _ h (i.start false false true))
              (h, i.start false false false)))

    call-Fine :
        (s : Tia) (v : ℕ) (name : String) (args : List ℕ)
        → i.State s
        → Holds Fine (call_triplet rec node constant s v name args)
    call-Fine s v name [] h =
        Holds-if Fine (str_eq name "get_local_id" || str_eq name "get_global_id") _ _ tt (
          Holds-if Fine (is_uniform_query rec node constant name) _ _ (invariantly s v h)
            (united s v [] h))
    call-Fine s v name (a ∷ args) h =
        Holds-if Fine (str_eq name "get_local_id" || str_eq name "get_global_id") _ _
          (id-Fine s v (constant a) h)
          (Holds-if Fine (is_uniform_query rec node constant name) _ _ (invariantly s v h)
            (united s v (a ∷ args) h))

    gep-Fine :
        (s : Tia) (v : ℕ) (p : Bool) (pointer : ℕ) (c : Bool) (is : List ℕ)
        → i.State s
        → Holds Fine (gep_triplet rec node constant s v p pointer c is)
    gep-Fine s v false pointer c is h = variantly s v h
    gep-Fine s v true pointer true is h = asked s v pointer h
    gep-Fine s v true pointer false is h =
        Holds-and_then Fine Fine (rec s pointer) _ (ih s pointer h) (λ s1 t (h1, g).
          Holds-and_then Fines Fine (triplets_of rec node constant s1 is) _
            (triplets_of-fine s1 is h1)
            (λ s2 ts (h2, gs). recorded s2 v (unite t ts) h2 (unite-Good t ts g gs)))

    node-Fine :
        (s : Tia) (v : ℕ) (n : Node)
        → i.State s
        → Holds Fine (calculate_node rec node constant s v n)
    unfolding calculate_node
    node-Fine s v (basic_block true) h = invariantly s v h
    node-Fine s v (basic_block false) h = variantly s v h
    node-Fine s v argument_or_constant h = invariantly s v h
    node-Fine s v (alloca users) h = alloca-Fine s v users h
    node-Fine s v (load pointer) h = through-Fine s v pointer h
    node-Fine s v (store value) h = through-Fine s v value h
    node-Fine s v (branch none) h = invariantly s v h
    node-Fine s v (branch (some condition)) h = asked s v condition h
    node-Fine s v return h = invariantly s v h
    node-Fine s v phi h = variantly s v h
    node-Fine s v (call name args) h = call-Fine s v name args h
    node-Fine s v (get_element_ptr p pointer c is) h = gep-Fine s v p pointer c is h
    node-Fine s v (other_instruction []) h = invariantly s v h
    node-Fine s v (other_instruction (o ∷ os)) h = united s v (o ∷ os) h
    node-Fine s v other_value h = variantly s v h

  pub calculate-Fine :
      (node : ℕ → Node) (constant : ℕ → Option ℕ) (f : ℕ) (s : Tia) (v : ℕ)
      → i.State s
      → Holds Fine (get_or_calculate_triplet node constant f s v)
  unfolding get_or_calculate_triplet
  calculate-Fine node constant zero s v h = tt
  calculate-Fine node constant (suc f) s v h =
      go (calculate-Fine node constant f) (lookup v s.tc) refl
    where
      go :
          ((s : Tia) (v : ℕ)
            → i.State s
            → Holds Fine (get_or_calculate_triplet node constant f s v))
          → (o : Option Triplet) → lookup v s.tc ≡ o
          → Holds Fine (elim o [
            | some t ↦ returns s t
            | none ↦
                calculate_node (get_or_calculate_triplet node constant f) node constant s v (node v)
          ])
      go ih none e =
          node-Fine (get_or_calculate_triplet node constant f) node constant ih s v (node v) h
      go ih (some t) e = (h, i.found s v t h e)
