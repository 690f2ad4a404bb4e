-- ===== src/Tests/Triplets.antt =====
-- The triplet analysis (triplet_invariance_analysis.cpp) on a kernel that stores its local id.
use vari_ocl.Base.{
  ℕ, subst, sym, ==_iff, Bool-cases, inl, inr, ◌≡◌, refl, true, false, List, [], ◌∷◌, Option, none,
  some, ◌==◌, if◌then◌else◌, arith, lookup,
}
use vari_ocl.Triplet.{
  load, get_element_ptr, is_pending, Tia, no_fuel, Node, alloca, store, call, argument_or_constant,
  other_instruction, other_value, all_invariant, all_non_invariant, get_or_calculate_triplet,
  record_triplet, unite,
}
use vari_ocl.Triplet.Invariant.{Holds}
use vari_ocl.Triplet.Plain.{is_plain, triplet_of}
use vari_ocl.Triplet.Plain.Memo.{Gives, Said}
use vari_ocl.Triplet.Plain.Correct.{get_or_calculate_triplet_correct}
use vari_ocl.Triplet.Known.{
  is_all_decided, is_decided, get_or_calculate_triplet-decided, escaping_alloca,
}
use vari_ocl.Triplet.Run.{Function, run_on_function, run_on_function-decided}
use vari_ocl.Triplet.Divergence.{Branch, conditional, analyze_bb_divergence}
use vari_ocl.Triplet.Worklist.{worklist, visit_each, worklist-visit_each}

-- 1 is the constant 0, 2 is get_local_id(1), 3 adds 1 and 2, 4 is an alloca that 5 stores 3 to, 6 is
-- an alloca whose address 7 stores.
abbrev node_of : ℕ → Node
node_of v =
    if v == 1
    then argument_or_constant
    else if v == 2
    then call "get_local_id" (1 ∷ [])
    else if v == 3
    then other_instruction (1 ∷ 2 ∷ [])
    else if v == 4
    then alloca (5 ∷ [])
    else if v == 5
    then store 3
    else if v == 6
    then alloca (7 ∷ [])
    else if v == 7
    then store 6
    else other_value

abbrev constant_of : ℕ → Option ℕ
constant_of v = if v == 1 then some 0 else none

abbrev fresh : Tia
fresh = record { ti = []; tc = []; colors = [] }

abbrev seeded : Tia
seeded = record { ti = []; tc = (1, all_invariant) ∷ []; colors = [] }

get_or_calculate_triplet-decided_example :
    Holds
      (λ s1 t. (is_all_decided s1.tc ≡ true) × (is_decided t ≡ true))
      (get_or_calculate_triplet node_of constant_of 9 seeded 4)
get_or_calculate_triplet-decided_example =
    get_or_calculate_triplet-decided node_of constant_of 9 seeded 4 refl

escaping_alloca_example : get_or_calculate_triplet node_of constant_of 5 fresh 6 ≡ no_fuel
escaping_alloca_example =
    escaping_alloca node_of constant_of 6 7 [] refl refl refl 5 fresh refl refl

abbrev storing : Function
storing = record {
  globals = 8 ∷ [];
  instructions = 2 ∷ 3 ∷ 4 ∷ 5 ∷ [];
  entry = 9;
  loops = (record { header = some (3 ∷ []); latch = none; blocks = [] }, []) ∷ [];
}

run_on_function-decided_example :
    Holds
      (λ s1 changed. (is_all_decided s1.tc ≡ true) × (changed ≡ false))
      (run_on_function node_of constant_of 9 fresh storing)
run_on_function-decided_example = run_on_function-decided node_of constant_of 9 fresh storing

abbrev operands_of : ℕ → List ℕ
operands_of v = if v == 3 then 1 ∷ 2 ∷ [] else if v == 5 then 3 ∷ 4 ∷ [] else []

abbrev users_of : ℕ → List ℕ
users_of v = if v == 2 then 3 ∷ [] else if v == 3 then 5 ∷ [] else []

worklist-visit_each_example :
    worklist node_of constant_of operands_of users_of 3 9 fresh (2 ∷ 3 ∷ 5 ∷ [])
    ≡ visit_each node_of constant_of operands_of users_of 9 fresh (2 ∷ 3 ∷ 5 ∷ [])
worklist-visit_each_example =
    worklist-visit_each node_of constant_of operands_of users_of 3 9 fresh (2 ∷ 3 ∷ 5 ∷ [])
      (omega arith)

-- 1 is the constant 0, 2 is get_local_id(0), 3 adds 1 and 2, 4 is an address made of 5 and 3, 5 an
-- argument, and 6 loads from 4.
abbrev plain_node : ℕ → Node
plain_node v =
    if v == 1
    then argument_or_constant
    else if v == 2
    then call "get_local_id" (1 ∷ [])
    else if v == 3
    then other_instruction (1 ∷ 2 ∷ [])
    else if v == 4
    then get_element_ptr true 5 false (3 ∷ [])
    else if v == 5
    then argument_or_constant
    else if v == 6
    then load 4
    else other_value

-- How deep the operands of a value go.
abbrev depth : ℕ → ℕ
depth v = if v == 2 then 1 else if v == 3 then 2 else if v == 4 then 3 else if v == 6 then 4 else 0

abbrev IsPlainAt : ℕ → Type 0
IsPlainAt v = is_plain depth (depth v) (plain_node v) ≡ true

is_plain-at : (k v : ℕ) → IsPlainAt k → (v == k) ≡ true → IsPlainAt v
is_plain-at k v h e = subst IsPlainAt (sym ((==_iff v k).0 e)) h

plain_node-is_plain : (v : ℕ) → IsPlainAt v
plain_node-is_plain v = elim (Bool-cases (v == 1)) [
  | inl e ↦ is_plain-at 1 v refl e
  | inr a ↦ elim (Bool-cases (v == 2)) [
    | inl e ↦ is_plain-at 2 v refl e
    | inr b ↦ elim (Bool-cases (v == 3)) [
      | inl e ↦ is_plain-at 3 v refl e
      | inr c ↦ elim (Bool-cases (v == 4)) [
        | inl e ↦ is_plain-at 4 v refl e
        | inr d ↦ elim (Bool-cases (v == 5)) [
          | inl e ↦ is_plain-at 5 v refl e
          | inr g ↦ elim (Bool-cases (v == 6)) [
            | inl e ↦ is_plain-at 6 v refl e
            | inr h ↦ rw (a, b, c, d, g, h) refl
          ]
        ]
      ]
    ]
  ]
]

get_or_calculate_triplet_correct_example :
    Gives
      (Said plain_node constant_of depth fresh (triplet_of plain_node constant_of depth 6))
      (get_or_calculate_triplet plain_node constant_of 5 fresh 6)
unfolding is_pending
get_or_calculate_triplet_correct_example =
    get_or_calculate_triplet_correct plain_node constant_of depth plain_node-is_plain 5 fresh 6
      (omega arith) (λ u t e. cc) (λ w k. refl)

-- Block 20 branches on a condition to 21 and 22.
abbrev branches : ℕ → ℕ → Option Branch
branches c b = if b == 20 then some (conditional c (21 ∷ 22 ∷ [])) else none

-- A branch on the constant leaves its successor uniform, one on the local id divergent.
analyze_bb_divergence_marks :
    Holds
      (λ s1 r. lookup 21 s1.tc ≡ some all_invariant)
      (analyze_bb_divergence node_of constant_of (branches 1) (λ a b. a == b) 4 9 fresh 21 20)
    × Holds
        (λ s1 r. lookup 21 s1.tc ≡ some all_non_invariant)
        (analyze_bb_divergence node_of constant_of (branches 3) (λ a b. a == b) 4 9 fresh 21 20)
unfolding analyze_bb_divergence record_triplet unite
analyze_bb_divergence_marks = (refl, refl)
