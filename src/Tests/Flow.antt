-- ===== src/Tests/Flow.antt =====
-- The data flow of ThreadInvariance.cpp on a kernel of three blocks: the second is a loop that counts
-- up to the global id, the third stores the count to the kernel's argument.
use vari_ocl.Base.{
  ℕ, ◌≡◌, ◌≤◌, refl, true, ◌||◌, Bool, List, [], ◌∷◌, Option, none, some, elem, ◌==◌, ltb,
  if◌then◌else◌, ◌>>=◌, arith, codes, length, IsDistinct, all, all-elem,
}
use vari_ocl.ControlDependence.{get_output_dependence}
use vari_ocl.OpenClAl.{is_safe_atomic, Function, is_global_index, is_local_index, is_group_index}
use vari_ocl.ThreadInvariance.Scalar.{dim_global, dim_local}
use vari_ocl.ThreadInvariance.Impl.{
  Program, Sort, argument, instruction, block, other_value, constant, constant_int, State, Op,
  binary, cmp, get_element_ptr, is_instruction, call, extract_element, phi, store, branch, other,
}
use vari_ocl.ThreadInvariance.Visit.Update.{update_instruction}
use vari_ocl.ThreadInvariance.Visit.Call.{index_result, visit_other_call, visit_call}
use vari_ocl.ThreadInvariance.Visit.Axis.{visit_call_lem}
use vari_ocl.ThreadInvariance.Build.{initial, build}
use vari_ocl.ThreadInvariance.Build.Queue.{IsClosed, start, queue_bounded}
use vari_ocl.ThreadInvariance.Build.Plain.{IsPlain, is_plain}
use vari_ocl.ThreadInvariance.Build.Ends.{Finished, build_stops}

abbrev get_global_id : Function
get_global_id = record { name = codes "__amdil_get_global_id_int"; is_declaration = true }

abbrev sort_of : ℕ → Sort
sort_of v =
    if v == 1 || v == 2 || v == 3
    then block
    else if v == 100
    then argument
    else if v == 200
    then constant_int 32 0
    else if v == 300
    then constant
    else if ltb v 40
    then instruction
    else other_value

abbrev op_of : ℕ → Op
op_of v =
    if v == 10
    then call (some get_global_id) []
    else if v == 11
    then extract_element 10 200
    else if v == 12
    then branch none
    else if v == 20
    then phi ((300, 1) ∷ (21, 2) ∷ [])
    else if v == 21
    then binary (20 ∷ 300 ∷ [])
    else if v == 22
    then cmp (21 ∷ 11 ∷ [])
    else if v == 23
    then branch (some 22)
    else if v == 30
    then get_element_ptr (100 ∷ 21 ∷ [])
    else if v == 31
    then store 21 30
    else other

abbrev insts_of : ℕ → List ℕ
insts_of b =
    if b == 1
    then 10 ∷ 11 ∷ 12 ∷ []
    else if b == 2
    then 20 ∷ 21 ∷ 22 ∷ 23 ∷ []
    else if b == 3
    then 30 ∷ 31 ∷ 32 ∷ []
    else []

abbrev parent_of : ℕ → Option ℕ
parent_of v =
    if elem v (10 ∷ 11 ∷ 12 ∷ [])
    then some 1
    else if elem v (20 ∷ 21 ∷ 22 ∷ 23 ∷ [])
    then some 2
    else if elem v (30 ∷ 31 ∷ 32 ∷ [])
    then some 3
    else none

abbrev users_of : ℕ → List ℕ
users_of v =
    if v == 10
    then 11 ∷ []
    else if v == 11
    then 22 ∷ []
    else if v == 20
    then 21 ∷ []
    else if v == 21
    then 20 ∷ 22 ∷ 30 ∷ 31 ∷ []
    else if v == 22
    then 23 ∷ []
    else if v == 30
    then 31 ∷ []
    else []

abbrev kernel : Program
kernel = record {
  sort = sort_of;
  elements = λ v. if v == 10 then some 4 else none;
  space = λ v. if v == 100 || v == 30 then some 1 else none;
  op = op_of;
  is_terminator = λ v. elem v (12 ∷ 23 ∷ 32 ∷ []);
  parent = parent_of;
  users = users_of;
  function_of = λ b. 0;
  blocks = 1 ∷ 2 ∷ 3 ∷ [];
  insts = insts_of;
  terminator = λ b. if b == 1 then 12 else if b == 2 then 23 else 32;
  args = 100 ∷ [];
  is_kernel = true;
  deps = record {
    input = (1, []) ∷ (2, []) ∷ (3, []) ∷ [];
    output = (1, []) ∷ (2, []) ∷ (3, []) ∷ [];
  };
  dominates = λ a b. ltb a b || a == b;
}

instruction_of : (k : Sort) → is_instruction k ≡ true → k ≡ instruction
instruction_of k h = ground arith

-- A test that holds of all instructions.
each :
    (q : ℕ → Bool) (bb i : ℕ)
    → all (λ b. all q (insts_of b)) kernel.blocks ≡ true
    → elem bb kernel.blocks ≡ true
    → elem i (insts_of bb) ≡ true
    → q i ≡ true
each q bb i h b m =
    all-elem q i (insts_of bb) (all-elem (λ x. all q (insts_of x)) bb kernel.blocks h b) m

kernel-IsPlain : IsPlain kernel
unfolding is_safe_atomic
kernel-IsPlain = record {
  ops = λ bb i b m. each (λ x. is_plain kernel (op_of x)) bb i refl b m;
  sorts =
      λ bb i b m. instruction_of (sort_of i) (each (λ x. is_instruction (sort_of x)) bb i refl b m);
  block_sorts = λ bb b. ground arith;
  arguments = λ a m. ground arith;
  chains = λ v. ground arith;
}

kernel-IsClosed : IsClosed kernel
unfolding get_output_dependence
kernel-IsClosed = record {
  parents = λ u bb e. ground arith;
  dependents = λ bb out e x m. ground arith;
}

build_stops_example :
    (fuel : ℕ) × Finished kernel kernel-IsPlain kernel-IsClosed (build kernel fuel)
build_stops_example = build_stops kernel kernel-IsPlain kernel-IsClosed (refl, (refl, (refl, tt)))

abbrev all_queued : State
all_queued = record initial { queue = 1 ∷ 2 ∷ 3 ∷ [] }

queue_bounded_example :
    IsDistinct (1 ∷ 2 ∷ 3 ∷ []) × (length all_queued.queue ≤ length kernel.blocks)
queue_bounded_example =
    queue_bounded kernel kernel-IsClosed (refl, (refl, (refl, tt))) all_queued all_queued refl start

visit_call_lem_example : visit_call kernel 10 (some get_global_id) [] initial ≡ (
    if is_global_index (some get_global_id)
    then (index_result kernel (dim_global ∷ dim_local ∷ []) 10 >>= λ r.
        update_instruction kernel 10 r initial)
    else if is_local_index (some get_global_id)
    then (index_result kernel (dim_local ∷ []) 10 >>= λ r. update_instruction kernel 10 r initial)
    else if is_group_index (some get_global_id)
    then (index_result kernel (dim_global ∷ []) 10 >>= λ r. update_instruction kernel 10 r initial)
    else visit_other_call kernel 10 get_global_id [] initial)
visit_call_lem_example = visit_call_lem kernel 10 get_global_id [] initial
