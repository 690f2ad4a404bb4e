-- ===== src/OpenClAl/Names.antt =====
-- Kernels and stubs by their names, and the table of work-item functions.
use mathlib.Core.Option.{some-injective}
use vari_ocl.Base.{
  subst, ◌≡◌, refl, ◌↔◌, true, false, ◌++◌, Option, some, arith, Bytes, ends_in_iff,
}
use vari_ocl.OpenClAl.{
  Function, WiFunction, wi_unknown, wi_work_dim, wi_global_size, wi_global_id, wi_local_size,
  wi_local_id, wi_num_groups, wi_group_id, wi_global_offset, type_of_work_item_function,
  wi_function_name, is_this_function_a_kernel, kernel_suffix,
}

-- A function is taken for a kernel exactly if it has a body and its name is a stem with "_kernel".
is_this_function_a_kernel_iff :
    (f : Function)
    → (is_this_function_a_kernel (some f) ≡ true)
      ↔ ((f.is_declaration ≡ false) × ((stem : Bytes) × (f.name ≡ stem ++ kernel_suffix)))
unfolding is_this_function_a_kernel
is_this_function_a_kernel_iff f =
    let e = ends_in_iff kernel_suffix f.name in
    (λ h. (ground arith, e.0 (ground arith)), λ h. let k = e.1 h.1 in ground arith)

abbrev declared : Bytes → Option Function
declared n = some (record { name = n; is_declaration = true })

along :
    {m n : Bytes} (k : WiFunction)
    → some m ≡ some n
    → type_of_work_item_function (declared m) ≡ k
    → type_of_work_item_function (declared n) ≡ k
along {m} {n} k h e =
    subst (λ x. type_of_work_item_function (declared x) ≡ k) (some-injective m n h) e

-- The name that is looked up for a work-item function is, declared, recognised as that function.
pub type_of-wi_function_name :
    (k : WiFunction) (n : Bytes)
    → wi_function_name k ≡ some n
    → type_of_work_item_function (some (record { name = n; is_declaration = true })) ≡ k
unfolding type_of_work_item_function wi_function_name
type_of-wi_function_name wi_unknown n h = cc
type_of-wi_function_name wi_work_dim n h = along wi_work_dim h refl
type_of-wi_function_name wi_global_size n h = along wi_global_size h refl
type_of-wi_function_name wi_global_id n h = along wi_global_id h refl
type_of-wi_function_name wi_local_size n h = along wi_local_size h refl
type_of-wi_function_name wi_local_id n h = along wi_local_id h refl
type_of-wi_function_name wi_num_groups n h = along wi_num_groups h refl
type_of-wi_function_name wi_group_id n h = along wi_group_id h refl
type_of-wi_function_name wi_global_offset n h = along wi_global_offset h refl
