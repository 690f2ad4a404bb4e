-- ===== src/Tests/Values.antt =====
-- The invariance values (ThreadInvariance.cpp) and the OpenCL names (OpenClAl.cpp).
use Prim.Native.Nat.{min, max}
use vari_ocl.Base.{ℕ, ◌≡◌, ◌≢◌, refl, true, false, List, [], ◌∷◌, some, get_elem?, ◌↔◌, codes}
use vari_ocl.ThreadInvariance.Kind.{
  unknown, maybe_non_invariant, non_invariant, invariant, meet, join,
}
use vari_ocl.ThreadInvariance.Kind.Lattice.{rank, join_rank, meet-join_rank}
use vari_ocl.ThreadInvariance.Scalar.{DimLevel, get_invariance, Scalar, set, scalar, dim_max}
use vari_ocl.ThreadInvariance.Info.{element, Info, info_eq, info_and_assign}
use vari_ocl.ThreadInvariance.Info.Merge.{SameAll, info_eq_iff, info_and_assign-reads, met, partner}
use vari_ocl.OpenClAl.{
  Function, wi_local_id, wi_function_name, type_of_work_item_function, find_kernel,
  create_kernel_list,
}
use vari_ocl.OpenClAl.Memory.{find-create_kernel_list}
use vari_ocl.OpenClAl.Names.{type_of-wi_function_name}

meet-join_rank_example :
    (rank (meet invariant maybe_non_invariant) ≡ min (rank invariant) (rank maybe_non_invariant))
    × (join_rank (join invariant maybe_non_invariant)
        ≡ max (join_rank invariant) (join_rank maybe_non_invariant))
meet-join_rank_example = meet-join_rank invariant maybe_non_invariant

is_known : invariant ≢ unknown
is_known e = cc

-- A value that varies along axis 1 of the work group.
abbrev varying : Scalar
unfolding scalar set
varying = set dim_max 1 non_invariant scalar

abbrev one : Info
one = record { values = varying ∷ [] }

abbrev two : Info
two = record { values = scalar ∷ varying ∷ [] }

info_eq_iff_example : (info_eq one two ≡ true) ↔ SameAll one.values two.values
info_eq_iff_example = info_eq_iff one two

-- The second element of `two` meets the one element of `one`.
info_and_assign-reads_example :
    (r : Scalar) × (element 1 (info_and_assign two one) ≡ some r)
    × ((level : DimLevel) (j : ℕ)
        → get_invariance level j r ≡ met level j varying (partner two one 1))
unfolding element
info_and_assign-reads_example = info_and_assign-reads two one 1 varying refl

abbrev annotated : List ℕ
annotated = 7 ∷ 8 ∷ 9 ∷ []

find-create_kernel_list_example :
    get_elem? annotated (find_kernel 8 (create_kernel_list annotated)) ≡ some 8
find-create_kernel_list_example = find-create_kernel_list 8 annotated refl

abbrev matmul : Function
matmul = record { name = codes "matmul_kernel"; is_declaration = false }

type_of-wi_function_name_example :
    type_of_work_item_function
      (some (record { name = codes "__amdil_get_local_id_int"; is_declaration = true }))
    ≡ wi_local_id
unfolding wi_function_name
type_of-wi_function_name_example =
    type_of-wi_function_name wi_local_id (codes "__amdil_get_local_id_int") refl
