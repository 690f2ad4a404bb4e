-- ===== src/KernelInfo.antt =====
-- class CL_KernelInfo (kernel_info_reader.h, kernel_info_reader.cpp): what the metadata of a module
-- says of its kernels. `none` is a run that reads what is not there: a missing operand, an operand
-- that is no constant, `at` past the end.
pub mod Rows
pub mod Shape
mod Records
mod Reading
unfoldable pub use Records.*
unfoldable pub use Reading.*
use Prim.Native.String.{String}
use vari_ocl.Base.{
  ℕ, zero, suc, ◌+◌, ◌*◌, ◌/◌, ◌%◌, ◌^◌, ◌≡◌, Bool, true, false, not, List, [], ◌∷◌, ◌++◌, Option,
  none, some, length, get_elem?, ltb, ◌==◌, if◌then◌else◌, Bytes, codes, same, ends_in, ◌>>=◌,
}

-- The pointer's own address space goes.
abbrev pub arg_types : List ClType → List ClType
arg_types [] = []
arg_types (pointer space element ∷ ts) = pointer 0 element ∷ arg_types ts
arg_types (plain t ∷ ts) = plain t ∷ arg_types ts

-- The private memory, in 64 bits: the alignments of the allocas that hold no argument.
unfoldable pub priv_size : List (Bytes × ℕ) → ℕ
priv_size [] = 0
priv_size ((name, alignment) ∷ as2) =
    let rest = priv_size as2 in
    if not (ends_in (codes ".addr") name) then (alignment + rest) % 2 ^ 64 else rest

unfoldable pub begin_kernel : Kernel → Info → Info
begin_kernel k info = record info {
  kernel_arg_types = info.kernel_arg_types ++ arg_types k.arguments ∷ [];
  kernel_names = info.kernel_names ++ k.name ∷ [];
  wkgp_size_hints = info.wkgp_size_hints ++ (0 ∷ 0 ∷ 0 ∷ []) ∷ [];
  reqd_wkgp_sizes = info.reqd_wkgp_sizes ++ (0 ∷ 0 ∷ 0 ∷ []) ∷ [];
  attr_names = info.attr_names ++ [] ∷ [];
}

unfoldable pub end_kernel : Kernel → Info → Info
unfolding priv_size
end_kernel k info = record info {
  local_mem_sizes = info.local_mem_sizes ++ 0 ∷ [];
  priv_mem_sizes = info.priv_mem_sizes ++ priv_size k.allocas ∷ [];
  kernel_dims = info.kernel_dims ++ 3 ∷ [];
}

abbrev pub read_kernels : ℕ → List Kernel → Info → Option Info
unfolding begin_kernel end_kernel read_all_metadata
read_kernels nk [] info = some info
read_kernels nk (k ∷ ks) info = do
  read ← read_all_metadata nk k.metadata (begin_kernel k info)
  read_kernels (nk + 1) ks (end_kernel k read)

-- The constructor, from the operands of `opencl.kernels`.
unfoldable pub cl_kernel_info : List Kernel → Option Info
unfolding read_kernels
cl_kernel_info ks = read_kernels 0 ks (empty_info (length ks))

-- `num_args` names from position `str_id` on.
abbrev pub names_at : List Bytes → ℕ → ℕ → Option (List Bytes)
names_at names zero str_id = some []
names_at names (suc n) str_id = do
  name ← get_elem? names str_id
  rest ← names_at names n (str_id + 1)
  some (name ∷ rest)

-- The kernels from `k` on, `n` of them.
abbrev pub rows_from : Info → ℕ → ℕ → ℕ → Option (List (List Bytes))
rows_from info zero k str_id = some []
rows_from info (suc n) k str_id = do
  num_args ← get_elem? info.kernel_num_args k
  one_kernel ← names_at info.arg_names num_args str_id
  rest ← rows_from info n (k + 1) (str_id + num_args)
  some (one_kernel ∷ rest)

-- Every call adds the rows to those already there.
unfoldable pub get_arg_names_2d : Info → Option Info
get_arg_names_2d info = do
  rows ← rows_from info info.cl_kernel_num 0 0
  some (record info { arg_names_2d = info.arg_names_2d ++ rows })
