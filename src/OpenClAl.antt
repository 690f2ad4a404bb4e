-- ===== src/OpenClAl.antt =====
-- class OpenClAl (OpenClAl.h, OpenClAl.cpp): which functions are kernels, stubs and work-item
-- functions, and which memory a pointer refers to. A function is its name and whether it is only
-- declared; `none` is the null pointer. Names are bytes.
pub mod Names
pub mod Memory
use vari_ocl.Base.{
  ℕ, zero, suc, ◌+◌, ◌-◌, ◌^◌, ◌%◌, ◌≡◌, Bool, true, false, not, ◌||◌, ◌&&◌, List, [], ◌∷◌, ◌++◌,
  Option, none, some, length, take, ltb, leb, ◌==◌, if◌then◌else◌, Bytes, codes, same, ends_in,
}

pub record Function : Type 0 where
  pub name : Bytes
  pub is_declaration : Bool

pub data WiFunction : Type 0 where
  wi_unknown wi_work_dim wi_global_size wi_global_id wi_local_size : WiFunction
  wi_local_id wi_num_groups wi_group_id wi_global_offset : WiFunction

-- `WIFunctionMap`.
abbrev pub wi_function_map : List (Bytes × WiFunction)
wi_function_map =
    (codes "__amdil_get_work_dim_int", wi_work_dim)
    ∷ (codes "__amdil_get_global_size_int", wi_global_size)
    ∷ (codes "__amdil_get_global_id_int", wi_global_id)
    ∷ (codes "__amdil_get_local_size_int", wi_local_size)
    ∷ (codes "__amdil_get_local_id_int", wi_local_id)
    ∷ (codes "__amdil_get_num_groups_int", wi_num_groups)
    ∷ (codes "__amdil_get_group_id_int", wi_group_id)
    ∷ (codes "__amdil_get_global_offset_int", wi_global_offset)
    ∷ []

abbrev pub find_name : Bytes → List (Bytes × WiFunction) → WiFunction
find_name n [] = wi_unknown
find_name n ((m, k) ∷ rest) = if same n m then k else find_name n rest

unfoldable pub type_of_work_item_function : Option Function → WiFunction
type_of_work_item_function none = wi_unknown
type_of_work_item_function (some f) =
    if not f.is_declaration then wi_unknown else find_name f.name wi_function_map

-- The name that `getWIFunction` looks up in the module; `none` is its early return.
unfoldable pub wi_function_name : WiFunction → Option Bytes
wi_function_name wi_work_dim = some (codes "__amdil_get_work_dim_int")
wi_function_name wi_global_size = some (codes "__amdil_get_global_size_int")
wi_function_name wi_global_id = some (codes "__amdil_get_global_id_int")
wi_function_name wi_local_size = some (codes "__amdil_get_local_size_int")
wi_function_name wi_local_id = some (codes "__amdil_get_local_id_int")
wi_function_name wi_num_groups = some (codes "__amdil_get_num_groups_int")
wi_function_name wi_group_id = some (codes "__amdil_get_group_id_int")
wi_function_name wi_global_offset = some (codes "__amdil_get_global_offset_int")
wi_function_name wi_unknown = none

abbrev pub is_wi : WiFunction → WiFunction → Bool
is_wi wi_group_id wi_group_id = true
is_wi wi_local_id wi_local_id = true
is_wi wi_global_id wi_global_id = true
is_wi _ _ = false

unfoldable pub is_group_index : Option Function → Bool
unfolding type_of_work_item_function
is_group_index f = is_wi (type_of_work_item_function f) wi_group_id

unfoldable pub is_local_index : Option Function → Bool
unfolding type_of_work_item_function
is_local_index f = is_wi (type_of_work_item_function f) wi_local_id

unfoldable pub is_global_index : Option Function → Bool
unfolding type_of_work_item_function
is_global_index f = is_wi (type_of_work_item_function f) wi_global_id

-- `SafeAtom`.
abbrev pub safe_atom : List Bytes
safe_atom =
    codes "__atom_inc_lu32"
    ∷ codes "__atom_add_gi32"
    ∷ codes "__atom_min_gu32"
    ∷ codes "__atom_max_gu32"
    ∷ []

abbrev pub has_name : Bytes → List Bytes → Bool
has_name n [] = false
has_name n (m ∷ rest) = same n m || has_name n rest

unfoldable pub is_safe_atomic : Option Function → Bool
is_safe_atomic none = false
is_safe_atomic (some f) = has_name f.name safe_atom

-- `GetIndexAxis`, as the bits of an `int`. The first operand of the call is given by its width and
-- its bits, if it is a constant integer; `getSExtValue` has 64 bits.
abbrev pub no_axis : ℕ
no_axis = 2 ^ 32 - 1

abbrev pub sext32 : ℕ → ℕ → ℕ
sext32 w z = if ltb z (2 ^ (w - 1)) then z % 2 ^ 32 else (z + 2 ^ 64 - 2 ^ w) % 2 ^ 32

abbrev pub axis_of : Option (ℕ × ℕ) → ℕ
axis_of none = no_axis
axis_of (some (w, z)) = sext32 w z

unfoldable pub get_index_axis : Option Function → Option (ℕ × ℕ) → ℕ
unfolding is_group_index is_local_index
get_index_axis none first = no_axis
get_index_axis (some f) first =
    if not (is_group_index (some f) || is_local_index (some f)) then no_axis else axis_of first

abbrev pub kernel_suffix : Bytes
kernel_suffix = codes "_kernel"

abbrev pub stub_suffix : Bytes
stub_suffix = codes "_stub"

unfoldable pub is_this_function_a_kernel : Option Function → Bool
is_this_function_a_kernel none = false
is_this_function_a_kernel (some f) =
    if f.is_declaration then false else ends_in kernel_suffix f.name

unfoldable pub is_this_function_a_stub : Option Function → Bool
is_this_function_a_stub none = false
is_this_function_a_stub (some f) = if f.is_declaration then false else ends_in stub_suffix f.name

-- `name.substr(0, name.length() - n)`: the length of a shorter name wraps, and all of it is taken.
abbrev pub cut : ℕ → Bytes → Bytes
cut n name = if ltb (length name) n then name else take (length name - n) name

abbrev pub has_stub : Bytes → List Function → Bool
has_stub stem [] = false
has_stub stem (f ∷ fs) =
    let rest = has_stub stem fs in
    if (if f.is_declaration then false else ends_in stub_suffix f.name)
    then (if same stem (cut 5 f.name) then true else rest)
    else rest

-- `isCPUTarget`, over the functions of the kernel list and those of the module.
unfoldable pub is_cpu_target : List Function → List Function → Bool
is_cpu_target [] m = false
is_cpu_target (k ∷ ks) m = has_stub (cut 7 k.name) m

-- A function in the kernel list is told by its address; the list holds the index beside it.
unfoldable pub kernels_from : ℕ → List ℕ → List (ℕ × ℕ)
kernels_from i [] = []
kernels_from i (f ∷ fs) = (i, f) ∷ kernels_from (i + 1) fs

-- `createKernelList`, from the functions that the annotations name, in their order.
unfoldable pub create_kernel_list : List ℕ → List (ℕ × ℕ)
unfolding kernels_from
create_kernel_list fs = kernels_from 0 fs

-- `findKernel`; -1 as a `size_t`.
unfoldable pub find_kernel : ℕ → List (ℕ × ℕ) → ℕ
find_kernel f [] = 2 ^ 64 - 1
find_kernel f ((i, g) ∷ ks) = if g == f then i else find_kernel f ks

pub data MemClass : Type 0 where
  mem_private mem_global mem_constant mem_local mem_unknown invalid : MemClass

abbrev pub mem_index : MemClass → ℕ
mem_index mem_private = 0
mem_index mem_global = 1
mem_index mem_constant = 2
mem_index mem_local = 3
mem_index mem_unknown = 4
mem_index invalid = 5

-- A pointer type is its address space; `none` is NULL, or a type that is no pointer.
unfoldable pub get_referenced_memory : Option ℕ → MemClass
get_referenced_memory none = invalid
get_referenced_memory (some space) =
    if space == 0
    then mem_private
    else if space == 1
    then mem_global
    else if space == 2
    then mem_constant
    else if space == 3
    then mem_local
    else mem_unknown

unfoldable pub is_pointer_to_mem_class : Option ℕ → MemClass → Bool
is_pointer_to_mem_class none kind = false
is_pointer_to_mem_class (some space) kind =
    if mem_index kind == 5
    then false
    else if mem_index kind == space
    then true
    else if leb 5 space && mem_index kind == 4
    then true
    else false
