-- ===== src/KernelInfo/Records.antt =====
-- The metadata of a kernel, and the vectors of CL_KernelInfo (kernel_info_reader.h).
use vari_ocl.Base.{ℕ, List, [], Bytes}

-- An operand of a metadata node: an integer constant, or a value with a name.
pub data Operand : Type 0 where
  number : ℕ → Operand
  named : Bytes → Operand

-- A node below a kernel: the name of its first operand, and the others.
pub record Metadata : Type 0 where
  pub name : Bytes
  pub operands : List Operand

-- A type: a pointer into an address space, or anything else.
pub data ClType : Type 0 where
  pointer : ℕ → ℕ → ClType
  plain : ℕ → ClType

-- A kernel: its arguments' types, its allocas with their alignments, and its metadata.
pub record Kernel : Type 0 where
  pub name : Bytes
  pub arguments : List ClType
  pub allocas : List (Bytes × ℕ)
  pub metadata : List Metadata

pub record Info : Type 0 where
  pub cl_kernel_num : ℕ
  pub kernel_names : List Bytes
  pub kernel_num_args : List ℕ
  pub attr_names : List Bytes
  pub wkgp_size_hints : List (List ℕ)
  pub reqd_wkgp_sizes : List (List ℕ)
  pub local_mem_sizes : List ℕ
  pub priv_mem_sizes : List ℕ
  pub addr_qualifier : List Bytes
  pub access_qualifier : List Bytes
  pub arg_type_names : List Bytes
  pub arg_type_qual : List ℕ
  pub arg_names : List Bytes
  pub kernel_dims : List ℕ
  pub kernel_arg_types : List (List ClType)
  pub arg_names_2d : List (List Bytes)

abbrev pub empty_info : ℕ → Info
empty_info n = record {
  cl_kernel_num = n;
  kernel_names = [];
  kernel_num_args = [];
  attr_names = [];
  wkgp_size_hints = [];
  reqd_wkgp_sizes = [];
  local_mem_sizes = [];
  priv_mem_sizes = [];
  addr_qualifier = [];
  access_qualifier = [];
  arg_type_names = [];
  arg_type_qual = [];
  arg_names = [];
  kernel_dims = [];
  kernel_arg_types = [];
  arg_names_2d = [];
}
