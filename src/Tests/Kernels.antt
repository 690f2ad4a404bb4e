-- ===== src/Tests/Kernels.antt =====
-- The kernel metadata (kernel_info_reader.cpp) of a module of two kernels.
use vari_ocl.Base.{◌≡◌, refl, List, [], ◌∷◌, ◌++◌, map, some, length, Bytes, codes}
use vari_ocl.KernelInfo.{
  number, named, pointer, plain, Kernel, Info, empty_info, cl_kernel_info, get_arg_names_2d,
}
use vari_ocl.KernelInfo.Shape.{IsPlaced, IfSome, cl_kernel_info-IsPlaced}
use vari_ocl.KernelInfo.Rows.{concat, get_arg_names_2d_correct}

abbrev add_kernel : Kernel
add_kernel = record {
  name = codes "add";
  arguments = pointer 1 5 ∷ plain 2 ∷ [];
  allocas = (codes "n.addr", 4) ∷ (codes "i", 8) ∷ [];
  metadata =
      record { name = codes "kernel_arg_addr_space"; operands = number 1 ∷ number 0 ∷ [] }
      ∷ record {
        name = codes "kernel_arg_name";
        operands = named (codes "out") ∷ named (codes "n") ∷ [];
      }
      ∷ record {
        name = codes "reqd_work_group_size";
        operands = number 64 ∷ number 1 ∷ number 1 ∷ [];
      }
      ∷ [];
}

abbrev empty_kernel : Kernel
empty_kernel = record { name = codes "nop"; arguments = []; allocas = []; metadata = [] }

cl_kernel_info-IsPlaced_example :
    IfSome (IsPlaced 2 2 2) (cl_kernel_info (add_kernel ∷ empty_kernel ∷ []))
cl_kernel_info-IsPlaced_example = cl_kernel_info-IsPlaced (add_kernel ∷ empty_kernel ∷ [])

abbrev read : Info
read = record (empty_info 2) {
  kernel_num_args = 2 ∷ 1 ∷ [];
  arg_names = codes "out" ∷ codes "n" ∷ codes "in" ∷ [];
}

get_arg_names_2d_correct_example :
    (rows : List (List Bytes)) × (get_arg_names_2d read
      ≡ some (record read { arg_names_2d = read.arg_names_2d ++ rows }))
    × (concat rows ≡ read.arg_names)
    × (map length rows ≡ read.kernel_num_args)
get_arg_names_2d_correct_example = get_arg_names_2d_correct read refl refl
