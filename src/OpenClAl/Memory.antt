-- ===== src/OpenClAl/Memory.antt =====
-- The two questions about the memory of a pointer agree, and the kernel list is searched rightly.
use vari_ocl.Base.{
  ℕ, suc, ◌+◌, ◌-◌, ◌^◌, ◌<◌, ◌≡◌, refl, ◌≢◌, ◌↔◌, true, false, List, [], ◌∷◌, Option, none, some,
  arith, length, get_elem?, ◌==◌, elem, Bool-cases, inl, inr,
}
use vari_ocl.OpenClAl.{
  MemClass, mem_private, mem_global, mem_constant, mem_local, mem_unknown, invalid,
  get_referenced_memory, is_pointer_to_mem_class, kernels_from, create_kernel_list, find_kernel,
}

-- A pointer refers to a class exactly if the class is valid and is the one that is looked up.
pub is_pointer_to_mem_class_iff :
    (p : Option ℕ) (kind : MemClass)
    → (is_pointer_to_mem_class p kind ≡ true)
      ↔ ((kind ≢ invalid) × (get_referenced_memory p ≡ kind))
unfolding is_pointer_to_mem_class get_referenced_memory
is_pointer_to_mem_class_iff none kind = ground arith
is_pointer_to_mem_class_iff (some space) mem_private = ground arith
is_pointer_to_mem_class_iff (some space) mem_global = ground arith
is_pointer_to_mem_class_iff (some space) mem_constant = ground arith
is_pointer_to_mem_class_iff (some space) mem_local = ground arith
is_pointer_to_mem_class_iff (some space) mem_unknown = ground arith
is_pointer_to_mem_class_iff (some space) invalid = ground arith

find-kernels_from :
    (f i : ℕ) (fs : List ℕ)
    → elem f fs ≡ true
    → (j : ℕ) × (find_kernel f (kernels_from i fs) ≡ i + j)
      × (get_elem? fs j ≡ some f)
      × (j < length fs)
unfolding find_kernel kernels_from
find-kernels_from f i [] m = cc
find-kernels_from f i (g ∷ fs) m = elim (Bool-cases (g == f)) [
  | inl e ↦ (0, ground arith, ground arith, omega arith)
  | inr e ↦
      let (j, found, at, below) = find-kernels_from f (i + 1) fs (ground arith) in
      (suc j, ground arith, at, omega arith)
]

-- A function that the annotations name is found at an index where they name it.
pub find-create_kernel_list :
    (f : ℕ) (fs : List ℕ)
    → elem f fs ≡ true
    → get_elem? fs (find_kernel f (create_kernel_list fs)) ≡ some f
unfolding create_kernel_list
find-create_kernel_list f fs m =
    let (j, found, at, below) = find-kernels_from f 0 fs m in
    let e : find_kernel f (kernels_from 0 fs) ≡ j = omega arith in rw e at

missing-kernels_from :
    (f i : ℕ) (fs : List ℕ) → elem f fs ≡ false → find_kernel f (kernels_from i fs) ≡ 2 ^ 64 - 1
unfolding find_kernel kernels_from
missing-kernels_from f i [] m = refl
missing-kernels_from f i (g ∷ fs) m = ground (arith, missing-kernels_from f (i + 1) fs)

-- A function that they do not name is not found: the answer is -1 as a 64-bit word.
pub find_kernel_missing :
    (f : ℕ) (fs : List ℕ) → elem f fs ≡ false → find_kernel f (create_kernel_list fs) ≡ 2 ^ 64 - 1
unfolding create_kernel_list
find_kernel_missing f fs m = missing-kernels_from f 0 fs m
