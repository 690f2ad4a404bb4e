-- ===== src/KernelInfo/Shape.antt =====
-- The vectors of CL_KernelInfo (kernel_info_reader.cpp) that get an entry from every kernel, and
-- the encoding of the type qualifiers.
use vari_ocl.Base.{
  ℕ, suc, ◌+◌, ◌%◌, ◌^◌, subst, ◌/◌, ◌<◌, ◌≡◌, refl, ap, ◌∙◌, Bool, true, false, List, [], ◌∷◌,
  ◌++◌, Option, none, some, length, length-append, arith, if◌then◌else◌, Bytes, codes, same, ◌>>=◌,
}
use vari_ocl.KernelInfo.{
  Info, empty_info, Kernel, Metadata, Operand, operand_at, set_back, read_metadata, read_attribute,
  read_addr_space, count_arguments, with_arguments, argument_operands, addr_prefix, sized_attribute,
  read_all_metadata, read_kernels, begin_kernel, end_kernel, cl_kernel_info, type_qual_bits,
  contains,
}

-- Of `c` kernels `n` are begun and `m` are ended.
abbrev pub IsPlaced : ℕ → ℕ → ℕ → Info → Type 0
IsPlaced c n m info =
    (info.cl_kernel_num ≡ c)
    × (length info.kernel_names ≡ n)
    × (length info.attr_names ≡ n)
    × (length info.wkgp_size_hints ≡ n)
    × (length info.reqd_wkgp_sizes ≡ n)
    × (length info.kernel_arg_types ≡ n)
    × (length info.local_mem_sizes ≡ m)
    × (length info.priv_mem_sizes ≡ m)
    × (length info.kernel_dims ≡ m)

-- A property of the result, if there is one.
abbrev pub IfSome : {A : Type 0} → (A → Type 0) → Option A → Type 0
IfSome P none = Unit {0}
IfSome P (some a) = P a

IfSome-bind :
    {A B : Type 0} (Q : B → Type 0) (o : Option A) (k : A → Option B)
    → ((a : A) → IfSome Q (k a))
    → IfSome Q (o >>= k)
IfSome-bind Q none k h = tt
IfSome-bind Q (some a) k h = h a

IfSome-chain :
    {A B : Type 0} (P : A → Type 0) (Q : B → Type 0) (o : Option A) (k : A → Option B)
    → IfSome P o
    → ((a : A) → P a → IfSome Q (k a))
    → IfSome Q (o >>= k)
IfSome-chain P Q none k h g = tt
IfSome-chain P Q (some a) k h g = g a h

length-set_back : {A : Type 0} (x : A) (xs : List A) → length (set_back x xs) ≡ length xs
length-set_back x [] = refl
length-set_back x (y ∷ []) = refl
length-set_back x (y ∷ z ∷ zs) = ap suc (length-set_back x (z ∷ zs))

IfSome-if :
    {A : Type 0} (Q : A → Type 0) (c : Bool) (o u : Option A)
    → IfSome Q o
    → IfSome Q u
    → IfSome Q (if c then o else u)
IfSome-if Q true o u h k = h
IfSome-if Q false o u h k = k

module _ (n0 n m : ℕ) where
  with_arguments-IsPlaced :
      (nk : ℕ) (info : Info) (os : List Operand) (add : List Operand → Info)
      → ((args : List Operand) → IsPlaced n0 n m (add args))
      → IfSome (IsPlaced n0 n m) (with_arguments nk info os add)
  with_arguments-IsPlaced nk info os add h =
      IfSome-bind (IsPlaced n0 n m) (argument_operands nk info os) (λ args. some (add args)) h

  either-IsPlaced :
      (c : Bool) (i j : Info)
      → IsPlaced n0 n m i
      → IsPlaced n0 n m j
      → IsPlaced n0 n m (if c then i else j)
  either-IsPlaced true i j h k = h
  either-IsPlaced false i j h k = k

  sized_attribute-IsPlaced :
      (name : Bytes) (a b c : ℕ) (info : Info)
      → IsPlaced n0 n m info
      → IsPlaced n0 n m (sized_attribute name a b c info)
  sized_attribute-IsPlaced name a b c info h =
      let (z, p, q, r, t, u, v, w, x) = h in
      either-IsPlaced (same name (codes "work_group_size_hint")) _ _
        (
          z,
          p,
          length-set_back _ info.attr_names ∙ q,
          length-set_back _ info.wkgp_size_hints ∙ r,
          t,
          u,
          v,
          w,
          x,
        )
        (either-IsPlaced (same name (codes "reqd_work_group_size")) _ info
          (
            z,
            p,
            length-set_back _ info.attr_names ∙ q,
            r,
            length-set_back _ info.reqd_wkgp_sizes ∙ t,
            u,
            v,
            w,
            x,
          )
          h)

  read_attribute-IsPlaced :
      (md : Metadata) (info : Info)
      → IsPlaced n0 n m info
      → IfSome (IsPlaced n0 n m) (read_attribute md info)
  read_attribute-IsPlaced md info h =
      let (z, p, q, r, t, u, v, w, x) = h in
      IfSome-if (IsPlaced n0 n m) (same md.name (codes "vec_type_hint")) _ _
        (z, p, length-set_back _ info.attr_names ∙ q, r, t, u, v, w, x)
        (IfSome-bind (IsPlaced n0 n m) (operand_at 0 md.operands) _ (λ a.
          IfSome-bind (IsPlaced n0 n m) (operand_at 1 md.operands) _ (λ b.
            IfSome-bind (IsPlaced n0 n m) (operand_at 2 md.operands) _ (λ c.
              sized_attribute-IsPlaced md.name (a % 2 ^ 32) (b % 2 ^ 32) (c % 2 ^ 32) info h))))

  read_addr_space-IsPlaced :
      (nk : ℕ) (os : List Operand) (info : Info)
      → IsPlaced n0 n m info
      → IfSome (IsPlaced n0 n m) (read_addr_space nk os info)
  read_addr_space-IsPlaced nk os info h =
      IfSome-bind (IsPlaced n0 n m) (argument_operands nk (count_arguments os info) os) _
        (λ args. IfSome-bind (IsPlaced n0 n m) (addr_prefix args) _ (λ qs. h))

  read_metadata-IsPlaced :
      (nk : ℕ) (md : Metadata) (info : Info)
      → IsPlaced n0 n m info
      → IfSome (IsPlaced n0 n m) (read_metadata nk md info)
  unfolding read_metadata
  read_metadata-IsPlaced nk md info h =
      IfSome-if (IsPlaced n0 n m) (same md.name (codes "kernel_arg_addr_space")) _ _
        (read_addr_space-IsPlaced nk md.operands info h)
        (IfSome-if (IsPlaced n0 n m) (same md.name (codes "kernel_arg_access_qual")) _ _
          (with_arguments-IsPlaced nk info md.operands _ (λ args. h))
          (IfSome-if (IsPlaced n0 n m) (same md.name (codes "kernel_arg_type")) _ _
            (with_arguments-IsPlaced nk info md.operands _ (λ args. h))
            (IfSome-if (IsPlaced n0 n m) (same md.name (codes "kernel_arg_type_qual")) _ _
              (with_arguments-IsPlaced nk info md.operands _ (λ args. h))
              (IfSome-if (IsPlaced n0 n m) (same md.name (codes "kernel_arg_name")) _ _
                (with_arguments-IsPlaced nk info md.operands _ (λ args. h))
                (read_attribute-IsPlaced md info h)))))

  read_all_metadata-IsPlaced :
      (nk : ℕ) (mds : List Metadata) (info : Info)
      → IsPlaced n0 n m info
      → IfSome (IsPlaced n0 n m) (read_all_metadata nk mds info)
  unfolding read_all_metadata
  read_all_metadata-IsPlaced nk [] info h = h
  read_all_metadata-IsPlaced nk (md ∷ mds) info h =
      IfSome-chain (IsPlaced n0 n m) (IsPlaced n0 n m) (read_metadata nk md info) _
        (read_metadata-IsPlaced nk md info h) (λ next k. read_all_metadata-IsPlaced nk mds next k)

one_more :
    {A : Type 0} (xs : List A) (x : A) (n : ℕ) → length xs ≡ n → length (xs ++ x ∷ []) ≡ suc n
one_more xs x n h = ground (arith, length-append xs (x ∷ []))

begin_kernel-IsPlaced :
    (n0 n m : ℕ) (k : Kernel) (info : Info)
    → IsPlaced n0 n m info
    → IsPlaced n0 (suc n) m (begin_kernel k info)
unfolding begin_kernel
begin_kernel-IsPlaced n0 n m k info (z, p, q, r, t, u, v, w, x) = (
  z,
  one_more _ _ n p,
  one_more _ _ n q,
  one_more _ _ n r,
  one_more _ _ n t,
  one_more _ _ n u,
  v,
  w,
  x,
)

end_kernel-IsPlaced :
    (n0 n m : ℕ) (k : Kernel) (info : Info)
    → IsPlaced n0 n m info
    → IsPlaced n0 n (suc m) (end_kernel k info)
unfolding end_kernel
end_kernel-IsPlaced n0 n m k info (z, p, q, r, t, u, v, w, x) =
    (z, p, q, r, t, u, one_more _ _ m v, one_more _ _ m w, one_more _ _ m x)

read_kernels-IsPlaced :
    (total n nk : ℕ) (ks : List Kernel) (info : Info)
    → n + length ks ≡ total
    → IsPlaced total n n info
    → IfSome (IsPlaced total total total) (read_kernels nk ks info)
unfolding read_kernels
read_kernels-IsPlaced total n nk [] info e h = subst (λ t. IsPlaced total t t info) same_count h
  where
    same_count : n ≡ total
    same_count = omega (arith, e)
read_kernels-IsPlaced total n nk (k ∷ ks) info e h =
    IfSome-chain (IsPlaced total (suc n) n) (IsPlaced total total total)
      (read_all_metadata nk k.metadata (begin_kernel k info)) _
      (read_all_metadata-IsPlaced total (suc n) n nk k.metadata (begin_kernel k info)
        (begin_kernel-IsPlaced total n n k info h))
      (λ read g.
        read_kernels-IsPlaced total (suc n) (nk + 1) ks (end_kernel k read) (omega (arith, e))
          (end_kernel-IsPlaced total (suc n) n k read g))

-- If the constructor returns, the number of kernels is that of the operands, and so are the lengths
-- of the vectors for names, attributes, both sizes, argument types, local and private memory, and
-- dimensions. The counts of arguments and the address and access qualifiers, which only metadata
-- about arguments fills, are not among these vectors.
pub cl_kernel_info-IsPlaced :
    (ks : List Kernel) → IfSome (IsPlaced (length ks) (length ks) (length ks)) (cl_kernel_info ks)
unfolding cl_kernel_info
cl_kernel_info-IsPlaced ks =
    read_kernels-IsPlaced (length ks) 0 0 ks (empty_info (length ks)) (omega arith)
      (refl, refl, refl, refl, refl, refl, refl, refl, refl)

-- The number of an argument's type qualifiers is below 8, and its bits 0, 1 and 2 say whether the
-- qualifiers contain "const", "restrict" and "volatile".
pub type_qual_bits_decode :
    (s : Bytes)
    → (type_qual_bits s < 8)
      × (type_qual_bits s % 2 ≡ (if contains (codes "const") s then 1 else 0))
      × (type_qual_bits s / 2 % 2 ≡ (if contains (codes "restrict") s then 1 else 0))
      × (type_qual_bits s / 4 ≡ (if contains (codes "volatile") s then 1 else 0))
unfolding type_qual_bits
type_qual_bits_decode s =
    go (contains (codes "const") s) (contains (codes "restrict") s) (contains (codes "volatile") s)
  where
    go :
        (a b c : Bool)
        → let t : ℕ = (if a then 1 else 0) + (if b then 2 else 0) + (if c then 4 else 0) in
          (t < 8)
          × (t % 2 ≡ (if a then 1 else 0))
          × (t / 2 % 2 ≡ (if b then 1 else 0))
          × (t / 4 ≡ (if c then 1 else 0))
    go true true true = (omega arith, refl, refl, refl)
    go true true false = (omega arith, refl, refl, refl)
    go true false true = (omega arith, refl, refl, refl)
    go true false false = (omega arith, refl, refl, refl)
    go false true true = (omega arith, refl, refl, refl)
    go false true false = (omega arith, refl, refl, refl)
    go false false true = (omega arith, refl, refl, refl)
    go false false false = (omega arith, refl, refl, refl)
