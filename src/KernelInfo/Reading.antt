-- ===== src/KernelInfo/Reading.antt =====
-- One metadata node at a time (the constructor of kernel_info_reader.cpp).
use vari_ocl.Base.{
  ℕ, zero, suc, ◌+◌, ◌/◌, ◌%◌, ◌^◌, Bool, true, false, List, [], ◌∷◌, ◌++◌, Option, none, some,
  length, get_elem?, ltb, ◌==◌, if◌then◌else◌, Bytes, codes, same, ◌>>=◌,
}
use vari_ocl.KernelInfo.Records.{Operand, number, named, Metadata, Info}

-- `SOCL_ADDR_QUAL`, of four entries.
unfoldable pub socl_addr_qual : ℕ → Option Bytes
socl_addr_qual q =
    if q == 0
    then some (codes "0")
    else if q == 1
    then some (codes "3")
    else if q == 2
    then some (codes "2")
    else if q == 3
    then some (codes "1")
    else none

abbrev pub operand_name : Operand → Bytes
operand_name (number n) = []
operand_name (named s) = s

abbrev pub operand_number : Operand → Option ℕ
operand_number (number n) = some n
operand_number (named s) = none

-- The first `n` operands behind the name.
abbrev pub first_operands : ℕ → List Operand → Option (List Operand)
first_operands zero os = some []
first_operands (suc n) [] = none
first_operands (suc n) (o ∷ os) = do rest ← first_operands n os; some (o ∷ rest)

-- The operands of kernel `nk`, as many as `kernel_num_args.at(nk)` says.
abbrev pub argument_operands : ℕ → Info → List Operand → Option (List Operand)
argument_operands nk info os = do n ← get_elem? info.kernel_num_args nk; first_operands n os

abbrev pub addr_prefix : List Operand → Option Bytes
unfolding socl_addr_qual
addr_prefix [] = some []
addr_prefix (o ∷ os) = do
  q ← operand_number o
  c ← socl_addr_qual q
  rest ← addr_prefix os
  some (c ++ rest)

unfoldable pub access_digit : Bytes → Bytes
access_digit s =
    if same s (codes "read_only")
    then codes "3"
    else if same s (codes "write_only")
    then codes "2"
    else if same s (codes "read_write")
    then codes "1"
    else codes "0"

abbrev pub acce_prefix : List Operand → Bytes
unfolding access_digit
acce_prefix [] = []
acce_prefix (o ∷ os) = access_digit (operand_name o) ++ acce_prefix os

abbrev pub names_of : List Operand → List Bytes
names_of [] = []
names_of (o ∷ os) = operand_name o ∷ names_of os

-- `find(s) != npos`.
abbrev pub starts_with : Bytes → Bytes → Bool
starts_with [] s = true
starts_with (c ∷ cs) [] = false
starts_with (c ∷ cs) (d ∷ ds) = if c == d then starts_with cs ds else false

abbrev pub contains : Bytes → Bytes → Bool
contains p [] = starts_with p []
contains p (c ∷ cs) = let rest = contains p cs in if starts_with p (c ∷ cs) then true else rest

unfoldable pub type_qual_bits : Bytes → ℕ
type_qual_bits s =
    (if contains (codes "const") s then 1 else 0)
    + (if contains (codes "restrict") s then 2 else 0)
    + (if contains (codes "volatile") s then 4 else 0)

abbrev pub quals_of : List Operand → List ℕ
unfolding type_qual_bits
quals_of [] = []
quals_of (o ∷ os) = type_qual_bits (operand_name o) ∷ quals_of os

-- `ss << n`; a number of 32 bits has ten digits at most.
abbrev pub digits : ℕ → ℕ → Bytes → Bytes
digits zero n tail = tail
digits (suc f) n tail =
    if ltb n 10 then (48 + n) ∷ tail else digits f (n / 10) ((48 + n % 10) ∷ tail)

abbrev pub decimal : ℕ → Bytes
decimal n = digits 10 n []

abbrev pub set_back : {A : Type 0} → A → List A → List A
set_back x [] = []
set_back x (y ∷ []) = x ∷ []
set_back x (y ∷ z ∷ zs) = y ∷ set_back x (z ∷ zs)

abbrev pub size_attribute : Bytes → ℕ → ℕ → ℕ → Bytes
size_attribute name a b c =
    codes "__attribute__(("
    ++ name
    ++ codes "("
    ++ decimal a
    ++ codes ","
    ++ decimal b
    ++ codes ","
    ++ decimal c
    ++ codes ")))"

-- The attributes with three sizes, each cut to 32 bits.
abbrev pub sized_attribute : Bytes → ℕ → ℕ → ℕ → Info → Info
sized_attribute name a b c info =
    if same name (codes "work_group_size_hint")
    then record info {
      wkgp_size_hints = set_back (a ∷ b ∷ c ∷ []) info.wkgp_size_hints;
      attr_names = set_back (size_attribute name a b c) info.attr_names;
    }
    else if same name (codes "reqd_work_group_size")
    then record info {
      reqd_wkgp_sizes = set_back (a ∷ b ∷ c ∷ []) info.reqd_wkgp_sizes;
      attr_names = set_back (size_attribute name a b c) info.attr_names;
    }
    else info

abbrev pub operand_at : ℕ → List Operand → Option ℕ
operand_at i os = do o ← get_elem? os i; operand_number o

abbrev pub read_sizes : Metadata → Info → Option Info
read_sizes md info = do
  a ← operand_at 0 md.operands
  b ← operand_at 1 md.operands
  c ← operand_at 2 md.operands
  some (sized_attribute md.name (a % 2 ^ 32) (b % 2 ^ 32) (c % 2 ^ 32) info)

abbrev pub read_attribute : Metadata → Info → Option Info
read_attribute md info =
    if same md.name (codes "vec_type_hint")
    then some (record info {
      attr_names = set_back (codes "__attribute__((vec_type_hint(vectype)))") info.attr_names;
    })
    else read_sizes md info

abbrev pub count_arguments : List Operand → Info → Info
count_arguments os info = record info { kernel_num_args = info.kernel_num_args ++ length os ∷ [] }

abbrev pub read_addr_space : ℕ → List Operand → Info → Option Info
read_addr_space nk os info = do
  args ← argument_operands nk (count_arguments os info) os
  qualifiers ← addr_prefix args
  some
      (record (count_arguments os info) { addr_qualifier = info.addr_qualifier ++ qualifiers ∷ [] })

-- What the arguments' operands add to the vectors.
abbrev pub with_arguments : ℕ → Info → List Operand → (List Operand → Info) → Option Info
with_arguments nk info os add = do args ← argument_operands nk info os; some (add args)

-- One metadata node of kernel `nk`.
unfoldable pub read_metadata : ℕ → Metadata → Info → Option Info
read_metadata nk md info =
    if same md.name (codes "kernel_arg_addr_space")
    then read_addr_space nk md.operands info
    else if same md.name (codes "kernel_arg_access_qual")
    then with_arguments nk info md.operands
        (λ args. record info { access_qualifier = info.access_qualifier ++ acce_prefix args ∷ [] })
    else if same md.name (codes "kernel_arg_type")
    then with_arguments nk info md.operands
        (λ args. record info { arg_type_names = info.arg_type_names ++ names_of args })
    else if same md.name (codes "kernel_arg_type_qual")
    then with_arguments nk info md.operands
        (λ args. record info { arg_type_qual = info.arg_type_qual ++ quals_of args })
    else if same md.name (codes "kernel_arg_name")
    then with_arguments nk info md.operands
        (λ args. record info { arg_names = info.arg_names ++ names_of args })
    else read_attribute md info

unfoldable pub read_all_metadata : ℕ → List Metadata → Info → Option Info
unfolding read_metadata
read_all_metadata nk [] info = some info
read_all_metadata nk (md ∷ mds) info = do
  next ← read_metadata nk md info
  read_all_metadata nk mds next
