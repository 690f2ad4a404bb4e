-- ===== src/KernelInfo/Rows.antt =====
-- The argument names by kernel (`get_arg_names_2D` of kernel_info_reader.cpp).
use vari_ocl.Base.{
  ℕ, zero, suc, ◌+◌, ◌≤◌, ◌≡◌, refl, ap, sym, ◌∙◌, List, [], ◌∷◌, ◌++◌, map, some, length, take,
  drop, get_elem?, arith, Bytes,
}
use vari_ocl.KernelInfo.{Info, names_at, rows_from, get_arg_names_2d}

abbrev pub sum : List ℕ → ℕ
sum [] = 0
sum (n ∷ ns) = n + sum ns

abbrev pub concat : List (List Bytes) → List Bytes
concat [] = []
concat (r ∷ rs) = r ++ concat rs

-- Rows of the given lengths.
abbrev pub split : List ℕ → List Bytes → List (List Bytes)
split [] xs = []
split (n ∷ ns) xs = take n xs ∷ split ns (drop n xs)

module _ {A : Type 0} where
  drop-head :
      (i : ℕ) (xs : List A) (y : A) (ys : List A)
      → drop i xs ≡ y ∷ ys
      → (get_elem? xs i ≡ some y) × (drop (suc i) xs ≡ ys)
  drop-head zero [] y ys h = ground arith
  drop-head zero (x ∷ xs) y ys h = ground arith
  drop-head (suc i) [] y ys h = ground arith
  drop-head (suc i) (x ∷ xs) y ys h = drop-head i xs y ys h

  abbrev the_nil : List A
  the_nil = []

  drop_nil : (n : ℕ) → drop n (the_nil) ≡ the_nil
  drop_nil zero = refl
  drop_nil (suc n) = refl

  drop_same : (m n : ℕ) (xs : List A) → m ≡ n → drop m xs ≡ drop n xs
  drop_same m n xs e = ap (λ k. drop k xs) e

  drop-plus : (i n : ℕ) (xs : List A) → drop (i + n) xs ≡ drop n (drop i xs)
  drop-plus zero n xs = drop_same (0 + n) n xs (omega arith)
  drop-plus (suc i) n [] = drop_nil (suc i + n) ∙ sym (drop_nil n)
  drop-plus (suc i) n (x ∷ xs) =
      drop_same (suc i + n) (suc (i + n)) (x ∷ xs) (omega arith) ∙ drop-plus i n xs

  length-take-drop :
      (n : ℕ) (xs : List A)
      → n ≤ length xs
      → (length (take n xs) ≡ n)
        × (n + length (drop n xs) ≡ length xs)
        × (take n xs ++ drop n xs ≡ xs)
  length-take-drop zero xs h = (refl, omega arith, refl)
  length-take-drop (suc n) [] h = ground arith
  length-take-drop (suc n) (x ∷ xs) h =
      let (a, b, c) = length-take-drop n xs (omega (arith, h)) in
      (ap suc a, omega (arith, b), ap (λ ys. x ∷ ys) c)

names_at-take :
    (names rest : List Bytes) (n i : ℕ)
    → drop i names ≡ rest
    → n ≤ length rest
    → names_at names n i ≡ some (take n rest)
names_at-take names rest zero i e h = refl
names_at-take names [] (suc n) i e h = ground arith
names_at-take names (x ∷ rest) (suc n) i e h =
    let (found, behind) = drop-head i names x rest e in
    rw
      (
        found,
        names_at-take names rest n (i + 1) (drop_same (i + 1) (suc i) names (omega arith) ∙ behind)
            (omega (arith, h)),
      )
      refl

rows_from-split :
    (info : Info) (ns : List ℕ) (rest : List Bytes) (k i : ℕ)
    → drop k info.kernel_num_args ≡ ns
    → drop i info.arg_names ≡ rest
    → sum ns ≤ length rest
    → rows_from info (length ns) k i ≡ some (split ns rest)
rows_from-split info [] rest k i e d h = refl
rows_from-split info (n ∷ ns) rest k i e d h =
    let (found, behind) = drop-head k info.kernel_num_args n ns e in
    let (a, b, c) = length-take-drop n rest (omega (arith, h)) in
    rw
      (
        found,
        names_at-take info.arg_names rest n i d (omega (arith, h)),
        rows_from-split info ns (drop n rest) (k + 1) (i + n)
            (drop_same (k + 1) (suc k) info.kernel_num_args (omega arith) ∙ behind)
            (drop-plus i n info.arg_names ∙ ap (drop n) d) (omega (arith, h, b)),
      )
      refl

split-rows :
    (ns : List ℕ) (xs : List Bytes)
    → sum ns ≡ length xs
    → (concat (split ns xs) ≡ xs) × (map length (split ns xs) ≡ ns)
split-rows [] [] h = (refl, refl)
split-rows [] (x ∷ xs) h = ground arith
split-rows (n ∷ ns) xs h =
    let (a, b, c) = length-take-drop n xs (omega (arith, h)) in
    let (p, q) = split-rows ns (drop n xs) (omega (arith, h, b)) in (rw p c, rw (a, q) refl)

-- Where the argument counts are one per kernel and add up to the names, a call succeeds and adds one
-- row per kernel to the rows already there: the rows are as long as the counts say, and put
-- together they are the names.
pub get_arg_names_2d_correct :
    (info : Info)
    → length info.kernel_num_args ≡ info.cl_kernel_num
    → sum info.kernel_num_args ≡ length info.arg_names
    → (rows : List (List Bytes)) × (get_arg_names_2d info
        ≡ some (record info { arg_names_2d = info.arg_names_2d ++ rows }))
      × (concat rows ≡ info.arg_names)
      × (map length rows ≡ info.kernel_num_args)
unfolding get_arg_names_2d
get_arg_names_2d_correct info e h =
    let (p, q) = split-rows info.kernel_num_args info.arg_names h in
    (
      split info.kernel_num_args info.arg_names,
      rw
          (
            sym e,
            rows_from-split info info.kernel_num_args info.arg_names 0 0 refl refl
                (omega (arith, h)),
          )
          refl,
      p,
      q,
    )
