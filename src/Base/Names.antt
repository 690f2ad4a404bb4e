-- ===== src/Base/Names.antt =====
-- Names as lists of bytes: equality, prefixes and suffixes, and the bytes of a literal.
use Prim.Native.Nat.{ℕ, zero, suc, ◌-◌}
use Prim.Native.Char.{code}
use Prim.Native.String.{String}
use mathlib.Core.Path.{◌≡◌, refl, ap, sym, subst, ◌∙◌}
use mathlib.Core.Logic.{◌↔◌}
use mathlib.Core.Bool.{Bool, true, false, ◌&&◌}
use mathlib.Core.List.{List, [], ◌∷◌, ◌++◌}
use native.Mathlib.Omega.{arith}
use vari_ocl.Base.Tests.{◌==◌, ltb, if◌then◌else◌}
use vari_ocl.Base.Lists.{length, take, drop, length-append, drop-length}

abbrev pub Bytes : Type 0
Bytes = List ℕ

abbrev pub codes : String → Bytes
codes String.[] = []
codes (String.◌∷◌ c s) = code c ∷ codes s

abbrev pub same : Bytes → Bytes → Bool
same [] [] = true
same [] (d ∷ ds) = false
same (c ∷ cs) [] = false
same (c ∷ cs) (d ∷ ds) = c == d && same cs ds

pub same_iff : (a b : Bytes) → (same a b ≡ true) ↔ (a ≡ b)
same_iff [] [] = ground arith
same_iff [] (d ∷ ds) = ground arith
same_iff (c ∷ cs) [] = ground arith
same_iff (c ∷ cs) (d ∷ ds) = ground (arith, same_iff cs ds)

-- Whether a name ends in a suffix, as `substr` and `compare` find it.
abbrev pub ends_in : Bytes → Bytes → Bool
ends_in suffix name =
    if ltb (length name) (length suffix)
    then false
    else same (drop (length name - length suffix) name) suffix

take-drop : (k : ℕ) (xs : Bytes) → take k xs ++ drop k xs ≡ xs
take-drop zero xs = refl
take-drop (suc k) [] = refl
take-drop (suc k) (x ∷ xs) = ap (λ zs. x ∷ zs) (take-drop k xs)

-- `ends_in` finds exactly the names that are a stem with the suffix.
pub ends_in_iff :
    (suffix name : Bytes)
    → (ends_in suffix name ≡ true) ↔ ((stem : Bytes) × (name ≡ stem ++ suffix))
ends_in_iff suffix name = (
  λ h. (
    take (length name - length suffix) name,
    sym (take-drop (length name - length suffix) name)
        ∙ ap (λ zs. take (length name - length suffix) name ++ zs)
            ((same_iff _ suffix).0 (ground arith)),
  ),
  λ (stem, e). subst (λ n. ends_in suffix n ≡ true) (sym e) (whole stem),
)
  where
    whole : (stem : Bytes) → ends_in suffix (stem ++ suffix) ≡ true
    whole stem =
        let l = length-append stem suffix in
        let k : length (stem ++ suffix) - length suffix ≡ length stem = omega (arith, l) in
        let d : drop (length (stem ++ suffix) - length suffix) (stem ++ suffix) ≡ suffix =
          subst (λ n. drop n (stem ++ suffix) ≡ suffix) (sym k) (drop-length stem suffix) in
        let s =
          (same_iff (drop (length (stem ++ suffix) - length suffix) (stem ++ suffix)) suffix).1 d in
        ground arith
