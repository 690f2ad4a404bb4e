-- ===== src/Base/Lists.antt =====
-- Lists under native numbers, and Boolean membership of a number in a list.
use Prim.Native.Nat.{ℕ, zero, suc, ◌+◌}
use mathlib.Core.Path.{◌≡◌, refl, ap, subst, sym}
use mathlib.Core.Logic.{inl, inr}
use mathlib.Core.Bool.{Bool, true, false, ◌&&◌, ◌||◌}
use mathlib.Core.List.{List, [], ◌∷◌, ◌++◌}
use mathlib.Core.Option.{Option, none, some}
use native.Mathlib.Omega.{arith}
use vari_ocl.Base.Tests.{◌==◌, if◌then◌else◌, Bool-cases, ==_iff}

module _ {ℓ} {A : Type ℓ} where
  abbrev pub length : List A → ℕ
  length [] = 0
  length (x ∷ xs) = suc (length xs)

  abbrev pub get_elem? : List A → ℕ → Option A
  get_elem? [] i = none
  get_elem? (x ∷ xs) zero = some x
  get_elem? (x ∷ xs) (suc i) = get_elem? xs i

  abbrev pub get_or : List A → ℕ → A → A
  get_or [] i d = d
  get_or (x ∷ xs) zero d = x
  get_or (x ∷ xs) (suc i) d = get_or xs i d

  abbrev pub take : ℕ → List A → List A
  take zero xs = []
  take (suc n) [] = []
  take (suc n) (x ∷ xs) = x ∷ take n xs

  abbrev pub drop : ℕ → List A → List A
  drop zero xs = xs
  drop (suc n) [] = []
  drop (suc n) (x ∷ xs) = drop n xs

  abbrev pub keep : (A → Bool) → List A → List A
  keep p [] = []
  keep p (x ∷ xs) = let rest = keep p xs in if p x then x ∷ rest else rest

  abbrev pub any : (A → Bool) → List A → Bool
  any p [] = false
  any p (x ∷ xs) = p x || any p xs

  abbrev pub all : (A → Bool) → List A → Bool
  all p [] = true
  all p (x ∷ xs) = p x && all p xs

  pub length-append : (xs ys : List A) → length (xs ++ ys) ≡ length xs + length ys
  length-append [] ys = omega arith
  length-append (x ∷ xs) ys = omega (arith, length-append xs ys)

  pub take-length : (xs ys : List A) → take (length xs) (xs ++ ys) ≡ xs
  take-length [] ys = refl
  take-length (x ∷ xs) ys = ap (λ zs. x ∷ zs) (take-length xs ys)

  pub drop-length : (xs ys : List A) → drop (length xs) (xs ++ ys) ≡ ys
  drop-length [] ys = refl
  drop-length (x ∷ xs) ys = drop-length xs ys

abbrev pub elem : ℕ → List ℕ → Bool
elem x [] = false
elem x (y ∷ ys) = x == y || elem x ys

pub elem-append : (x : ℕ) (xs ys : List ℕ) → elem x (xs ++ ys) ≡ (elem x xs || elem x ys)
elem-append x [] ys = refl
elem-append x (y ∷ xs) ys = ground (arith, elem-append x xs ys)

pub elem-keep : (p : ℕ → Bool) (x : ℕ) (xs : List ℕ) → elem x (keep p xs) ≡ (elem x xs && p x)
elem-keep p x [] = refl
elem-keep p x (y ∷ xs) = ground (arith, elem-keep p x xs)

-- The passage between a member and a test that some member passes.
pub any-of_elem :
    (p : ℕ → Bool) (x : ℕ) (xs : List ℕ) → elem x xs ≡ true → p x ≡ true → any p xs ≡ true
any-of_elem p x [] m h = cc
any-of_elem p x (y ∷ xs) m h = ground (arith, any-of_elem p x xs)

pub elem-of_any :
    (p : ℕ → Bool) (xs : List ℕ) → any p xs ≡ true → (x : ℕ) × (elem x xs ≡ true) × (p x ≡ true)
elem-of_any p [] h = cc
elem-of_any p (y ∷ xs) h = elim (Bool-cases (p y)) [
  | inl e ↦ (y, ground arith, e)
  | inr e ↦ let (x, m, q) = elem-of_any p xs (ground arith) in (x, ground arith, q)
]

pub all-elem :
    (p : ℕ → Bool) (x : ℕ) (xs : List ℕ) → all p xs ≡ true → elem x xs ≡ true → p x ≡ true
all-elem p x [] h m = cc
all-elem p x (y ∷ xs) h m = elim (Bool-cases (x == y)) [
  | inl e ↦ subst (λ z. p z ≡ true) (sym ((==_iff x y).0 e)) (ground arith)
  | inr e ↦ all-elem p x xs (ground arith) (ground arith)
]

-- No number stands twice.
abbrev pub IsDistinct : List ℕ → Type 0
IsDistinct [] = Unit {0}
IsDistinct (x ∷ xs) = (elem x xs ≡ false) × IsDistinct xs
