-- ===== src/Base/Options.antt =====
-- What holds of the result of a computation that may fail, and of the results of two.
use mathlib.Core.Path.{◌≡◌, refl}
use mathlib.Core.Bool.{Bool, true, false}
use mathlib.Core.Option.{Option, none, some}
use vari_ocl.Base.Tests.{if◌then◌else◌, ◌>>=◌}

abbrev pub After : {A : Type 0} → (A → Type 0) → Option A → Type 0
After P none = Unit {0}
After P (some a) = P a

module _ {A : Type 0} where
  pub after_bind :
      {B : Type 0} (Q : A → Type 0) (P : B → Type 0) (m : Option A) (f : A → Option B)
      → After Q m
      → ((a : A) → Q a → After P (f a))
      → After P (m >>= f)
  after_bind Q P none f h k = tt
  after_bind Q P (some a) f h k = k a h

  -- Where only the result itself matters.
  pub after_any :
      {B : Type 0} (P : B → Type 0) (m : Option A) (f : A → Option B)
      → ((a : A) → m ≡ some a → After P (f a))
      → After P (m >>= f)
  after_any P none f k = tt
  after_any P (some a) f k = k a refl

  pub after_if :
      (P : A → Type 0) (b : Bool) (m n : Option A)
      → (b ≡ true → After P m)
      → (b ≡ false → After P n)
      → After P (if b then m else n)
  after_if P true m n h k = h refl
  after_if P false m n h k = k refl

  -- For a value that does not fail.
  pub choose :
      (P : A → Type 0) (b : Bool) (x y : A)
      → (b ≡ true → P x)
      → (b ≡ false → P y)
      → P (if b then x else y)
  choose P true x y h k = h refl
  choose P false x y h k = k refl

  pub after_weaken :
      (P Q : A → Type 0) (m : Option A) → After P m → ((a : A) → P a → Q a) → After Q m
  after_weaken P Q none h k = tt
  after_weaken P Q (some a) h k = k a h

  pub after_both :
      (P Q : A → Type 0) (m : Option A) → After P m → After Q m → After (λ a. P a × Q a) m
  after_both P Q none h k = tt
  after_both P Q (some a) h k = (h, k)

-- Both fail, or both succeed with related results.
abbrev pub Both : {A B : Type 0} → (A → B → Type 0) → Option A → Option B → Type 0
Both R none none = Unit {0}
Both R none (some b) = ⊥
Both R (some a) none = ⊥
Both R (some a) (some b) = R a b

pub both_bind :
    {A B C D : Type 0} (R : A → B → Type 0) (T : C → D → Type 0) (m : Option A) (n : Option B)
    (f : A → Option C) (g : B → Option D)
    → Both R m n
    → ((a : A) (b : B) → R a b → Both T (f a) (g b))
    → Both T (m >>= f) (n >>= g)
both_bind R T none none f g h k = tt
both_bind R T none (some b) f g h k = absurd h
both_bind R T (some a) none f g h k = absurd h
both_bind R T (some a) (some b) f g h k = k a b h

pub both_refl : {A : Type 0} (R : A → A → Type 0) (m : Option A) → ((a : A) → R a a) → Both R m m
both_refl R none k = tt
both_refl R (some a) k = k a

pub both_if :
    {A B : Type 0} (R : A → B → Type 0) (b : Bool) (m m' : Option A) (n n' : Option B)
    → Both R m n
    → Both R m' n'
    → Both R (if b then m else m') (if b then n else n')
both_if R true m m' n n' h k = h
both_if R false m m' n n' h k = k
