-- ===== src/Base/Reach.antt =====
-- Depth-first marking over a successor function, against the walks of that function. The marked
-- nodes are a list in the order of marking.
use Prim.Native.Nat.{ℕ, zero, suc, ◌+◌, ◌≤◌, ◌<◌}
use mathlib.Core.Path.{◌≡◌, refl, sym, subst}
use mathlib.Core.Logic.{◌↔◌, inl, inr, ∥∥₁_elim}
use mathlib.Core.Bool.{true, false, So-prop}
use mathlib.Core.List.{List, [], ◌∷◌, ◌++◌, foldl}
use native.Mathlib.Omega.{arith}
use vari_ocl.Base.Tests.{◌==◌, if◌then◌else◌, Bool-cases, ==_iff, ==_refl}
use vari_ocl.Base.Lists.{length, elem, elem-append}

pub data Reach (next : ℕ → List ℕ) (v : ℕ) : ℕ → Type 0 where
  here : Reach next v v
  step : {u w : ℕ} → Reach next v u → elem w (next u) ≡ true → Reach next v w

pub Reach-trans : {next : ℕ → List ℕ} {u v w : ℕ} → Reach next u v → Reach next v w → Reach next u w
Reach-trans p here = p
Reach-trans p (step q e) = step (Reach-trans p q) e

-- Mark `v`, then whatever is not marked yet below it.
unfoldable pub visit : (ℕ → List ℕ) → ℕ → List ℕ → ℕ → List ℕ
visit next zero seen v = seen
visit next (suc f) seen v = elim (elem v seen) [
  | true ↦ seen
  | false ↦ foldl (visit next f) (seen ++ v ∷ []) (next v)
]

abbrev pub Sub : List ℕ → List ℕ → Type 0
Sub xs ys = (x : ℕ) → elem x xs ≡ true → elem x ys ≡ true

-- How many nodes of `nodes` are not marked.
pub unseen : List ℕ → List ℕ → ℕ
unseen [] seen = 0
unseen (x ∷ xs) seen = (if elem x seen then 0 else 1) + unseen xs seen

pub unseen_mono : (nodes s t : List ℕ) → Sub s t → unseen nodes t ≤ unseen nodes s
unfolding unseen
unseen_mono [] s t h = omega arith
unseen_mono (x ∷ xs) s t h = ground (arith, h x, unseen_mono xs s t)

unseen-mark :
    (nodes s : List ℕ) (v : ℕ)
    → elem v nodes ≡ true
    → elem v s ≡ false
    → unseen nodes (s ++ v ∷ []) < unseen nodes s
unfolding unseen
unseen-mark [] s v m h = cc
unseen-mark (x ∷ xs) s v m h = elim (Bool-cases (v == x)) [
  | inl e ↦ ground (arith, elem-append x s (v ∷ []), unseen_mono xs s (s ++ v ∷ []) grows)
  | inr e ↦ ground (arith, elem-append x s (v ∷ []), unseen-mark xs s v)
]
  where
    grows : Sub s (s ++ v ∷ [])
    grows x h = ground (arith, elem-append x s (v ∷ []))

module _ (next : ℕ → List ℕ) where
  -- What marking from the nodes `vs` makes of `seen`.
  pub record Explored (seen : List ℕ) (vs : List ℕ) (s : List ℕ) : Type 0 where
    pub grows : Sub seen s
    pub starts : Sub vs s
    pub closed :
        (x y : ℕ) → elem x s ≡ true → elem x seen ≡ false → elem y (next x) ≡ true → elem y s ≡ true
    pub sound :
        (x : ℕ)
        → elem x s ≡ true
        → elem x seen ≡ false
        → (v : ℕ) × (elem v vs ≡ true) × Reach next v x

  Explored-trans :
      {seen vs s t : List ℕ} (v : ℕ)
      → Explored seen (v ∷ []) s
      → Explored s vs t
      → Explored seen (v ∷ vs) t
  Explored-trans {seen} {vs} {s} {t} v p q = record {
    grows = λ x h. q.grows x (p.grows x h);
    starts = λ x h. ground (arith, p.starts x, q.grows x, q.starts x);
    closed = λ x y h new e. elim (Bool-cases (elem x s)) [
      | inl old ↦ q.grows y (p.closed x y old new e)
      | inr new' ↦ q.closed x y h new' e
    ];
    sound = λ x h new. elim (Bool-cases (elem x s)) [
      | inl old ↦ let (w, m, r) = p.sound x old new in (w, ground arith, r)
      | inr new' ↦ let (w, m, r) = q.sound x h new' in (w, ground arith, r)
    ];
  }

  Explored-mark :
      {seen s : List ℕ} (v : ℕ) → Explored (seen ++ v ∷ []) (next v) s → Explored seen (v ∷ []) s
  Explored-mark {seen} {s} v p = record {
    grows = λ x h. p.grows x (ground (arith, elem-append x seen (v ∷ [])));
    starts = λ x h. p.grows x (ground (arith, elem-append x seen (v ∷ [])));
    closed = λ x y h new e. elim (Bool-cases (x == v)) [
      | inl at ↦ p.starts y (subst (λ u. elem y (next u) ≡ true) ((==_iff x v).0 at) e)
      | inr away ↦ p.closed x y h (ground (arith, elem-append x seen (v ∷ []))) e
    ];
    sound = λ x h new. elim (Bool-cases (x == v)) [
      | inl at ↦ (v, ground arith, subst (λ u. Reach next v u) (sym ((==_iff x v).0 at)) here)
      | inr away ↦
          let (w, m, r) = p.sound x h (ground (arith, elem-append x seen (v ∷ []))) in
          (v, ground arith, Reach-trans (step here m) r)
    ];
  }

  Explored-nil : (seen vs : List ℕ) → Sub vs seen → Explored seen vs seen
  Explored-nil seen vs h = record {
    grows = λ x m. m;
    starts = h;
    closed = λ x y m new e. cc;
    sound = λ x m new. cc;
  }

  -- `nodes` is a finite universe that `next` does not leave.
  module _ (nodes : List ℕ) (total : (u : ℕ) → elem u nodes ≡ true → Sub (next u) nodes) where
    abbrev Visits : ℕ → (List ℕ → ℕ → List ℕ) → Type 0
    Visits f g =
        (seen : List ℕ) (v : ℕ)
        → unseen nodes seen ≤ f
        → elem v nodes ≡ true
        → Explored seen (v ∷ []) (g seen v)

    foldl-Explored :
        (f : ℕ) (g : List ℕ → ℕ → List ℕ)
        → Visits f g
        → (vs seen : List ℕ) → unseen nodes seen ≤ f
        → Sub vs nodes
        → Explored seen vs (foldl g seen vs)
    foldl-Explored f g ih [] seen h m = Explored-nil seen [] (λ x e. cc)
    foldl-Explored f g ih (v ∷ vs) seen h m =
        let first = ih seen v h (m v (ground (arith, ==_refl v))) in
        Explored-trans v first (
          foldl-Explored f g ih vs (g seen v)
            (omega (arith, unseen_mono nodes seen (g seen v) first.grows))
            (λ x e. m x (ground arith)))

    unseen-pos :
        (seen : List ℕ) (v : ℕ) → unseen nodes seen ≤ 0 → elem v nodes ≡ true → elem v seen ≡ true
    unseen-pos seen v h m = elim (Bool-cases (elem v seen)) [
      | inl e ↦ e
      | inr e ↦ absurd (omega (arith, unseen-mark nodes seen v m e))
    ]

    -- Fuel for the nodes that are not marked yet is enough.
    pub visit-Explored : (f : ℕ) → Visits f (visit next f)
    unfolding visit
    visit-Explored zero seen v h m =
        Explored-nil seen (v ∷ []) (λ x e. ground (arith, unseen-pos seen v h m))
    visit-Explored (suc f) seen v h m = elim (Bool-cases (elem v seen)) [
      | inl e ↦ rw (e, visit) (Explored-nil seen (v ∷ []) (λ x e'. ground arith))
      | inr e ↦
          rw (e, visit)
            (Explored-mark v (
              foldl-Explored f (visit next f) (visit-Explored f) (next v) (seen ++ v ∷ [])
                (omega (arith, unseen-mark nodes seen v m e)) (total v m)))
    ]

    complete :
        (s : List ℕ) (v : ℕ) → Explored [] (v ∷ []) s → {w : ℕ} → Reach next v w → elem w s ≡ true
    complete s v p here = p.starts v (ground (arith, ==_refl v))
    complete s v p (step {u} {w} r e) = p.closed u w (complete s v p r) refl e

    -- From no marks, with fuel for all nodes: marked exactly where a walk leads.
    pub visit_correct :
        (f : ℕ) (v w : ℕ)
        → unseen nodes [] ≤ f
        → elem v nodes ≡ true
        → (elem w (visit next f [] v) ≡ true) ↔ ∥ Reach next v w ∥₁
    visit_correct f v w h m =
        let p = visit-Explored f [] v h m in
        (
          λ e.
              let (u, at, r) = p.sound w e refl in
              ∣ subst (λ x. Reach next x w) ((==_iff u v).0 (ground arith)) r ∣₁,
          λ r. ∥∥₁_elim r (So-prop _) (complete _ v p),
        )

pub unseen-nil : (nodes : List ℕ) → unseen nodes [] ≡ length nodes
unfolding unseen
unseen-nil [] = refl
unseen-nil (x ∷ xs) = omega (arith, unseen-nil xs)
