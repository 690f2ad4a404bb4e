-- ===== src/TailReplication/Replicate/Lookup.antt =====
-- The blocks of a function by their address, where the steps of BarrierTailReplication
-- (BarrierTailReplication.cpp) change, copy and clean them.
use vari_ocl.Base.{
  ℕ, ◌≡◌, refl, sym, ap, ◌∙◌, Bool, true, false, List, [], ◌∷◌, ◌++◌, map, none, some, ◌==◌,
  if◌then◌else◌, all, arith, Bool-cases, Option-cases, inl, inr, ==_refl, is_some, ◌⊎◌,
}
use vari_ocl.TailReplication.Replicate.{Block, at, change}

abbrev pub is_in : List Block → ℕ → Bool
is_in bs x = is_some (at x bs)

pub is_in-at : (x : ℕ) (bs : List Block) (b : Block) → at x bs ≡ some b → is_in bs x ≡ true
is_in-at x bs b e = rw e refl

pub at-is_in : (x : ℕ) (bs : List Block) → is_in bs x ≡ true → (b : Block) × (at x bs ≡ some b)
at-is_in x bs h = elim (Option-cases (at x bs)) [
  | inl e ↦ absurd (ground arith)
  | inr (b, e) ↦ (b, e)
]

pub all-is_in :
    (p q : ℕ → Bool) (xs : List ℕ)
    → ((x : ℕ) → p x ≡ true → q x ≡ true)
    → all p xs ≡ true
    → all q xs ≡ true
all-is_in p q [] k h = refl
all-is_in p q (x ∷ xs) k h = ground (arith, k x, all-is_in p q xs k)

pub map-agree :
    (p : ℕ → Bool) (o o' : ℕ → ℕ) (xs : List ℕ)
    → ((x : ℕ) → p x ≡ true → o' x ≡ o x)
    → all p xs ≡ true
    → map o' xs ≡ map o xs
map-agree p o o' [] k h = refl
map-agree p o o' (x ∷ xs) k h = rw (k x (ground arith), map-agree p o o' xs k (ground arith)) refl

pub at-hit : (x : ℕ) (b : Block) (bs : List Block) → (b.id == x) ≡ true → at x (b ∷ bs) ≡ some b
at-hit x b bs h = rw h refl

pub at-miss : (x : ℕ) (b : Block) (bs : List Block) → (b.id == x) ≡ false → at x (b ∷ bs) ≡ at x bs
at-miss x b bs h = rw h refl

pub some-inj : {b c : Block} → some b ≡ some c → b ≡ c
some-inj h = cc

-- A change that keeps the address.
pub at-change :
    (g : Block → Block) (x y : ℕ) (bs : List Block) (b' : Block)
    → ((b : Block) → (g b).id ≡ b.id)
    → at y (change g x bs) ≡ some b'
    → (b : Block) × (at y bs ≡ some b) × ((b' ≡ b) ⊎ ((x ≡ y) × (b' ≡ g b)))
at-change g x y [] b' same h = cc
at-change g x y (b ∷ bs) b' same h = elim (Bool-cases (b.id == x)) [
  | inl e ↦ elim (Bool-cases (b.id == y)) [
    | inl k ↦ (
      b,
      at-hit y b bs k,
      inr (ground arith, some-inj (sym h ∙ ap (at y) (change-hit e) ∙ at-hit y (g b) bs (moved k))),
    )
    | inr k ↦ (
      b',
      at-miss y b bs k ∙ sym (at-miss y (g b) bs (moved k)) ∙ sym (ap (at y) (change-hit e)) ∙ h,
      inl refl,
    )
  ]
  | inr e ↦ elim (Bool-cases (b.id == y)) [
    | inl k ↦ (
      b,
      at-hit y b bs k,
      inl (some-inj (sym h ∙ ap (at y) (change-miss e) ∙ at-hit y b (change g x bs) k)),
    )
    | inr k ↦
        let (c, f, d) =
          at-change g x y bs b' same
            (sym (at-miss y b (change g x bs) k) ∙ sym (ap (at y) (change-miss e)) ∙ h) in
        (c, at-miss y b bs k ∙ f, d)
  ]
]
  where
    moved : {t : Bool} → (b.id == y) ≡ t → ((g b).id == y) ≡ t
    moved k = rw (same b) k

    change-hit : (b.id == x) ≡ true → change g x (b ∷ bs) ≡ g b ∷ bs
    change-hit e = rw e refl

    change-miss : (b.id == x) ≡ false → change g x (b ∷ bs) ≡ b ∷ change g x bs
    change-miss e = rw e refl

pub is_in-change :
    (g : Block → Block) (x y : ℕ) (bs : List Block)
    → ((b : Block) → (g b).id ≡ b.id)
    → is_in (change g x bs) y ≡ is_in bs y
is_in-change g x y [] same = refl
is_in-change g x y (b ∷ bs) same = ground (arith, same b, is_in-change g x y bs same)

pub at-map :
    (k : Block → Block) (x : ℕ) (bs : List Block) (b' : Block)
    → ((b : Block) → (k b).id ≡ b.id)
    → at x (map k bs) ≡ some b'
    → (b : Block) × (at x bs ≡ some b) × (b' ≡ k b)
at-map k x [] b' same h = cc
at-map k x (b ∷ bs) b' same h = elim (Bool-cases (b.id == x)) [
  | inl e ↦ (b, at-hit x b bs e, some-inj (sym h ∙ at-hit x (k b) (map k bs) (rw (same b) e)))
  | inr e ↦
      let (c, q, r) =
        at-map k x bs b' same (sym (at-miss x (k b) (map k bs) (rw (same b) e)) ∙ h) in
      (c, at-miss x b bs e ∙ q, r)
]

pub is_in-map :
    (k : Block → Block) (x : ℕ) (bs : List Block)
    → ((b : Block) → (k b).id ≡ b.id)
    → is_in (map k bs) x ≡ is_in bs x
is_in-map k x [] same = refl
is_in-map k x (b ∷ bs) same = ground (arith, same b, is_in-map k x bs same)

pub at-append :
    (x : ℕ) (bs : List Block) (n : Block)
    → at x (bs ++ n ∷ [])
      ≡ elim (at x bs) [ some b ↦ some b | none ↦ if n.id == x then some n else none ]
at-append x [] n = refl
at-append x (b ∷ bs) n = elim (Bool-cases (b.id == x)) [
  | inl e ↦ rw e refl
  | inr e ↦ rw e (at-append x bs n)
]

pub at-append-old :
    (x : ℕ) (bs : List Block) (n c : Block) → at x bs ≡ some c → at x (bs ++ n ∷ []) ≡ some c
at-append-old x bs n c e = at-append x bs n ∙ rw e refl

pub append-cases :
    (x : ℕ) (bs : List Block) (n b : Block)
    → at x (bs ++ n ∷ []) ≡ some b
    → (at x bs ≡ some b) ⊎ ((n.id ≡ x) × (b ≡ n))
append-cases x bs n b h = elim (Option-cases (at x bs)) [
  | inr (c, e) ↦ inl (e ∙ sym (at-append-old x bs n c e) ∙ h)
  | inl e ↦ elim (Bool-cases (n.id == x)) [
    | inl k ↦ inr (ground arith, some-inj (sym h ∙ at-append x bs n ∙ rw (e, k) refl))
    | inr k ↦ absurd (empty (sym h ∙ at-append x bs n ∙ rw (e, k) refl))
  ]
]
  where
    empty : some b ≡ none → ⊥
    empty q = cc

pub is_in-append :
    (x : ℕ) (bs : List Block) (n : Block) → is_in bs x ≡ true → is_in (bs ++ n ∷ []) x ≡ true
is_in-append x bs n h =
    let (c, e) = at-is_in x bs h in is_in-at x (bs ++ n ∷ []) c (at-append-old x bs n c e)

pub is_in-append-new :
    (bs : List Block) (n : Block) → is_in bs n.id ≡ false → is_in (bs ++ n ∷ []) n.id ≡ true
is_in-append-new bs n h = elim (Option-cases (at n.id bs)) [
  | inr (c, e) ↦ absurd (ground (arith, is_in-at n.id bs c e))
  | inl e ↦ is_in-at n.id (bs ++ n ∷ []) n (at-append n.id bs n ∙ rw (e, ==_refl n.id) refl)
]

pub at-id : (x : ℕ) (bs : List Block) (b : Block) → at x bs ≡ some b → b.id ≡ x
at-id x [] b h = cc
at-id x (c ∷ bs) b h = elim (Bool-cases (c.id == x)) [
  | inl e ↦ rw (some-inj (sym h ∙ at-hit x c bs e)) (ground arith)
  | inr e ↦ at-id x bs b (sym (at-miss x c bs e) ∙ h)
]
