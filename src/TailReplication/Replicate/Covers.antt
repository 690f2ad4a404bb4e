-- ===== src/TailReplication/Replicate/Covers.antt =====
-- A function whose blocks are copies of the blocks of another one: each has the barriers of the block
-- that it copies, and its successors copy the successors of that block. The steps of
-- BarrierTailReplication (BarrierTailReplication.cpp) keep this.
use vari_ocl.Base.{
  ℕ, ◌≡◌, refl, sym, ap, subst, ◌∙◌, ◌<◌, Bool, true, false, List, [], ◌∷◌, ◌++◌, map, some, ◌==◌,
  if◌then◌else◌, all, arith, Bool-cases, inl, inr, ==_refl,
}
use vari_ocl.TailReplication.Replicate.{Block, Function, Inst, at, change}
use vari_ocl.TailReplication.Replicate.Lookup.{
  is_in, is_in-at, at-is_in, all-is_in, map-agree, at-change, is_in-change, at-map, is_in-map,
  append-cases, is_in-append, is_in-append-new,
}

abbrev pub barriers : List Inst → List Bool
barriers [] = []
barriers (i ∷ is) = i.barrier ∷ barriers is

-- The block `b` copies the block `c` of `f`.
abbrev pub Copies : Function → (ℕ → ℕ) → Block → ℕ → Type 0
Copies f o b x =
    (c : Block) × (at x f.blocks ≡ some c)
    × (map o b.succs ≡ c.succs)
    × (barriers b.insts ≡ barriers c.insts)

-- Each block of `g` copies a block of `f`, which for the blocks of `f` is themselves.
pub record Covers (f g : Function) : Type 0 where
  pub origin : ℕ → ℕ
  pub fixed : (x : ℕ) → is_in f.blocks x ≡ true → origin x ≡ x
  pub kept : (x : ℕ) → is_in f.blocks x ≡ true → is_in g.blocks x ≡ true
  pub below : (x : ℕ) → is_in g.blocks x ≡ true → x < g.fresh
  pub closed : (x : ℕ) (b : Block) → at x g.blocks ≡ some b → all (is_in g.blocks) b.succs ≡ true
  pub copies : (x : ℕ) (b : Block) → at x g.blocks ≡ some b → Copies f origin b (origin x)

-- The blocks of `g` are still there in `h`, and copy what they did.
pub record Extends {f g h : Function} (v : Covers f g) (w : Covers f h) : Type 0 where
  pub grows : (x : ℕ) → is_in g.blocks x ≡ true → is_in h.blocks x ≡ true
  pub agrees : (x : ℕ) → is_in g.blocks x ≡ true → w.origin x ≡ v.origin x

-- The step that changes a block.
module _ {f g : Function} (v : Covers f g) where
  open v use {origin, fixed, kept, below, closed, copies}

  -- The change keeps the address, the barriers, and what its successors copy.
  pub change-Covers :
      (k : Block → Block) (x : ℕ)
      → ((b : Block) → (k b).id ≡ b.id)
      → ((b : Block) → barriers (k b).insts ≡ barriers b.insts)
      → ((b : Block) → at x g.blocks ≡ some b → map origin (k b).succs ≡ map origin b.succs)
      → ((b : Block) → at x g.blocks ≡ some b → all (is_in g.blocks) (k b).succs ≡ true)
      → (w : Covers f (record g { blocks = change k x g.blocks })) × Extends v w
  change-Covers k x same flags succs inside = (
    record {
      origin = origin;
      fixed = fixed;
      kept = λ y h. is_in-change k x y g.blocks same ∙ kept y h;
      below = λ y h. below y (sym (is_in-change k x y g.blocks same) ∙ h);
      closed = λ y b h.
          all-is_in (is_in g.blocks) (is_in (change k x g.blocks)) b.succs
            (λ z m. is_in-change k x z g.blocks same ∙ m)
            (let (c, e, d) = at-change k x y g.blocks b same h in
              elim d [ inl q ↦ rw q (closed y c e) | inr (at_x, q) ↦ rw q (inside c (rw at_x e)) ]);
      copies = λ y b h.
          let (c, e, d) = at-change k x y g.blocks b same h in
          let (a, m, t, u) = copies y c e in
          elim d [
            | inl q ↦ (a, m, rw q t, rw q u)
            | inr (at_x, q) ↦ (a, m, rw q (succs c (rw at_x e) ∙ t), rw q (flags c ∙ u))
          ];
    },
    record { grows = λ y h. is_in-change k x y g.blocks same ∙ h; agrees = λ y h. refl },
  )

  -- A change of all blocks that keeps the address, the successors and the barriers of each.
  pub map-Covers :
      (k : Block → Block)
      → ((b : Block) → (k b).id ≡ b.id)
      → ((b : Block) → (k b).succs ≡ b.succs)
      → ((b : Block) → barriers (k b).insts ≡ barriers b.insts)
      → (w : Covers f (record g { blocks = map k g.blocks })) × Extends v w
  map-Covers k same succs flags = (
    record {
      origin = origin;
      fixed = fixed;
      kept = λ y h. is_in-map k y g.blocks same ∙ kept y h;
      below = λ y h. below y (sym (is_in-map k y g.blocks same) ∙ h);
      closed = λ y b h.
          all-is_in (is_in g.blocks) (is_in (map k g.blocks)) b.succs
            (λ z m. is_in-map k z g.blocks same ∙ m)
            (let (c, e, q) = at-map k y g.blocks b same h in
              subst (λ ss. all (is_in g.blocks) ss ≡ true) (sym (ap (λ d. d.succs) q ∙ succs c))
                (closed y c e));
      copies = λ y b h.
          let (c, e, q) = at-map k y g.blocks b same h in
          let (a, m, t, u) = copies y c e in
          (
            a,
            m,
            ap (λ d. map origin d.succs) q ∙ ap (map origin) (succs c) ∙ t,
            ap (λ d. barriers d.insts) q ∙ flags c ∙ u,
          );
    },
    record { grows = λ y h. is_in-map k y g.blocks same ∙ h; agrees = λ y h. refl },
  )

  -- The step that copies a block.
  copied_origin : ℕ → ℕ → ℕ
  copied_origin x y = if y == g.fresh then origin x else origin y

  copied_origin-old : (x y : ℕ) → is_in g.blocks y ≡ true → copied_origin x y ≡ origin y
  unfolding copied_origin
  copied_origin-old x y h = ground (arith, below y h)

  copied_origin-new : (x : ℕ) → copied_origin x g.fresh ≡ origin x
  unfolding copied_origin
  copied_origin-new x = rw (==_refl g.fresh) refl

  pub copy-Covers :
      (x k : ℕ) (c n : Block)
      → at x g.blocks ≡ some c
      → n.id ≡ g.fresh
      → n.succs ≡ c.succs
      → barriers n.insts ≡ barriers c.insts
      → g.fresh < k
      → (w : Covers f (record { blocks = g.blocks ++ n ∷ []; fresh = k })) × Extends v w
        × (is_in (g.blocks ++ n ∷ []) g.fresh ≡ true)
        × (w.origin g.fresh ≡ origin x)
  copy-Covers x k c n e at_fresh same flags more = (
    record {
      origin = copied_origin x;
      fixed = λ y h. copied_origin-old x y (kept y h) ∙ fixed y h;
      kept = λ y h. is_in-append y g.blocks n (kept y h);
      below = λ y h.
          let (b, q) = at-is_in y (g.blocks ++ n ∷ []) h in
          elim (append-cases y g.blocks n b q) [
            | inl old ↦ omega (arith, below y (is_in-at y g.blocks b old), more)
            | inr (new, _) ↦ omega (arith, new, at_fresh, more)
          ];
      closed = λ y b h. elim (append-cases y g.blocks n b h) [
        | inl old ↦ grown b.succs (closed y b old)
        | inr (_, q) ↦
            subst (λ ss. all (is_in (g.blocks ++ n ∷ [])) ss ≡ true)
              (sym (ap (λ d. d.succs) q ∙ same)) (grown c.succs (closed x c e))
      ];
      copies = λ y b h. elim (append-cases y g.blocks n b h) [
        | inl old ↦
            let (a, m, t, u) = copies y b old in
            (
              a,
              ap (λ z. at z f.blocks) (copied_origin-old x y (is_in-at y g.blocks b old)) ∙ m,
              agree b.succs (closed y b old) ∙ t,
              u,
            )
        | inr (new, q) ↦
            let (a, m, t, u) = copies x c e in
            (
              a,
              ap (λ z. at z f.blocks)
                    (ap (copied_origin x) (sym new ∙ at_fresh) ∙ copied_origin-new x)
                  ∙ m,
              ap (λ d. map (copied_origin x) d.succs) q
                  ∙ ap (map (copied_origin x)) same
                  ∙ agree c.succs (closed x c e)
                  ∙ t,
              ap (λ d. barriers d.insts) q ∙ flags ∙ u,
            )
      ];
    },
    record { grows = λ y h. is_in-append y g.blocks n h; agrees = λ y h. copied_origin-old x y h },
    subst (λ y. is_in (g.blocks ++ n ∷ []) y ≡ true) at_fresh
        (is_in-append-new g.blocks n (subst (λ y. is_in g.blocks y ≡ false) (sym at_fresh) unused)),
    copied_origin-new x,
  )
    where
      unused : is_in g.blocks g.fresh ≡ false
      unused = elim (Bool-cases (is_in g.blocks g.fresh)) [
        | inl q ↦ absurd (omega (arith, below g.fresh q))
        | inr q ↦ q
      ]

      grown :
          (ss : List ℕ)
          → all (is_in g.blocks) ss ≡ true
          → all (is_in (g.blocks ++ n ∷ [])) ss ≡ true
      grown ss =
          all-is_in (is_in g.blocks) (is_in (g.blocks ++ n ∷ [])) ss
            (λ z m. is_in-append z g.blocks n m)

      agree :
          (ss : List ℕ) → all (is_in g.blocks) ss ≡ true → map (copied_origin x) ss ≡ map origin ss
      agree ss =
          map-agree (is_in g.blocks) origin (copied_origin x) ss (λ z m. copied_origin-old x z m)

pub Covers-start :
    (f : Function)
    → ((x : ℕ) → is_in f.blocks x ≡ true → x < f.fresh)
    → ((x : ℕ) (b : Block) → at x f.blocks ≡ some b → all (is_in f.blocks) b.succs ≡ true)
    → Covers f f
Covers-start f below closed = record {
  origin = λ x. x;
  fixed = λ x h. refl;
  kept = λ x h. h;
  below = below;
  closed = closed;
  copies = λ x b h. (b, h, map-same b.succs, refl);
}
  where
    map-same : (xs : List ℕ) → map (λ x. x) xs ≡ xs
    map-same [] = refl
    map-same (x ∷ xs) = rw (map-same xs) refl

pub Extends-refl : {f g : Function} (v : Covers f g) → Extends v v
Extends-refl v = record { grows = λ x h. h; agrees = λ x h. refl }

pub Extends-trans :
    {f g h k : Function} {v : Covers f g} {w : Covers f h} {u : Covers f k}
    → Extends v w
    → Extends w u
    → Extends v u
Extends-trans p q = record {
  grows = λ x h. q.grows x (p.grows x h);
  agrees = λ x h. q.agrees x (p.grows x h) ∙ p.agrees x h;
}
