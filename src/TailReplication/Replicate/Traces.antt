-- ===== src/TailReplication/Replicate/Traces.antt =====
-- Tail replication as a whole (BarrierTailReplication.cpp): the function that it leaves has the traces
-- of the function that it was given.
use vari_ocl.Base.{
  ℕ, ◌≡◌, refl, sym, ap, subst, ◌∙◌, ◌<◌, ◌↔◌, Bool, true, false, List, [], ◌∷◌, map, some, elem,
  ltb, ◌&&◌, ◌==◌, ==_iff, all, all-elem, arith, Bool-cases, inl, inr,
}
use vari_ocl.TailReplication.Replicate.{
  Block, Function, at, succs_of, process_function, cleanup_block, run_on_function,
}
use vari_ocl.TailReplication.Replicate.Covers.{Covers, Covers-start, map-Covers, barriers}
use vari_ocl.TailReplication.Replicate.Lookup.{is_in, at-is_in, at-id, at-hit, at-miss}
use vari_ocl.TailReplication.Replicate.Pass.{find_barriers_dfs-Covers}

-- A walk from a block, with the barriers of each block on the way: for each of its instructions,
-- whether it is a barrier.
pub data Walk (f : Function) : ℕ → List (List Bool) → Type 0 where
  last : {x : ℕ} (b : Block) → at x f.blocks ≡ some b → Walk f x (barriers b.insts ∷ [])
  go :
      {x : ℕ} {t : List (List Bool)} (b : Block) (y : ℕ)
      → at x f.blocks ≡ some b
      → elem y b.succs ≡ true
      → Walk f y t
      → Walk f x (barriers b.insts ∷ t)

elem-map : (o : ℕ → ℕ) (y : ℕ) (xs : List ℕ) → elem y xs ≡ true → elem (o y) (map o xs) ≡ true
elem-map o y [] h = h
elem-map o y (x ∷ xs) h = elim (Bool-cases (y == x)) [
  | inl e ↦ ground (arith, ap o ((==_iff y x).0 e))
  | inr e ↦ ground (arith, elem-map o y xs)
]

map-elem :
    (o : ℕ → ℕ) (z : ℕ) (xs : List ℕ)
    → elem z (map o xs) ≡ true
    → (y : ℕ) × (elem y xs ≡ true) × (o y ≡ z)
map-elem o z [] h = cc
map-elem o z (x ∷ xs) h = elim (Bool-cases (z == o x)) [
  | inl e ↦ (x, ground arith, ground arith)
  | inr e ↦ let (y, m, q) = map-elem o z xs (ground arith) in (y, ground arith, q)
]

one : {b c : Block} → some b ≡ some c → b ≡ c
one q = cc

same : {b c : Block} → some b ≡ some c → barriers b.insts ≡ barriers c.insts
same q = ap (λ d. barriers d.insts) (one q)

module _ {f g : Function} (v : Covers f g) where
  open v use {origin, closed, copies}

  pub up : (x : ℕ) (t : List (List Bool)) → Walk g x t → Walk f (origin x) t
  up x t (last b e) =
      let (c, q, r, u) = copies x b e in subst (λ w. Walk f (origin x) (w ∷ [])) (sym u) (last c q)
  up x t (go {t = rest} b y e m w) =
      let (c, q, r, u) = copies x b e in
      subst (λ z. Walk f (origin x) (z ∷ rest)) (sym u)
        (go c (origin y) q (subst (λ ss. elem (origin y) ss ≡ true) r (elem-map origin y b.succs m))
          (up y rest w))

  pub down :
      (x z : ℕ) (t : List (List Bool))
      → origin x ≡ z
      → is_in g.blocks x ≡ true
      → Walk f z t
      → Walk g x t
  down x z t o h (last c e) =
      let (b, d) = at-is_in x g.blocks h in
      let (c', q, r, u) = copies x b d in
      subst (λ w. Walk g x (w ∷ [])) (u ∙ same (sym q ∙ ap (λ a. at a f.blocks) o ∙ e)) (last b d)
  down x z t o h (go {t = rest} c y e m w) =
      let (b, d) = at-is_in x g.blocks h in
      let (c', q, r, u) = copies x b d in
      let e' = sym q ∙ ap (λ a. at a f.blocks) o ∙ e in
      let (y', m', o') =
        map-elem origin y b.succs
          (subst (λ ss. elem y ss ≡ true) (sym (r ∙ ap (λ a. a.succs) (one e'))) m) in
      subst (λ a. Walk g x (a ∷ rest)) (u ∙ same e')
        (go b y' d m'
          (down y' y rest o' (all-elem (is_in g.blocks) y' b.succs (closed x b d) m') w))

-- A block's address is below the next one, and it branches to blocks of the function.
abbrev pub is_formed : Function → Block → Bool
is_formed f b = ltb b.id f.fresh && all (is_in f.blocks) b.succs

at-all :
    (p : Block → Bool) (x : ℕ) (bs : List Block) (b : Block)
    → all p bs ≡ true
    → at x bs ≡ some b
    → p b ≡ true
at-all p x [] b h e = cc
at-all p x (c ∷ bs) b h e = elim (Bool-cases (c.id == x)) [
  | inl k ↦ subst (λ d. p d ≡ true) (one (sym (at-hit x c bs k) ∙ e)) (ground arith)
  | inr k ↦ at-all p x bs b (ground arith) (sym (at-miss x c bs k) ∙ e)
]

pub formed-Covers : (f : Function) → all (is_formed f) f.blocks ≡ true → Covers f f
formed-Covers f h =
    Covers-start f
      (λ x m.
        let (b, e) = at-is_in x f.blocks m in
        subst (λ y. y < f.fresh) (at-id x f.blocks b e)
          (ground (arith, at-all (is_formed f) x f.blocks b h e)))
      (λ x b e. ground (arith, at-all (is_formed f) x f.blocks b h e))

module _ (dominates : Function → ℕ → ℕ → Bool) where
  run_on_function-Covers :
      (n entry : ℕ) (f : Function)
      → Covers f f
      → is_in f.blocks entry ≡ true
      → Covers f (run_on_function dominates n entry f)
  unfolding run_on_function process_function
  run_on_function-Covers n entry f v m =
      let (w, p) =
        find_barriers_dfs-Covers f dominates n entry
          (record { function = f; processed = []; changed = false }) v m in
      (map-Covers w (cleanup_block (succs_of (process_function dominates n entry f).0)) (λ b. refl)
        (λ b. refl) (λ b. refl)).0

  -- In a function whose blocks have addresses below the next one and branch to its blocks only, with
  -- an entry: whatever the dominator tree says and however deep the recursion goes, after
  -- runOnFunction the walks from a block of the function pass the same barriers as they did before.
  pub run_on_function-same_traces :
      (n entry : ℕ) (f : Function)
      → all (is_formed f) f.blocks ≡ true
      → is_in f.blocks entry ≡ true
      → (x : ℕ) (t : List (List Bool)) → is_in f.blocks x ≡ true
      → Walk (run_on_function dominates n entry f) x t ↔ Walk f x t
  run_on_function-same_traces n entry f formed m x t h = (
    λ w. subst (λ z. Walk f z t) (v.fixed x h) (up v x t w),
    down v x x t (v.fixed x h) (v.kept x h),
  )
    where
      v : Covers f (run_on_function dominates n entry f)
      v = run_on_function-Covers n entry f (formed-Covers f formed) m
