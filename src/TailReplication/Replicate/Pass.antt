-- ===== src/TailReplication/Replicate/Pass.antt =====
-- The recursion of BarrierTailReplication (BarrierTailReplication.cpp) keeps that every block copies a
-- block of the function that it was given.
use vari_ocl.Base.{
  ℕ, zero, suc, ◌+◌, ◌≡◌, refl, sym, ap, subst, ◌∙◌, Bool, true, List, [], ◌∷◌, map, some, length,
  elem, all, get_or, arith, Bool-cases, inl, inr, ltb,
}
use vari_ocl.TailReplication.Replicate.{
  Block, Function, at, succs_of, set_at, set_successor, Replication, replicate_subgraph,
  replace_successor, join_successor, join_loop, replicate_joined_subgraphs, barrier_in,
  replicate_behind, find_loop, find_barriers_dfs,
}
use vari_ocl.TailReplication.Replicate.Covers.{
  Covers, Extends, Extends-refl, Extends-trans, change-Covers,
}
use vari_ocl.TailReplication.Replicate.Lookup.{is_in, at-is_in}
use vari_ocl.TailReplication.Replicate.Whole.{Step, replicate_subgraph-Covers}

get_or-all :
    (p : ℕ → Bool) (xs : List ℕ) (i : ℕ)
    → all p xs ≡ true
    → ltb i (length xs) ≡ true
    → p (get_or xs i 0) ≡ true
get_or-all p [] i h k = absurd (ground arith)
get_or-all p (x ∷ xs) zero h k = ground arith
get_or-all p (x ∷ xs) (suc i) h k = get_or-all p xs i (ground arith) (ground arith)

get_or-map :
    (o o' : ℕ → ℕ) (xs ys : List ℕ) (i : ℕ)
    → map o xs ≡ map o' ys
    → ltb i (length ys) ≡ true
    → o (get_or xs i 0) ≡ o' (get_or ys i 0)
get_or-map o o' xs [] i h k = absurd (ground arith)
get_or-map o o' [] (y ∷ ys) i h k = cc
get_or-map o o' (x ∷ xs) (y ∷ ys) zero h k = cc
get_or-map o o' (x ∷ xs) (y ∷ ys) (suc i) h k = get_or-map o o' xs ys i (cc) (ground arith)

length-map-same : (o o' : ℕ → ℕ) (xs ys : List ℕ) → map o xs ≡ map o' ys → length xs ≡ length ys
length-map-same o o' [] [] h = refl
length-map-same o o' [] (y ∷ ys) h = cc
length-map-same o o' (x ∷ xs) [] h = cc
length-map-same o o' (x ∷ xs) (y ∷ ys) h = ap suc (length-map-same o o' xs ys cc)

set_at-map :
    (o : ℕ → ℕ) (i y : ℕ) (xs : List ℕ)
    → (ltb i (length xs) ≡ true → o y ≡ o (get_or xs i 0))
    → map o (set_at i y xs) ≡ map o xs
set_at-map o i y [] h = refl
set_at-map o zero y (x ∷ xs) h = ap (λ z. z ∷ map o xs) (h (ground arith))
set_at-map o (suc i) y (x ∷ xs) h =
    ap (λ zs. o x ∷ zs) (set_at-map o i y xs (λ k. h (ground arith)))

set_at-all :
    (p : ℕ → Bool) (i y : ℕ) (xs : List ℕ)
    → p y ≡ true
    → all p xs ≡ true
    → all p (set_at i y xs) ≡ true
set_at-all p i y [] h k = refl
set_at-all p zero y (x ∷ xs) h k = ground arith
set_at-all p (suc i) y (x ∷ xs) h k = ground (arith, set_at-all p i y xs)

succs_of-at : (g : Function) (x : ℕ) (b : Block) → at x g.blocks ≡ some b → succs_of g x ≡ b.succs
succs_of-at g x b e = rw e refl

module _ {f g : Function} (v : Covers f g) where
  open v use {origin, closed, copies}

  succs-inside : (x : ℕ) → is_in g.blocks x ≡ true → all (is_in g.blocks) (succs_of g x) ≡ true
  succs-inside x h =
      let (b, e) = at-is_in x g.blocks h in
      subst (λ ss. all (is_in g.blocks) ss ≡ true) (sym (succs_of-at g x b e)) (closed x b e)

  -- A step keeps what the successors copy.
  succs-same :
      {h : Function} (w : Covers f h) (x : ℕ)
      → Extends v w
      → is_in g.blocks x ≡ true
      → map w.origin (succs_of h x) ≡ map origin (succs_of g x)
  succs-same {h} w x p m =
      let (b, e) = at-is_in x g.blocks m in
      let (b', e') = at-is_in x h.blocks (p.grows x m) in
      let (c, q, r, _) = copies x b e in
      let (c', q', r', _) = w.copies x b' e' in
      ap (map w.origin) (succs_of-at h x b' e')
      ∙ r'
      ∙ ap (λ d. d.succs) (same (sym q' ∙ ap (λ z. at z f.blocks) (p.agrees x m) ∙ q))
      ∙ sym r
      ∙ sym (ap (map origin) (succs_of-at g x b e))
    where
      same : {b c : Block} → some b ≡ some c → b ≡ c
      same q = cc

  set_successor-Covers :
      (x i y : ℕ)
      → is_in g.blocks y ≡ true
      → (ltb i (length (succs_of g x)) ≡ true → origin y ≡ origin (get_or (succs_of g x) i 0))
      → Step v (set_successor x i y g)
  set_successor-Covers x i y h k =
      change-Covers v (λ b. record b { succs = set_at i y b.succs }) x (λ b. refl) (λ b. refl)
        (λ b e. set_at-map origin i y b.succs (
          subst (λ ss. ltb i (length ss) ≡ true → origin y ≡ origin (get_or ss i 0))
            (succs_of-at g x b e) k))
        (λ b e. set_at-all (is_in g.blocks) i y b.succs h (closed x b e))

module _ (f : Function) (dominates : Function → ℕ → ℕ → Bool) where
  replace_successor-Covers :
      (entry i : ℕ) (s : Replication) (v : Covers f s.function)
      → is_in s.function.blocks entry ≡ true
      → ltb i (length (succs_of s.function entry)) ≡ true
      → Step v
          (replace_successor dominates entry i (get_or (succs_of s.function entry) i 0) s).function
  unfolding replace_successor
  replace_successor-Covers entry i s v m k =
      let old =
        get_or-all (is_in s.function.blocks) (succs_of s.function entry) i (succs-inside v entry m)
          k in
      let (w, p, here, o) = replicate_subgraph-Covers dominates b v old in
      let (u, q) =
        set_successor-Covers w entry i (replicate_subgraph dominates s.function b).1 here (λ l.
          o
          ∙ p.agrees b old
          ∙ sym (get_or-map w.origin v.origin _ _ i (succs-same v w entry p m) k)) in
      (u, Extends-trans p q)
    where
      b : ℕ
      b = get_or (succs_of s.function entry) i 0

  -- What a recursive call does.
  abbrev pub Good : (ℕ → Replication → Replication) → Type 0
  Good rec =
      (b : ℕ) (s : Replication) (v : Covers f s.function)
      → is_in s.function.blocks b ≡ true
      → Step v (rec b s).function

  join_successor-Covers :
      (rec : ℕ → Replication → Replication) (dominator entry i : ℕ) (s : Replication)
      (v : Covers f s.function)
      → Good rec
      → is_in s.function.blocks entry ≡ true
      → ltb i (length (succs_of s.function entry)) ≡ true
      → Step v
          (join_successor dominates rec dominator entry i
            (get_or (succs_of s.function entry) i 0)
            s).function
  unfolding join_successor
  join_successor-Covers rec dominator entry i s v r m k = elim (Bool-cases (elem b s.processed)) [
    | inl e ↦ rw e (v, Extends-refl v)
    | inr e ↦ elim (Bool-cases (dominates s.function b entry)) [
      | inl d ↦ rw (e, d) (v, Extends-refl v)
      | inr d ↦ elim (Bool-cases (dominates s.function dominator b)) [
        | inl t ↦
            rw (e, d, t)
              (r b s v (
                get_or-all (is_in s.function.blocks) (succs_of s.function entry) i
                  (succs-inside v entry m) k))
        | inr t ↦ rw (e, d, t) (replace_successor-Covers entry i s v m k)
      ]
    ]
  ]
    where
      b : ℕ
      b = get_or (succs_of s.function entry) i 0

  join_loop-Covers :
      (rec : ℕ → Replication → Replication) (dominator entry i e : ℕ) (s : Replication)
      (v : Covers f s.function)
      → Good rec
      → is_in s.function.blocks entry ≡ true
      → i + e ≡ length (succs_of s.function entry)
      → Step v (join_loop dominates rec dominator entry i e s).function
  unfolding join_loop
  join_loop-Covers rec dominator entry i zero s v r m k = (v, Extends-refl v)
  join_loop-Covers rec dominator entry i (suc e) s v r m k =
      let (w, p) = join_successor-Covers rec dominator entry i s v r m (ground arith) in
      let (u, q) =
        join_loop-Covers rec dominator entry (suc i) e _ w r (p.grows entry m)
          (omega (arith, k, length-map-same w.origin v.origin _ _ (succs-same v w entry p m))) in
      (u, Extends-trans p q)

  replicate_joined_subgraphs-Covers :
      (n dominator : ℕ) → Good (replicate_joined_subgraphs dominates n dominator)
  unfolding replicate_joined_subgraphs
  replicate_joined_subgraphs-Covers zero dominator b s v m = (v, Extends-refl v)
  replicate_joined_subgraphs-Covers (suc n) dominator b s v m =
      join_loop-Covers (replicate_joined_subgraphs dominates n dominator) dominator b 0
        (length (succs_of s.function b)) s v (replicate_joined_subgraphs-Covers n dominator) m
        (omega arith)

  replicate_behind-Covers : (n : ℕ) → Good (replicate_behind dominates n)
  unfolding replicate_behind
  replicate_behind-Covers n b s v m =
      elim (Bool-cases (barrier_in dominates (at b s.function.blocks))) [
        | inl e ↦ rw e (replicate_joined_subgraphs-Covers n b b (record s { processed = [] }) v m)
        | inr e ↦ rw e (v, Extends-refl v)
      ]

  find_loop-Covers :
      (rec : ℕ → Replication → Replication) (bb i e : ℕ) (s : Replication) (v : Covers f s.function)
      → Good rec
      → is_in s.function.blocks bb ≡ true
      → i + e ≡ length (succs_of s.function bb)
      → Step v (find_loop dominates rec bb i e s).function
  find_loop-Covers rec bb i zero s v r m k = (v, Extends-refl v)
  find_loop-Covers rec bb i (suc e) s v r m k =
      let (w, p) = r (get_or (succs_of s.function bb) i 0) s v (
        get_or-all (is_in s.function.blocks) (succs_of s.function bb) i (succs-inside v bb m)
          (ground arith)) in
      let (u, q) =
        find_loop-Covers rec bb (suc i) e _ w r (p.grows bb m)
          (omega (arith, k, length-map-same w.origin v.origin _ _ (succs-same v w bb p m))) in
      (u, Extends-trans p q)

  pub find_barriers_dfs-Covers : (n : ℕ) → Good (find_barriers_dfs dominates n)
  unfolding find_barriers_dfs
  find_barriers_dfs-Covers zero b s v m = (v, Extends-refl v)
  find_barriers_dfs-Covers (suc n) b s v m = elim (Bool-cases (elem b s.processed)) [
    | inl e ↦ rw (find_barriers_dfs, e) (v, Extends-refl v)
    | inr e ↦
        rw (find_barriers_dfs, e)
          (let t = replicate_behind dominates n b (record s { processed = b ∷ s.processed }) in
            let (w, p) =
              replicate_behind-Covers n b (record s { processed = b ∷ s.processed }) v m in
            let (u, q) =
              find_loop-Covers (find_barriers_dfs dominates n) b 0 (length (succs_of t.function b))
                t w (find_barriers_dfs-Covers n) (p.grows b m) (omega arith) in
            (u, Extends-trans p q))
  ]
