-- ===== src/HiveOff/Ends.antt =====
-- The exits that runOnFunction of hive_off_barrier.cpp makes before it looks at the other barriers.
use vari_ocl.Base.{
  ℕ, suc, ◌-◌, ◌≡◌, refl, sym, ap, subst, ◌∙◌, Bool, true, not, ◌&&◌, ◌||◌, List, [], ◌∷◌, ◌++◌,
  Option, none, some, length, take, drop, ltb, arith, Bool-cases, inl, inr, ◌<◌,
}
use vari_ocl.Ir.{
  Inst, Block, contains_just_a_barrier, ends_with_barrier, last?, before_last?, barrier_at,
  get_terminator, insert_at, barrier_call, create_barrier, ends,
}
use vari_ocl.HiveOff.{Splitter, terminator_place, is_exit, hive_entry, hive_exit, hive_exits}
use vari_ocl.HiveOff.Shape.{All, All-append}
use vari_ocl.HiveOff.Alone.{just}

last-snoc : (xs : List Inst) (j : Inst) → last? (xs ++ j ∷ []) ≡ some j
last-snoc [] j = refl
last-snoc (x ∷ []) j = refl
last-snoc (x ∷ y ∷ xs) j = last-snoc (y ∷ xs) j

drop-last : (i : Inst) (is : List Inst) → (t : Inst) × (drop (length is) (i ∷ is) ≡ t ∷ [])
drop-last i [] = (i, refl)
drop-last i (k ∷ is) = drop-last k is

drop-last_two :
    (i j : Inst) (is : List Inst)
    → barrier_at (before_last? (i ∷ j ∷ is)) ≡ true
    → just (drop (length is) (i ∷ j ∷ is)) ≡ true
drop-last_two i j [] h = h
drop-last_two i j (k ∷ is) h = drop-last_two j k is h

-- The place of the barrier in a block that ends with one.
two_from_end :
    (t : Option Inst) (b : Block)
    → ends t b ≡ true
    → just (drop (length b.insts - 2) b.insts) ≡ true
two_from_end none b h = cc
two_from_end (some t) b h = go b.insts h
  where
    go :
        (is : List Inst)
        → (ltb 1 (length is) && barrier_at (before_last? is)) ≡ true
        → just (drop (length is - 2) is) ≡ true
    go [] h = cc
    go (i ∷ []) h = ground arith
    go (i ∷ j ∷ is) h =
        let e : suc (suc (length is)) - 2 ≡ length is = omega arith in
        subst (λ n. just (drop n (i ∷ j ∷ is)) ≡ true) (sym e) (drop-last_two i j is (ground arith))

-- The block that gets a new barrier has only a terminator.
new_barrier-just :
    (addr : ℕ) (is : List Inst)
    → 0 < length is
    → just (
        insert_at
          (length (drop (length is - 1) is) - 1)
          (barrier_call addr)
          (drop (length is - 1) is))
      ≡ true
new_barrier-just addr [] h = absurd (omega arith)
new_barrier-just addr (i ∷ is) h =
    let e : suc (length is) - 1 ≡ length is = omega arith in
    let (t, d) = drop-last i is in
    let c = ap (λ n. drop n (i ∷ is)) e ∙ d in
    subst (λ ys. just (insert_at (length ys - 1) (barrier_call addr) ys) ≡ true) (sym c) refl

-- An exit is just a barrier and a terminator.
abbrev pub settled : Splitter → Block → Bool
settled s b = not (is_exit s (get_terminator b)) || just b.insts

abbrev pub front_just : List Block → Bool
front_just [] = true
front_just (b ∷ bs) = just b.insts

module _ (s : Splitter) where
  open s use {split, jump, jump_br, split_old, split_new}

  jumping-settled : (b : Block) (k : ℕ) → settled s (split b k).0 ≡ true
  jumping-settled b k =
      let e = ap last? (split_old b k) ∙ last-snoc (take k b.insts) (jump b k) in
      ground (arith, e, jump_br b k)

  just-settled : (b : Block) → just b.insts ≡ true → settled s b ≡ true
  just-settled b h = ground (arith, h)

  hive_exit-settled :
      (addr : ℕ) (b : Block)
      → 0 < length b.insts
      → All (λ c. settled s c ≡ true) (hive_exit s addr b)
  unfolding hive_exit contains_just_a_barrier ends_with_barrier create_barrier
  hive_exit-settled addr b f =
      elim (Bool-cases (is_exit s (get_terminator b) && not (contains_just_a_barrier b))) [
        | inr keep ↦ rw keep (ground (arith, keep), tt)
        | inl cut ↦ elim (Bool-cases (ends (get_terminator b) b)) [
          | inl e ↦
              let j : just (split b (length b.insts - 2)).1.insts ≡ true =
                ap just (split_new b (length b.insts - 2)) ∙ two_from_end (get_terminator b) b e in
              rw (cut, e)
                (
                  jumping-settled b (length b.insts - 2),
                  (just-settled (split b (length b.insts - 2)).1 j, tt),
                )
          | inr e ↦
              let k = length b.insts - 1 in
              let new =
                λ (ys : List Inst). just (insert_at (length ys - 1) (barrier_call addr) ys) in
              let j : new (split b k).1.insts ≡ true =
                ap new (split_new b k) ∙ new_barrier-just addr b.insts f in
              rw (cut, e)
                (
                  jumping-settled b k,
                  (
                    just-settled
                        (create_barrier addr (terminator_place (split b k).1) (split b k).1) j,
                    tt,
                  ),
                )
        ]
      ]

  hive_exits-settled :
      (addr : ℕ → ℕ) (f : List Block)
      → All (λ b. 0 < length b.insts) f
      → All (λ c. settled s c ≡ true) (hive_exits s addr f)
  unfolding hive_exits
  hive_exits-settled addr [] p = tt
  hive_exits-settled addr (b ∷ bs) p =
      All-append (λ c. settled s c ≡ true) (hive_exit s (addr b.id) b) (hive_exits s addr bs)
        (hive_exit-settled (addr b.id) b p.0) (hive_exits-settled addr bs p.1)

  hive_exit-just : (addr : ℕ) (b : Block) → just b.insts ≡ true → hive_exit s addr b ≡ b ∷ []
  unfolding hive_exit contains_just_a_barrier
  hive_exit-just addr b h = elim (Bool-cases (is_exit s (get_terminator b))) [
    | inl e ↦ rw (h, e)
    | inr e ↦ rw e
  ]

  pub hive_exits-front :
      (addr : ℕ → ℕ) (f : List Block)
      → front_just f ≡ true
      → front_just (hive_exits s addr f) ≡ true
  unfolding hive_exits
  hive_exits-front addr [] h = refl
  hive_exits-front addr (b ∷ bs) h = rw (hive_exit-just (addr b.id) b h) h

  entry_block-just :
      (addr : ℕ) (b : Block)
      → just (create_barrier addr (terminator_place (split b 0).0) (split b 0).0).insts ≡ true
  unfolding create_barrier
  entry_block-just addr b =
      ap (λ ys. just (insert_at (length ys - 1) (barrier_call addr) ys)) (split_old b 0)

  pub hive_entry-front : (addr : ℕ) (f : List Block) → front_just (hive_entry s addr f) ≡ true
  unfolding hive_entry contains_just_a_barrier
  hive_entry-front addr [] = refl
  hive_entry-front addr (b ∷ bs) = elim (Bool-cases (just b.insts)) [
    | inl j ↦ rw j j
    | inr j ↦ rw j (entry_block-just addr b)
  ]

  pos_of_just : (is : List Inst) → just is ≡ true → 0 < length is
  pos_of_just is h = ground arith

  hive_entry-pos :
      (addr : ℕ) (f : List Block)
      → All (λ b. 0 < length b.insts) f
      → All (λ b. 0 < length b.insts) (hive_entry s addr f)
  unfolding hive_entry contains_just_a_barrier
  hive_entry-pos addr [] p = tt
  hive_entry-pos addr (b ∷ bs) p = elim (Bool-cases (just b.insts)) [
    | inl j ↦ rw j p
    | inr j ↦ rw j (
      pos_of_just (create_barrier addr (terminator_place (split b 0).0) (split b 0).0).insts
          (entry_block-just addr b),
      (subst (λ ys. 0 < length ys) (sym (split_new b 0)) p.0, p.1),
    )
  ]

  -- On a function whose blocks have instructions, after the entry and the exits are made, every block
  -- whose terminator has no successors is just a barrier and that terminator, and so is the first
  -- block, whatever its terminator.
  pub hive_ends-settled :
      (entry_addr : ℕ) (exit_addr : ℕ → ℕ) (f : List Block)
      → All (λ b. 0 < length b.insts) f
      → All (λ c. settled s c ≡ true) (hive_exits s exit_addr (hive_entry s entry_addr f))
        × (front_just (hive_exits s exit_addr (hive_entry s entry_addr f)) ≡ true)
  hive_ends-settled entry_addr exit_addr f p = (
    hive_exits-settled exit_addr (hive_entry s entry_addr f) (hive_entry-pos entry_addr f p),
    hive_exits-front exit_addr (hive_entry s entry_addr f) (hive_entry-front entry_addr f),
  )
