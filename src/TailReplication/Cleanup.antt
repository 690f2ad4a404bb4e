-- ===== src/TailReplication/Cleanup.antt =====
-- What the clean-up of one PHI leaves (`CleanupPHIs` of BarrierTailReplication.cpp).
use vari_ocl.Base.{
  ℕ, zero, suc, ◌+◌, ◌*◌, ◌≡◌, refl, ap, ◌∙◌, ◌≤◌, Bool, true, false, List, [], ◌∷◌, ◌++◌, Option,
  none, some, length, elem, keep, get_or, all, if◌then◌else◌, arith, Bool-cases, inl, inr,
  append_assoc, length-append, ltb, ◌==◌,
}
use vari_ocl.TailReplication.{Incoming, remove_at, is_successor, cleanup_phi}

get_or-append :
    {A : Type 0} (gs rest : List A) (r d : A) → get_or (gs ++ r ∷ rest) (length gs) d ≡ r
get_or-append [] rest r d = refl
get_or-append (g ∷ gs) rest r d = get_or-append gs rest r d

remove_at-append :
    (gs rest : Incoming) (r : ℕ × ℕ) → remove_at (length gs) (gs ++ r ∷ rest) ≡ gs ++ rest
remove_at-append [] rest r = refl
remove_at-append (g ∷ gs) rest r = ap (λ ps. g ∷ ps) (remove_at-append gs rest r)

square : (n : ℕ) → suc n * suc n ≡ n * n + n + n + 1
square n = omega arith

module _ (succs : ℕ → List ℕ) (bb : ℕ) where
  -- Whether the block of an incoming value still branches to `bb`.
  abbrev pub is_pred : ℕ × ℕ → Bool
  is_pred p = elem bb (succs p.1)

  keep-append :
      (gs ps : Incoming) → all is_pred gs ≡ true → keep is_pred (gs ++ ps) ≡ gs ++ keep is_pred ps
  keep-append [] ps h = refl
  keep-append (g ∷ gs) ps h = ground (arith, keep-append gs ps)

  all-append :
      (gs ps : Incoming)
      → all is_pred gs ≡ true
      → all is_pred ps ≡ true
      → all is_pred (gs ++ ps) ≡ true
  all-append [] ps h k = k
  all-append (g ∷ gs) ps h k = ground (arith, all-append gs ps)

  -- One round of the loop: the value at `i` stays, or it goes.
  cleanup_phi-stay :
      (f i : ℕ) (ps : Incoming)
      → ltb i (length ps) ≡ true
      → is_successor succs bb ps i ≡ true
      → cleanup_phi succs bb (suc f) i ps ≡ cleanup_phi succs bb f (i + 1) ps
  unfolding cleanup_phi
  cleanup_phi-stay f i ps h e = rw (cleanup_phi, h, e) refl

  cleanup_phi-drop :
      (f i : ℕ) (ps : Incoming) (q : ℕ × ℕ) (qs : Incoming)
      → ltb i (length ps) ≡ true
      → is_successor succs bb ps i ≡ false
      → remove_at i ps ≡ q ∷ qs
      → cleanup_phi succs bb (suc f) i ps ≡ cleanup_phi succs bb f 1 (q ∷ qs)
  unfolding cleanup_phi
  cleanup_phi-drop f i ps q qs h e r =
      round
      ∙ ap (λ rs. elim (length rs == 0) [ true ↦ none | false ↦ cleanup_phi succs bb f 1 rs ]) r
      ∙ non_empty
    where
      round : cleanup_phi succs bb (suc f) i ps ≡ elim (length (remove_at i ps) == 0) [
        | true ↦ none
        | false ↦ cleanup_phi succs bb f 1 (remove_at i ps)
      ]
      round = rw (cleanup_phi, h, e) refl

      zero_test : (suc (length qs) == 0) ≡ false
      zero_test = ground arith

      non_empty :
          (elim (suc (length qs) == 0) [ true ↦ none | false ↦ cleanup_phi succs bb f 1 (q ∷ qs) ])
          ≡ cleanup_phi succs bb f 1 (q ∷ qs)
      non_empty = rw zero_test refl

  -- From the place behind the first value and the values known to be good.
  cleanup_phi-from :
      (f : ℕ) (q : ℕ × ℕ) (gs rest : Incoming)
      → all is_pred gs ≡ true
      → length (gs ++ rest) * length (gs ++ rest) + length rest ≤ f
      → cleanup_phi succs bb f (suc (length gs)) (q ∷ gs ++ rest)
        ≡ some (q ∷ gs ++ keep is_pred rest)
  unfolding cleanup_phi
  cleanup_phi-from zero q gs [] a h = refl
  cleanup_phi-from zero q gs (r ∷ rest) a h = ground arith
  cleanup_phi-from (suc f) q gs [] a h = rw (at_end, cleanup_phi)
    where
      at_end : ltb (suc (length gs)) (suc (length (gs ++ []))) ≡ false
      at_end = ground (arith, length-append gs [])
  cleanup_phi-from (suc f) q gs (r ∷ rest) a h = elim (Bool-cases (is_pred r)) [
    | inl e ↦
        cleanup_phi-stay f (suc (length gs)) (q ∷ gs ++ r ∷ rest) inside (pred ∙ e)
        ∙ next (
            cleanup_phi-from f q (gs ++ r ∷ []) rest (all-append gs (r ∷ []) a (ground arith))
              bound)
        ∙ rw e refl
    | inr e ↦
        cleanup_phi-drop f (suc (length gs)) (q ∷ gs ++ r ∷ rest) q (gs ++ rest) inside (pred ∙ e)
          (ap (λ ps. q ∷ ps) (remove_at-append gs rest r))
        ∙ cleanup_phi-from f q [] (gs ++ rest) refl smaller
        ∙ ap (λ ps. some (q ∷ ps)) (keep-append gs rest a)
        ∙ rw e refl
  ]
    where
      inside : ltb (suc (length gs)) (suc (length (gs ++ r ∷ rest))) ≡ true
      inside = ground (arith, length-append gs (r ∷ rest))

      pred : is_successor succs bb (q ∷ gs ++ r ∷ rest) (suc (length gs)) ≡ is_pred r
      pred = ap is_pred (get_or-append gs rest r (0, 0))

      moved : suc (length gs) + 1 ≡ suc (length (gs ++ r ∷ []))
      moved = omega (arith, length-append gs (r ∷ []))

      bound : length ((gs ++ r ∷ []) ++ rest) * length ((gs ++ r ∷ []) ++ rest) + length rest ≤ f
      bound = rw (append_assoc gs (r ∷ []) rest) (omega (arith, h))

      next :
          cleanup_phi succs bb f (suc (length (gs ++ r ∷ []))) (q ∷ (gs ++ r ∷ []) ++ rest)
            ≡ some (q ∷ (gs ++ r ∷ []) ++ keep is_pred rest)
          → cleanup_phi succs bb f (suc (length gs) + 1) (q ∷ gs ++ r ∷ rest)
            ≡ some (q ∷ gs ++ r ∷ keep is_pred rest)
      next ih =
          cc (moved, append_assoc gs (r ∷ []) rest, append_assoc gs (r ∷ []) (keep is_pred rest))

      smaller : length (gs ++ rest) * length (gs ++ rest) + length (gs ++ rest) ≤ f
      smaller =
          ground (
            arith,
            square (length (gs ++ rest)),
            length-append gs rest,
            length-append gs (r ∷ rest),
          )

  -- What is to be left of the incoming values of one PHI.
  abbrev pub cleaned : Incoming → Option Incoming
  cleaned [] = some []
  cleaned (p ∷ []) = if is_pred p then some (p ∷ []) else none
  cleaned (p ∷ q ∷ ps) =
      if is_pred p then some (p ∷ keep is_pred (q ∷ ps)) else some (q ∷ keep is_pred ps)

  -- With fuel for the square of their number, the clean-up keeps exactly the values whose block still
  -- branches to the block, but for one: where the first is removed, the one behind it stays
  -- untested. A PHI whose only value is removed is gone.
  pub cleanup_phi_correct :
      (f : ℕ) (ps : Incoming) → length ps * length ps ≤ f → cleanup_phi succs bb f 0 ps ≡ cleaned ps
  unfolding cleanup_phi
  cleanup_phi_correct zero [] h = refl
  cleanup_phi_correct (suc f) [] h = refl
  cleanup_phi_correct zero (p ∷ ps) h = ground (arith, square (length ps))
  cleanup_phi_correct (suc f) (p ∷ []) h = elim (Bool-cases (is_pred p)) [
    | inl e ↦
        cleanup_phi-stay f 0 (p ∷ []) refl e
        ∙ cleanup_phi-from f p [] [] refl (ground arith)
        ∙ rw e refl
    | inr e ↦ rw (e, cleanup_phi) refl
  ]
  cleanup_phi_correct (suc f) (p ∷ q ∷ ps) h = elim (Bool-cases (is_pred p)) [
    | inl e ↦
        cleanup_phi-stay f 0 (p ∷ q ∷ ps) (ground arith) e
        ∙ cleanup_phi-from f p [] (q ∷ ps) refl (omega (arith, square (suc (length ps)), h))
        ∙ rw e refl
    | inr e ↦
        cleanup_phi-drop f 0 (p ∷ q ∷ ps) q ps (ground arith) e refl
        ∙ cleanup_phi-from f q [] ps refl
            (omega (arith, square (suc (length ps)), square (length ps), h))
        ∙ rw e refl
  ]
