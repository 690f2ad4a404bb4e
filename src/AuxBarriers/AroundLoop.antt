-- ===== src/AuxBarriers/AroundLoop.antt =====
-- LoopBarriers (LoopBarriers.cpp): the barriers around a loop with a barrier. The predecessors of a
-- block, the dominator tree's query and SplitBlock are parameters.
pub mod Counts
pub mod Placed
use vari_ocl.Base.{
  ℕ, ◌≡◌, Bool, true, false, not, ◌&&◌, List, [], ◌∷◌, ◌++◌, Option, none, some, elem, length, ltb,
  ◌==◌, if◌then◌else◌, ◌>>=◌,
}
use vari_ocl.Ir.{Block, has_barrier, before_last?, barrier_at}
use vari_ocl.HiveOff.{Splitter, first_non_phi, terminator_place}
use vari_ocl.AuxBarriers.{Function, put_front, put_end, block, test, Loop, members_in}

-- The block of the first barrier of the loop.
unfoldable pub first_barrier_block : List Block → Option ℕ
unfolding has_barrier
first_barrier_block [] = none
first_barrier_block (b ∷ bs) =
    let rest = first_barrier_block bs in if has_barrier b then some b.id else rest

abbrev pub has_phis : Block → Bool
has_phis b = ltb 0 (first_non_phi b.insts)

abbrev pub put_header : ℕ → Function → Function
unfolding put_front
put_header h f = if test has_phis (block h f.blocks) then put_front h f else f

abbrev pub put_exiting : Option ℕ → Function → Function
unfolding put_end
put_exiting none f = f
put_exiting (some e) f = put_end e f

-- Whether the latch is there, and is not the exiting block.
abbrev pub differs : Option ℕ → ℕ → Bool
differs none l = true
differs (some e) l = not (e == l)

module _ (preds : ℕ → List ℕ) (dominates : ℕ → ℕ → Bool) where
  -- The loop over the predecessors of the header; `j` is the barrier's block.
  abbrev pub is_latch : Loop → ℕ → ℕ → Bool
  is_latch l j n = elem n l.members && dominates j n

  unfoldable pub put_latches : Loop → ℕ → List ℕ → Function → Function
  unfolding put_end
  put_latches l j [] f = f
  put_latches l j (n ∷ ns) f = put_latches l j ns (if is_latch l j n then put_end n f else f)

  -- The code from the latch on, with what it returns. `changed` is still false where the latch is not
  -- the exiting block.
  abbrev pub put_latch : Loop → Option ℕ → ℕ → ℕ → Function → Function × Bool
  unfolding put_end put_latches
  put_latch l none j h f = (put_latches l j (preds h) f, true)
  put_latch l (some n) j h f =
      if differs l.exiting n then (put_end n f, false) else (put_latches l j (preds h) f, true)

  -- A loop with a barrier. Without a preheader the assertion fails, which is `none`.
  unfoldable pub put_around : Loop → ℕ → Function → Option (Function × Bool)
  unfolding put_end put_header put_exiting put_latch
  put_around l j f = l.preheader >>= λ p. l.header >>= λ h.
      some (put_latch l l.latch j h (put_exiting l.exiting (put_header h (put_end p f))))

module _ (s : Splitter) where
  open s use {split}

  -- Whether a barrier comes before the terminator of the preheader.
  abbrev pub ends_in_barrier : Block → Bool
  ends_in_barrier b = not (length b.insts == 1) && barrier_at (before_last? b.insts)

  unfoldable pub split_end : ℕ → List Block → List Block
  split_end x [] = []
  split_end x (b ∷ bs) =
      let rest = split_end x bs in
      if b.id == x
      then (split b (terminator_place b)).0 ∷ (split b (terminator_place b)).1 ∷ bs
      else b ∷ rest

  -- A loop without a barrier.
  unfoldable pub split_preheader : Loop → Function → Option (Function × Bool)
  unfolding split_end
  split_preheader l f = l.preheader >>= λ p.
      if test ends_in_barrier (block p f.blocks)
      then some (record f { blocks = split_end p f.blocks }, true)
      else some (f, false)

-- `ProcessLoop`.
unfoldable pub process_loop :
    (ℕ → List ℕ) → (ℕ → ℕ → Bool) → Splitter → Loop → Function → Option (Function × Bool)
unfolding put_around split_preheader first_barrier_block
process_loop preds dominates s l f = elim (first_barrier_block (members_in l.members f.blocks)) [
  | some j ↦ put_around preds dominates l j f
  | none ↦ split_preheader s l f
]
