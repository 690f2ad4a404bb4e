-- ===== src/BarrierDeleter/Undone.antt =====
-- What BarrierDeleter (barrier_deleter.cpp) leaves after the passes that add barriers.
use vari_ocl.Base.{
  ◌++◌, ◌≡◌, refl, ap, sym, ◌∙◌, Bool, true, false, not, List, [], ◌∷◌, keep, any, all, map,
  Bool-cases, inl, inr,
}
use vari_ocl.Ir.{Block, Inst, is_barrier, has_barrier}
use vari_ocl.AuxBarriers.{Function}
use vari_ocl.AuxBarriers.Adds.{Adds, Adds-plain}
use vari_ocl.AuxBarriers.Insert.{without_barriers}
use vari_ocl.BarrierDeleter.{Module, erase_all, run_on_module}

erase_all-eq-without_barriers : (bs : List Block) → erase_all bs ≡ without_barriers bs
unfolding erase_all
erase_all-eq-without_barriers [] = refl
erase_all-eq-without_barriers (b ∷ bs) = rw (erase_all-eq-without_barriers bs) refl

keep-none : (is : List Inst) → any is_barrier (keep (λ i. not (is_barrier i)) is) ≡ false
keep-none [] = refl
keep-none (i ∷ is) = elim (Bool-cases (is_barrier i)) [
  | inl e ↦ rw e (keep-none is)
  | inr e ↦ rw (e, e) (keep-none is)
]

abbrev pub has_no_barrier : Block → Bool
unfolding has_barrier
has_no_barrier b = not (has_barrier b)

erase_all-no_barrier : (bs : List Block) → all has_no_barrier (erase_all bs) ≡ true
unfolding erase_all has_no_barrier has_barrier
erase_all-no_barrier [] = refl
erase_all-no_barrier (b ∷ bs) = rw (keep-none b.insts) (erase_all-no_barrier bs)

erase_all-none : (ms : List (List Block)) → all (all has_no_barrier) (map erase_all ms) ≡ true
erase_all-none [] = refl
erase_all-none (f ∷ ms) = rw (erase_all-no_barrier f) (erase_all-none ms)

map-erase_all : (ms : List (List Block)) → map erase_all ms ≡ map without_barriers ms
map-erase_all [] = refl
map-erase_all (f ∷ ms) = rw (erase_all-eq-without_barriers f, map-erase_all ms) refl

map-swap :
    (before after : List (List Block)) (f g : List Block)
    → erase_all g ≡ erase_all f
    → map erase_all (before ++ g ∷ after) ≡ map erase_all (before ++ f ∷ after)
map-swap [] after f g e = ap (λ bs. bs ∷ map erase_all after) e
map-swap (b ∷ before) after f g e = ap (λ ms. erase_all b ∷ ms) (map-swap before after f g e)

-- A module with the barrier function and a function between others.
abbrev pub module_of : List (List Block) → Function → List (List Block) → Module
module_of before f after = record { functions = before ++ f.blocks ∷ after; declared = true }

-- In a module with the barrier function, where barriers were added to one function at the front or at
-- the end of its blocks: deleting the barriers gives the same module as deleting them before. No block
-- of it has a barrier, and every function has kept all that is no barrier.
pub run_on_module-Adds :
    (before after : List (List Block)) (f g : Function)
    → Adds f g
    → (run_on_module (module_of before g after) ≡ run_on_module (module_of before f after))
      × (all (all has_no_barrier) (run_on_module (module_of before g after)).0.functions ≡ true)
      × ((run_on_module (module_of before g after)).0.functions
          ≡ map without_barriers (before ++ f.blocks ∷ after))
unfolding run_on_module
run_on_module-Adds before after f g p = (
  ap (λ ms. (record { functions = ms; declared = false }, true)) same,
  erase_all-none (before ++ g.blocks ∷ after),
  same ∙ map-erase_all (before ++ f.blocks ∷ after),
)
  where
    same : map erase_all (before ++ g.blocks ∷ after) ≡ map erase_all (before ++ f.blocks ∷ after)
    same = map-swap before after f.blocks g.blocks (
        erase_all-eq-without_barriers g.blocks
        ∙ Adds-plain p
        ∙ sym (erase_all-eq-without_barriers f.blocks))
