-- ===== src/AuxBarriers/InnerLoop/Placed.antt =====
-- When ImplicitLoopBarriers (ImplicitLoopBarriers.cpp) puts barriers into a loop, and where.
use vari_ocl.Base.{
  ◌==◌, arith, ◌+◌, ℕ, ◌≡◌, refl, Bool, true, false, not, ◌&&◌, List, Option, some, ltb,
}
use vari_ocl.Ir.{is_barrier_loop}
use vari_ocl.Triplet.{Tia, Node, returns, is_uniform}
use vari_ocl.AuxBarriers.{Function, put_front, put_end, block, test, Loop, members_in}
use vari_ocl.AuxBarriers.Adds.{
  done, front, end, Adds-plain, Adds-stops, Adds-has_inst, put_front-here, put_front-count,
  put_end-count, put_end-here,
}
use vari_ocl.AuxBarriers.Insert.{
  barriers_at, one_if, has_inst, starts_with_barrier, stops_with_barrier, without_barriers,
}
use vari_ocl.AuxBarriers.InnerLoop.{
  conditional_branch, put_both, add_inner_loop_barrier, process_loop, run_on_loop,
}

-- An innermost loop without a barrier.
abbrev pub is_candidate : Loop → Function → Bool
unfolding is_barrier_loop
is_candidate l f = not (is_barrier_loop (members_in l.members f.blocks)) && not (ltb 0 l.sub_loops)

abbrev pub loop_of : List ℕ → ℕ → Option ℕ → ℕ → ℕ → Option ℕ → Loop
loop_of members subs preheader h e latch = record {
  members = members;
  sub_loops = subs;
  preheader = preheader;
  header = some h;
  exiting = some e;
  latch = latch;
}

module _ (node : ℕ → Node) (constant : ℕ → Option ℕ) (condition : ℕ → ℕ) (fuel : ℕ) where
  -- What comes of a loop with header `h` and exiting block `e`: the barriers are put, if `put` says
  -- so, and else nothing is.
  abbrev pub Result : ℕ → ℕ → Bool → Function → Function → Type 0
  Result h e true f g =
      (without_barriers g.blocks ≡ without_barriers f.blocks)
      × (test has_inst (block e f.blocks) ≡ true
          → test stops_with_barrier (block e g.blocks) ≡ true)
      × (test has_inst (block h f.blocks) ≡ true
          → test starts_with_barrier (block h g.blocks) ≡ true)
      × ((y : ℕ)
          → test has_inst (block y f.blocks) ≡ true
          → barriers_at y g.blocks ≡ barriers_at y f.blocks + one_if (e == y) + one_if (h == y))
  Result h e false f g = g ≡ f

  put-Result : (h e : ℕ) (f : Function) → Result h e true f (put_front h (put_end e f))
  put-Result h e f = (
    Adds-plain (front (end done e) h),
    λ i. Adds-stops (front done h) e (put_end-here e f i),
    λ i. put_front-here h (put_end e f) (Adds-has_inst (end done e) h i),
    λ y i. omega (
      arith,
      put_end-count e f y i,
      put_front-count h (put_end e f) y (Adds-has_inst (end done e) y i),
    ),
  )

  -- For a loop with a header and one exiting block that ends in a conditional branch, and where the
  -- analysis answers for the header and then for the condition, the pass returns true if and only if
  -- the loop has no barrier and no inner loop and both are uniform. Then a barrier stands before the
  -- branch and one behind the PHIs of the header, if these blocks have an instruction, all that is no
  -- barrier stays, and a block with an instruction gets one barrier for being the exiting block and
  -- one for being the header and no other; otherwise the function stays as it is.
  pub run_on_loop_lem :
      (members : List ℕ) (subs h e b : ℕ) (preheader latch : Option ℕ) (f : Function)
      (t t1 t2 : Tia) (u1 u2 : Bool)
      → conditional_branch (block e f.blocks) ≡ some b
      → is_uniform node constant fuel t h ≡ returns t1 u1
      → is_uniform node constant fuel t1 (condition b) ≡ returns t2 u2
      → (g : Function) × (t' : Tia) × (run_on_loop node constant condition fuel
            (loop_of members subs preheader h e latch)
            f
            t
          ≡ returns t' (g, is_candidate (loop_of members subs preheader h e latch) f && u1 && u2))
        × Result h e (is_candidate (loop_of members subs preheader h e latch) f && u1 && u2) f g
  unfolding run_on_loop process_loop add_inner_loop_barrier put_both is_candidate
  run_on_loop_lem members subs h e b preheader latch f t t1 t2 u1 u2 c q1 q2 =
      go (is_barrier_loop (members_in members f.blocks)) (ltb 0 subs) u1 u2 refl refl q1 q2
    where
      go :
          (x y v1 v2 : Bool)
          → is_barrier_loop (members_in members f.blocks) ≡ x
          → ltb 0 subs ≡ y
          → is_uniform node constant fuel t h ≡ returns t1 v1
          → is_uniform node constant fuel t1 (condition b) ≡ returns t2 v2
          → (g : Function) × (t' : Tia) × (run_on_loop node constant condition fuel
                (loop_of members subs preheader h e latch)
                f
                t
              ≡ returns t' (g, (not x && not y) && v1 && v2))
            × Result h e ((not x && not y) && v1 && v2) f g
      go true y v1 v2 a s r1 r2 = (f, t, rw a refl, refl)
      go false true v1 v2 a s r1 r2 = (f, t, rw (a, s) refl, refl)
      go false false false v2 a s r1 r2 = (f, t1, rw (a, s, r1) refl, refl)
      go false false true true a s r1 r2 =
          (put_front h (put_end e f), t2, rw (a, s, r1, put_both, c, r2) refl, put-Result h e f)
      go false false true false a s r1 r2 = (f, t2, rw (a, s, r1, put_both, c, r2) refl, refl)
