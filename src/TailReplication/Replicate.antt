-- ===== src/TailReplication/Replicate.antt =====
-- The replication of BarrierTailReplication (BarrierTailReplication.cpp). Blocks and values have
-- addresses of their own. The dominator tree, which the pass computes anew after each change, is a
-- parameter that reads the function.
pub mod Lookup
pub mod Covers
pub mod Whole
pub mod Pass
pub mod Traces
pub mod Fresh
use vari_ocl.Base.{
  ℕ, zero, suc, ◌+◌, ◌*◌, ◌≡◌, Bool, true, false, not, ◌||◌, List, [], ◌∷◌, ◌++◌, map, foldl,
  Option, none, some, length, any, elem, ◌==◌, if◌then◌else◌, get_or, Map, lookup_or, insert,
}
use vari_ocl.TailReplication.{Incoming, find_subgraph, cleanup_phi}

pub record Phi : Type 0 where
  pub id : ℕ
  pub incoming : Incoming

-- Any other instruction; the last one of a block is its terminator.
pub record Inst : Type 0 where
  pub id : ℕ
  pub barrier : Bool
  pub operands : List ℕ

pub record Block : Type 0 where
  pub id : ℕ
  pub phis : List Phi
  pub insts : List Inst
  -- The successors of the terminator.
  pub succs : List ℕ

-- `fresh` is the address of the next block or value that is made.
pub record Function : Type 0 where
  pub blocks : List Block
  pub fresh : ℕ

abbrev pub at : ℕ → List Block → Option Block
at x [] = none
at x (b ∷ bs) = let rest = at x bs in if b.id == x then some b else rest

abbrev pub succs_at : Option Block → List ℕ
succs_at none = []
succs_at (some b) = b.succs

abbrev pub succs_of : Function → ℕ → List ℕ
succs_of f x = succs_at (at x f.blocks)

abbrev pub change : (Block → Block) → ℕ → List Block → List Block
change g x [] = []
change g x (b ∷ bs) = let rest = change g x bs in if b.id == x then g b ∷ bs else b ∷ rest

-- `reference_map`: the copies of blocks and of values.
pub record Refs : Type 0 where
  pub to_block : Map ℕ
  pub to_value : Map ℕ

abbrev pub ref_block : Refs → ℕ → ℕ
ref_block m x = lookup_or x x m.to_block

abbrev pub ref_value : Refs → ℕ → ℕ
ref_value m v = lookup_or v v m.to_value

-- The clones of the instructions of a block, numbered from `n`.
abbrev pub clone_phis : ℕ → List Phi → List Phi
clone_phis n [] = []
clone_phis n (p ∷ ps) = record p { id = n } ∷ clone_phis (suc n) ps

abbrev pub clone_insts : ℕ → List Inst → List Inst
clone_insts n [] = []
clone_insts n (i ∷ is) = record i { id = n } ∷ clone_insts (suc n) is

abbrev pub note_phis : ℕ → List Phi → Map ℕ → Map ℕ
note_phis n [] m = m
note_phis n (p ∷ ps) m = note_phis (suc n) ps (insert p.id n m)

abbrev pub note_insts : ℕ → List Inst → Map ℕ → Map ℕ
note_insts n [] m = m
note_insts n (i ∷ is) m = note_insts (suc n) is (insert i.id n m)

-- `getIncomingValueForBlock`: the first value that comes from the block; that there is one is an
-- assertion.
abbrev pub value_for : ℕ → Incoming → ℕ
value_for b [] = 0
value_for b (p ∷ ps) = let rest = value_for b ps in if p.1 == b then p.0 else rest

-- The PHIs of a successor outside the subgraph have an incoming value from the copy `n` of `b` too.
abbrev pub add_incoming : Refs → ℕ → ℕ → List Phi → List Phi
add_incoming m b n [] = []
add_incoming m b n (p ∷ ps) =
    record p { incoming = p.incoming ++ (ref_value m (value_for b p.incoming), n) ∷ [] }
    ∷ add_incoming m b n ps

abbrev pub join_outside : Refs → List ℕ → ℕ → ℕ → List ℕ → List Block → List Block
join_outside m graph b n [] bs = bs
join_outside m graph b n (s ∷ ss) bs =
    join_outside m graph b n ss (
      if elem s graph then bs else change (λ c. record c { phis = add_incoming m b n c.phis }) s bs)

pub record Copying : Type 0 where
  pub function : Function
  pub refs : Refs
  pub new_graph : List ℕ

-- The copy of the block `c`.
abbrev pub clone_block : ℕ → Block → Block
clone_block n c = record {
  id = n;
  phis = clone_phis (suc n) c.phis;
  insts = clone_insts (suc n + length c.phis) c.insts;
  succs = c.succs;
}

abbrev pub note_block : ℕ → Block → Refs → Refs
note_block n c m = record {
  to_block = insert c.id n m.to_block;
  to_value = note_insts (suc n + length c.phis) c.insts (note_phis (suc n) c.phis m.to_value);
}

-- The body of the loop of `ReplicateBasicBlocks`, for the block `c`.
abbrev pub replicate_block : List ℕ → Block → Copying → Copying
replicate_block graph c s =
    let n = s.function.fresh in
    let m = note_block n c s.refs in
    record {
      function = record {
        blocks = join_outside m graph c.id n c.succs (s.function.blocks ++ clone_block n c ∷ []);
        fresh = suc n + length c.phis + length c.insts;
      };
      refs = m;
      new_graph = s.new_graph ++ n ∷ [];
    }

abbrev pub replicate_at : List ℕ → Option Block → Copying → Copying
replicate_at graph none s = s
replicate_at graph (some c) s = replicate_block graph c s

unfoldable pub replicate_basic_blocks : List ℕ → List ℕ → Copying → Copying
replicate_basic_blocks graph [] s = s
replicate_basic_blocks graph (b ∷ bs) s =
    replicate_basic_blocks graph bs (replicate_at graph (at b s.function.blocks) s)

-- `RemapInstruction` on each instruction of a block: a PHI's blocks and a terminator's successors are
-- references too.
abbrev pub remap_incoming : Refs → Incoming → Incoming
remap_incoming m ps = map (λ p. (ref_value m p.0, ref_block m p.1)) ps

abbrev pub remap_phi : Refs → Phi → Phi
remap_phi m p = record p { incoming = remap_incoming m p.incoming }

abbrev pub remap_inst : Refs → Inst → Inst
remap_inst m i = record i { operands = map (ref_value m) i.operands }

abbrev pub remap : Refs → Block → Block
remap m b = record b {
  phis = map (remap_phi m) b.phis;
  insts = map (remap_inst m) b.insts;
  succs = map (ref_block m) b.succs;
}

unfoldable pub update_references : Refs → List ℕ → List Block → List Block
update_references m [] bs = bs
update_references m (x ∷ xs) bs = update_references m xs (change (remap m) x bs)

abbrev pub set_at : ℕ → ℕ → List ℕ → List ℕ
set_at i y [] = []
set_at zero y (x ∷ xs) = y ∷ xs
set_at (suc i) y (x ∷ xs) = x ∷ set_at i y xs

-- `setSuccessor(i, y)` of the terminator of the block `x`.
abbrev pub set_successor : ℕ → ℕ → ℕ → Function → Function
set_successor x i y f = record f {
  blocks = change (λ b. record b { succs = set_at i y b.succs }) x f.blocks;
}

-- What the recursion passes on: the function, the processed blocks, and whether it has changed.
pub record Replication : Type 0 where
  pub function : Function
  pub processed : List ℕ
  pub changed : Bool

module _ (dominates : Function → ℕ → ℕ → Bool) where
  -- `ReplicateSubgraph`: the function with the copy, and the copy of the entry.
  unfoldable pub replicate_subgraph : Function → ℕ → Function × ℕ
  unfolding find_subgraph replicate_basic_blocks update_references
  replicate_subgraph f entry =
      let graph = find_subgraph (dominates f) (succs_of f) (length f.blocks) [] entry in
      let s =
        replicate_basic_blocks graph graph (record {
          function = f;
          refs = record { to_block = []; to_value = [] };
          new_graph = [];
        }) in
      (
        record s.function { blocks = update_references s.refs s.new_graph s.function.blocks },
        ref_block s.refs entry,
      )

  abbrev pub replace_successor : ℕ → ℕ → ℕ → Replication → Replication
  unfolding replicate_subgraph
  replace_successor entry i b s =
      let (g, copy) = replicate_subgraph s.function b in
      record s { function = set_successor entry i copy g; changed = true }

  -- One successor of the loop of `ReplicateJoinedSubgraphs`; `rec` is the recursive call.
  abbrev pub join_successor :
      (ℕ → Replication → Replication) → ℕ → ℕ → ℕ → ℕ → Replication → Replication
  unfolding replace_successor
  join_successor rec dominator entry i b s =
      if elem b s.processed
      then s
      else if dominates s.function b entry
      then s
      else if dominates s.function dominator b
      then rec b s
      else replace_successor entry i b s

  abbrev pub join_loop : (ℕ → Replication → Replication) → ℕ → ℕ → ℕ → ℕ → Replication → Replication
  unfolding join_successor
  join_loop rec dominator entry i zero s = s
  join_loop rec dominator entry i (suc e) s =
      join_loop rec dominator entry (suc i) e
        (join_successor rec dominator entry i (get_or (succs_of s.function entry) i 0) s)

  -- The depth of the recursion takes fuel; where it ends the state stays.
  unfoldable pub replicate_joined_subgraphs : ℕ → ℕ → ℕ → Replication → Replication
  unfolding join_loop
  replicate_joined_subgraphs zero dominator entry s = s
  replicate_joined_subgraphs (suc n) dominator entry s =
      let t =
        join_loop (replicate_joined_subgraphs n dominator) dominator entry 0
          (length (succs_of s.function entry)) s in
      record t { processed = entry ∷ t.processed }

  abbrev pub barrier_in : Option Block → Bool
  barrier_in none = false
  barrier_in (some b) = any (λ i. i.barrier) b.insts

  -- The part of `FindBarriersDFS` before the loop: with a set of processed blocks of its own.
  abbrev pub replicate_behind : ℕ → ℕ → Replication → Replication
  unfolding replicate_joined_subgraphs
  replicate_behind n bb s =
      if barrier_in (at bb s.function.blocks)
      then (let t = replicate_joined_subgraphs n bb bb (record s { processed = [] }) in
          record t { processed = s.processed })
      else s

  abbrev pub find_loop : (ℕ → Replication → Replication) → ℕ → ℕ → ℕ → Replication → Replication
  find_loop rec bb i zero s = s
  find_loop rec bb i (suc e) s =
      find_loop rec bb (suc i) e (rec (get_or (succs_of s.function bb) i 0) s)

  unfoldable pub find_barriers_dfs : ℕ → ℕ → Replication → Replication
  unfolding replicate_behind
  find_barriers_dfs zero bb s = s
  find_barriers_dfs (suc n) bb s = elim (elem bb s.processed) [
    | true ↦ s
    | false ↦
        let t = replicate_behind n bb (record s { processed = bb ∷ s.processed }) in
        find_loop (find_barriers_dfs n) bb 0 (length (succs_of t.function bb)) t
  ]

  -- `ProcessFunction`.
  unfoldable pub process_function : ℕ → ℕ → Function → Function × Bool
  unfolding find_barriers_dfs
  process_function n entry f =
      let t =
        find_barriers_dfs n entry (record { function = f; processed = []; changed = false }) in
      (t.function, t.changed)

-- `CleanupPHIs` on the PHIs of a block. A PHI that is gone sends the loop to the first one again.
abbrev pub cleanup_fuel : Incoming → ℕ
cleanup_fuel ps = suc (length ps) * suc (length ps)

unfoldable pub cleanup_phis : (ℕ → List ℕ) → ℕ → ℕ → List Phi → List Phi → List Phi
unfolding cleanup_phi
cleanup_phis succs bb zero done todo = done ++ todo
cleanup_phis succs bb (suc n) done [] = done
cleanup_phis succs bb (suc n) done (p ∷ ps) =
    elim (cleanup_phi succs bb (cleanup_fuel p.incoming) 0 p.incoming) [
      | none ↦ cleanup_phis succs bb n [] (done ++ ps)
      | some q ↦ cleanup_phis succs bb n (done ++ record p { incoming = q } ∷ []) ps
    ]

abbrev pub cleanup_block : (ℕ → List ℕ) → Block → Block
unfolding cleanup_phis
cleanup_block succs b = record b {
  phis = cleanup_phis succs b.id (suc (length b.phis) * suc (length b.phis)) [] b.phis;
}

unfoldable pub run_on_function : (Function → ℕ → ℕ → Bool) → ℕ → ℕ → Function → Function
unfolding process_function cleanup_block
run_on_function dominates n entry f =
    let g = (process_function dominates n entry f).0 in
    record g { blocks = map (cleanup_block (succs_of g)) g.blocks }
