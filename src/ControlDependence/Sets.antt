-- ===== src/ControlDependence/Sets.antt =====
-- What the search leaves in the two maps.
use vari_ocl.Base.{
  ℕ, ◌≡◌, refl, true, false, List, [], ◌∷◌, ◌++◌, arith, Bool, none, elem, length, any, not, ltb,
  Map, lookup, lookup_or, is_some, if◌then◌else◌, ◌&&◌, ◌||◌, ◌==◌, lookup-insert, elem-append,
  ==_iff, leb, Bool-cases, inl, inr,
}
use vari_ocl.ControlDependence.{
  Dependences, init, insert_empty, insert_at, initialize, consider, search_from, search,
  run_on_function, get_output_dependence, get_input_dependence,
}

elem-insert_at :
    (k v j w : ℕ) (m : Map (List ℕ))
    → elem w (lookup_or [] j (insert_at k v m)) ≡ (elem w (lookup_or [] j m) || k == j && w == v)
elem-insert_at k v j w m =
    let s = lookup_or [] k m in
    ground (
      arith,
      lookup-insert k j (if elem v s then s else s ++ v ∷ []) m,
      elem-append w s (v ∷ []),
      ==_iff w v,
      ==_iff k j,
    )

elem-insert_empty :
    (bb j w : ℕ) (m : Map (List ℕ))
    → elem w (lookup_or [] j (insert_empty bb m)) ≡ elem w (lookup_or [] j m)
elem-insert_empty bb j w m = ground (arith, lookup-insert bb j (lookup_or [] bb m) m, ==_iff bb j)

-- The members of the two sets of a block.
abbrev pub outputs : Dependences → ℕ → ℕ → Bool
outputs d s1 s2 = elem s2 (lookup_or [] s1 d.output)

abbrev pub inputs : Dependences → ℕ → ℕ → Bool
inputs d s2 s1 = elem s1 (lookup_or [] s2 d.input)

-- A key that the maps have.
abbrev pub has_output : ℕ → Dependences → Bool
has_output bb d = is_some (lookup bb d.output)

abbrev pub has_input : ℕ → Dependences → Bool
has_input bb d = is_some (lookup bb d.input)

-- Keys are never taken away.
abbrev Keeps : Dependences → Dependences → ℕ → Type 0
Keeps d e bb =
    (has_output bb d ≡ true → has_output bb e ≡ true)
    × (has_input bb d ≡ true → has_input bb e ≡ true)

initialize-kept : (blocks : List ℕ) (d : Dependences) (bb : ℕ) → Keeps d (initialize blocks d) bb
unfolding initialize
initialize-kept [] d bb = (λ h. h, λ h. h)
initialize-kept (b ∷ bbs) d bb =
    let d' : Dependences = record {
      input = insert_empty b d.input;
      output = insert_empty b d.output;
    } in
    let next = initialize-kept bbs d' bb in
    (
      λ h. next.0 (ground (arith, lookup-insert b bb (lookup_or [] b d.output) d.output)),
      λ h. next.1 (ground (arith, lookup-insert b bb (lookup_or [] b d.input) d.input)),
    )

module _ (dominates : ℕ → ℕ → Bool) (succs : ℕ → List ℕ) where
  -- `s1` has two successors, `s2` post-dominates one of them, and does not post-dominate `s1`.
  pub depends : ℕ → ℕ → Bool
  depends s1 s2 =
      leb 2 (length (succs s1)) && (not (dominates s2 s1) && any (dominates s2) (succs s1))

  consider_lem :
      (s1 s2 a b : ℕ) (d : Dependences)
      → (outputs (consider dominates succs s1 s2 d) a b ≡ (
          outputs d a b
          || s1 == a && b == s2 && (not (dominates s2 s1) && any (dominates s2) (succs s1))))
        × (inputs (consider dominates succs s1 s2 d) b a ≡ (
            inputs d b a
            || s1 == a && b == s2 && (not (dominates s2 s1) && any (dominates s2) (succs s1))))
  unfolding consider
  consider_lem s1 s2 a b d = (
    ground (arith, elem-insert_at s1 s2 a b d.output),
    ground (arith, elem-insert_at s2 s1 b a d.input),
  )

  search_from_lem :
      (s1 a b : ℕ) (bbs : List ℕ) (d : Dependences)
      → (outputs (search_from dominates succs s1 bbs d) a b ≡ (
          outputs d a b
          || s1 == a && elem b bbs && (not (dominates b s1) && any (dominates b) (succs s1))))
        × (inputs (search_from dominates succs s1 bbs d) b a ≡ (
            inputs d b a
            || s1 == a && elem b bbs && (not (dominates b s1) && any (dominates b) (succs s1))))
  unfolding search_from
  search_from_lem s1 a b [] d = (ground arith, ground arith)
  search_from_lem s1 a b (s2 ∷ bbs) d =
      let next = search_from_lem s1 a b bbs (consider dominates succs s1 s2 d) in
      let here = consider_lem s1 s2 a b d in
      elim (Bool-cases (b == s2)) [
        | inl e ↦
            let same = (==_iff b s2).0 e in
            (ground (arith, next.0, here.0, same), ground (arith, next.1, here.1, same))
        | inr e ↦ (ground (arith, next.0, here.0), ground (arith, next.1, here.1))
      ]

  search_lem :
      (blocks rest : List ℕ) (a b : ℕ) (d : Dependences)
      → (outputs (search dominates succs blocks rest d) a b
          ≡ (outputs d a b || elem a rest && elem b blocks && depends a b))
        × (inputs (search dominates succs blocks rest d) b a
            ≡ (inputs d b a || elem a rest && elem b blocks && depends a b))
  unfolding search depends
  search_lem blocks [] a b d = (ground arith, ground arith)
  search_lem blocks (s1 ∷ rest) a b d =
      let d' = if ltb (length (succs s1)) 2 then d else search_from dominates succs s1 blocks d in
      let next = search_lem blocks rest a b d' in
      let here = search_from_lem s1 a b blocks d in
      elim (Bool-cases (a == s1)) [
        | inl e ↦
            let same = (==_iff a s1).0 e in
            (ground (arith, next.0, here.0, same), ground (arith, next.1, here.1, same))
        | inr e ↦ (ground (arith, next.0, here.0), ground (arith, next.1, here.1))
      ]

  initialize_lem :
      (blocks : List ℕ) (a b : ℕ) (d : Dependences)
      → (outputs (initialize blocks d) a b ≡ outputs d a b)
        × (inputs (initialize blocks d) b a ≡ inputs d b a)
  unfolding initialize
  initialize_lem [] a b d = (refl, refl)
  initialize_lem (bb ∷ bbs) a b d =
      let next =
        initialize_lem bbs a b
          (record { input = insert_empty bb d.input; output = insert_empty bb d.output }) in
      (
        ground (arith, next.0, elem-insert_empty bb a b d.output),
        ground (arith, next.1, elem-insert_empty bb b a d.input),
      )

  -- After a run on a fresh analysis, the output set of `a` holds `b`, and the input set of `b` holds
  -- `a`, exactly if both are blocks of the function, `a` has at least two successors, `b`
  -- post-dominates one of them and `b` does not post-dominate `a`.
  pub run_on_function_correct :
      (blocks : List ℕ) (a b : ℕ)
      → (outputs (run_on_function dominates succs blocks init) a b
          ≡ (elem a blocks && elem b blocks && depends a b))
        × (inputs (run_on_function dominates succs blocks init) b a
            ≡ (elem a blocks && elem b blocks && depends a b))
  unfolding run_on_function
  run_on_function_correct blocks a b =
      let s = search_lem blocks blocks a b (initialize blocks init) in
      let i = initialize_lem blocks a b init in (ground (arith, s.0, i.0), ground (arith, s.1, i.1))

  -- A run from any state keeps the two maps mirror images of one another.
  pub run_on_function-mirror :
      (blocks : List ℕ) (d : Dependences)
      → ((a b : ℕ) → outputs d a b ≡ inputs d b a)
      → (a b : ℕ)
      → outputs (run_on_function dominates succs blocks d) a b
        ≡ inputs (run_on_function dominates succs blocks d) b a
  unfolding run_on_function
  run_on_function-mirror blocks d h a b =
      let s = search_lem blocks blocks a b (initialize blocks d) in
      let i = initialize_lem blocks a b d in ground (arith, s.0, s.1, i.0, i.1, h a b)

  -- Where every block post-dominates itself, no block is control dependent on itself: the test is
  -- not for strict post-dominance.
  pub run_on_function_irrefl :
      (blocks : List ℕ) (a : ℕ)
      → dominates a a ≡ true
      → outputs (run_on_function dominates succs blocks init) a a ≡ false
  unfolding depends
  run_on_function_irrefl blocks a h = ground (arith, (run_on_function_correct blocks a a).0)

  initialize-keys :
      (blocks : List ℕ) (d : Dependences) (bb : ℕ)
      → elem bb blocks ≡ true
      → (is_some (lookup bb (initialize blocks d).output) ≡ true)
        × (is_some (lookup bb (initialize blocks d).input) ≡ true)
  unfolding initialize
  initialize-keys [] d bb h = cc
  initialize-keys (b ∷ bbs) d bb h =
      let d' : Dependences = record {
        input = insert_empty b d.input;
        output = insert_empty b d.output;
      } in
      let kept = initialize-kept bbs d' bb in
      elim (Bool-cases (elem bb bbs)) [
        | inl m ↦ initialize-keys bbs d' bb m
        | inr m ↦ (
          kept.0
              (ground (arith, lookup-insert b bb (lookup_or [] b d.output) d.output, ==_iff bb b)),
          kept.1 (ground (arith, lookup-insert b bb (lookup_or [] b d.input) d.input, ==_iff bb b)),
        )
      ]

  consider-kept :
      (s1 s2 : ℕ) (d : Dependences) (bb : ℕ) → Keeps d (consider dominates succs s1 s2 d) bb
  unfolding consider
  consider-kept s1 s2 d bb =
      let out = lookup_or [] s1 d.output in
      let inp = lookup_or [] s2 d.input in
      (
        λ h.
            ground
              (arith, lookup-insert s1 bb (if elem s2 out then out else out ++ s2 ∷ []) d.output),
        λ h.
            ground
              (arith, lookup-insert s2 bb (if elem s1 inp then inp else inp ++ s1 ∷ []) d.input),
      )

  search_from-kept :
      (s1 : ℕ) (bbs : List ℕ) (d : Dependences) (bb : ℕ)
      → Keeps d (search_from dominates succs s1 bbs d) bb
  unfolding search_from
  search_from-kept s1 [] d bb = (λ h. h, λ h. h)
  search_from-kept s1 (s2 ∷ bbs) d bb =
      let here = consider-kept s1 s2 d bb in
      let next = search_from-kept s1 bbs (consider dominates succs s1 s2 d) bb in
      (λ h. next.0 (here.0 h), λ h. next.1 (here.1 h))

  search-kept :
      (blocks rest : List ℕ) (d : Dependences) (bb : ℕ)
      → Keeps d (search dominates succs blocks rest d) bb
  unfolding search
  search-kept blocks [] d bb = (λ h. h, λ h. h)
  search-kept blocks (s1 ∷ rest) d bb =
      let d' = if ltb (length (succs s1)) 2 then d else search_from dominates succs s1 blocks d in
      let here = search_from-kept s1 blocks d bb in
      let next = search-kept blocks rest d' bb in
      (λ h. next.0 (ground (arith, here.0 h)), λ h. next.1 (ground (arith, here.1 h)))

  -- After a run from any state both queries answer, and never with NULL, for every block of the
  -- function, the output query at a terminator; at any other instruction it answers NULL.
  pub queries_answer :
      (blocks : List ℕ) (d : Dependences) (bb : ℕ)
      → elem bb blocks ≡ true
      → (is_some (get_output_dependence true bb (run_on_function dominates succs blocks d)) ≡ true)
        × (is_some (get_input_dependence bb (run_on_function dominates succs blocks d)) ≡ true)
        × (get_output_dependence false bb (run_on_function dominates succs blocks d) ≡ none)
  unfolding run_on_function get_output_dependence get_input_dependence
  queries_answer blocks d bb m =
      let start = initialize-keys blocks d bb m in
      let kept = search-kept blocks blocks (initialize blocks d) bb in
      (kept.0 start.0, kept.1 start.1, refl)
