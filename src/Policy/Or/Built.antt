-- ===== src/Policy/Or/Built.antt =====
-- The loop in `computePolicyORData` ends, and what it has built then.
use secboot.Prelude.{
  ==_iff, ℕ, zero, suc, ◌+◌, ◌*◌, ◌^◌, ◌<◌, ◌≤◌, ◌≡◌, refl, ap, ◌∙◌, sym, ◌≢◌, ◌⊎◌, inl, inr, List,
  [], ◌∷◌, ◌++◌, some, true, false, Bool-cases, ◌==◌, length, get_elem?, take, drop, length-drop,
  get_elem?-append_length, get_elem?-lt, arith, take-length, nil_of_length,
}
use mathlib.Core.List.{append-nil}
use native.Mathlib.Decide.{ℕ_discrete}
use mathlib.Core.Option.{some-injective}
use secboot.Exec.{ok}
use secboot.Tpm.{Alg, Digest, TrialPolicies}
use secboot.Policy.Or.{
  PolicyOrDataNode, PolicyOrDataTree, OrState, chunk, append_node, consume, close_level,
  node_digest, or_loop, leaf_end, is_root, or_start, compute_policy_or_data,
  ensure_sufficient_or_digests,
}
use secboot.Policy.Or.Invariant.{
  IsLinked, new_node, length-produced, length-append_node, parents-append, chunk-cases, chunk-pos,
  chunk-le,
}
use secboot.Policy.Or.Rounds.{consume-IsLinked}
use secboot.Policy.Or.Leaves.{
  node_digests, AllOrLists, HasLeaves, append_node-sized, making-append, made-append,
  consume-HasLeaves,
}

-- What falls with every round.
abbrev pub work_left : OrState → ℕ
work_left s = length s.digests + 2 * length s.next_digests

leaf_end-next :
    (nodes : PolicyOrDataTree) {leaf : PolicyOrDataNode}
    → get_elem? nodes 0 ≡ some leaf
    → 0 < leaf.next
    → leaf_end nodes ≡ leaf.next
leaf_end-next [] h up = absurd (ground arith)
leaf_end-next (x ∷ rest) h up = ground arith

leaf_end-root :
    (nodes : PolicyOrDataTree) {root : PolicyOrDataNode}
    → get_elem? nodes 0 ≡ some root
    → root.next ≡ 0
    → leaf_end nodes ≡ 1
leaf_end-root [] h e = absurd (ground arith)
leaf_end-root (x ∷ rest) h e = ground arith

module _ (t : TrialPolicies) (alg : Alg) where
  -- A node's offset leads to a later node that holds the digest of the node's own assertion.
  abbrev pub PointsUp : PolicyOrDataTree → ℕ → Type 0
  PointsUp nodes i =
      (node : PolicyOrDataNode) × (target : PolicyOrDataNode) × (k : ℕ) × (get_elem? nodes i
        ≡ some node)
      × (0 < node.next)
      × (get_elem? nodes (i + node.next) ≡ some target)
      × (get_elem? target.digests k ≡ some (node_digest t alg node.digests))

  -- The tree over the conditions `all`, with the last node as its root.
  pub record IsOrTree (all : List Digest) (nodes : PolicyOrDataTree) (digests : List Digest)
      : Type 0 where
    pub last : ℕ
    pub counted : length nodes ≡ suc last
    pub root : get_elem? nodes last ≡ some (record { next = 0; digests = digests })
    pub parents : (i : ℕ) → i < last → PointsUp nodes i
    pub leaves : node_digests (take (leaf_end nodes) nodes) ≡ all
    pub leaves_fit : leaf_end nodes ≤ length nodes
    pub sized : AllOrLists nodes

  -- A round that is not the last one leaves digests to consume, or a level to build.
  not_root :
      (s : OrState)
      → is_root s ≡ false
      → (chunk s.digests ≢ length s.digests) ⊎ (0 < length s.next_digests)
  not_root s h = ground arith

  at_root :
      (s : OrState)
      → is_root s ≡ true
      → (chunk s.digests ≡ length s.digests) × (length s.next_digests ≡ 0)
  at_root s h = ground arith

  consume-work_left :
      (s : OrState)
      → IsLinked t alg s
      → is_root s ≡ false
      → work_left (consume t alg (append_node s)) < work_left s
  unfolding consume close_level
  consume-work_left s v h = elim (Bool-cases (length (drop (chunk s.digests) s.digests) == 0)) [
    | inl e ↦ rw e (
        omega (
          arith,
          length-produced t alg s,
          not_root s h,
          length-drop (chunk s.digests) s.digests,
          v.more,
          (==_iff (length (drop (chunk s.digests) s.digests)) 0).0 e,
          chunk-le s.digests,
        ))
    | inr e ↦ rw e (
        omega (
          arith,
          length-produced t alg s,
          length-drop (chunk s.digests) s.digests,
          chunk-cases s.digests,
          chunk-pos s.digests,
          v.more,
          left_over s e,
        ))
  ]
    where
      left_over :
          (s : OrState)
          → (length (drop (chunk s.digests) s.digests) == 0) ≡ false
          → 0 < length (drop (chunk s.digests) s.digests)
      left_over s e = ground arith

  finish-PointsUp :
      (s : OrState)
      → IsLinked t alg s
      → length (drop (chunk s.digests) s.digests) ≡ 0
      → (i : ℕ) → i < s.cur_node
      → PointsUp (append_node s).nodes i
  finish-PointsUp s v none_left i h =
      let (node, at, up, feeds) = parents-append t alg s v i h in
      elim feeds [
        | inl (target, k, place, has) ↦ (node, target, k, at, up, place, has)
        | inr (k, place, has) ↦ absurd (omega (arith, get_elem?-lt _ k has))
      ]

  finish-leaves :
      (all : List Digest) (s : OrState)
      → IsLinked t alg s
      → HasLeaves all s
      → is_root s ≡ true
      → (node_digests (take (leaf_end (append_node s).nodes) (append_node s).nodes) ≡ all)
        × (leaf_end (append_node s).nodes ≤ length (append_node s).nodes)
  finish-leaves all s v w h = elim (ℕ_discrete s.cur_node 0) [
    | yes single ↦
        let only : leaf_end nodes ≡ 1 =
          leaf_end-root nodes
            (ap (get_elem? nodes) (omega (arith, v.counted, at_root s h))
              ∙ get_elem?-append_length s.nodes (new_node t alg s) [])
            refl in
        (
          ap (λ n. node_digests (take n nodes)) only
              ∙ ap node_digests (take-length 1 nodes (omega (arith, len, v.counted, at_root s h)))
              ∙ sym (append-nil (node_digests nodes))
              ∙ ap (λ l. node_digests nodes ++ l) (sym (nil_of_length _ none_left))
              ∙ making-append t alg all s v w single,
          omega (arith, only, len),
        )
    | no more ↦
        let (leaf, at, up, below, leaves) = made-append t alg all s v w (omega arith) in
        let end : leaf_end nodes ≡ leaf.next = leaf_end-next nodes at up in
        (ap (λ n. node_digests (take n nodes)) end ∙ leaves, omega (arith, end, len, v.counted))
  ]
    where
      nodes : PolicyOrDataTree
      nodes = (append_node s).nodes

      len : length nodes ≡ suc (length s.nodes)
      len = length-append_node t alg s

      none_left : length (drop (chunk s.digests) s.digests) ≡ 0
      none_left = omega (arith, length-drop (chunk s.digests) s.digests, at_root s h)

  finish-IsOrTree :
      (all : List Digest) (s : OrState)
      → IsLinked t alg s
      → HasLeaves all s
      → is_root s ≡ true
      → IsOrTree all (append_node s).nodes s.digests
  finish-IsOrTree all s v w h = record {
    last = s.cur_node;
    counted = omega (arith, length-append_node t alg s, v.counted, at_root s h);
    root =
        ap (get_elem? (append_node s).nodes) (omega (arith, v.counted, at_root s h))
        ∙ get_elem?-append_length s.nodes (new_node t alg s) []
        ∙ ap (λ l. some (record { next = 0; digests = l }))
            (take-length (chunk s.digests) s.digests (omega (arith, at_root s h)));
    parents =
        finish-PointsUp s v (omega (arith, length-drop (chunk s.digests) s.digests, at_root s h));
    leaves = (finish-leaves all s v w h).0;
    leaves_fit = (finish-leaves all s v w h).1;
    sized = append_node-sized t alg all s v w;
  }

  -- With enough fuel the loop reaches its `break`, with a whole tree.
  or_loop-IsOrTree :
      (fuel : ℕ) (all : List Digest) (s : OrState)
      → IsLinked t alg s
      → HasLeaves all s
      → work_left s < fuel
      → (end : OrState) × (or_loop t alg fuel s ≡ ok end) × IsOrTree all end.nodes end.digests
  unfolding or_loop
  or_loop-IsOrTree zero all s v w h = absurd (omega arith)
  or_loop-IsOrTree (suc fuel) all s v w h = elim (Bool-cases (is_root s)) [
    | inl e ↦ (append_node s, rw e refl, finish-IsOrTree all s v w e)
    | inr e ↦
        let (end, runs, tree) =
          or_loop-IsOrTree fuel all (consume t alg (append_node s)) (consume-IsLinked t alg s v)
            (consume-HasLeaves t alg all s v w) (omega (arith, consume-work_left s v e)) in
        (end, rw e runs, tree)
  ]

  start-IsLinked :
      (digests : List Digest)
      → 0 < length digests
      → length digests < 2 ^ 32
      → IsLinked t alg (or_start t alg digests)
  start-IsLinked digests h fits = record {
    counted = omega arith;
    parents = λ i b. absurd (omega arith);
    level = λ i b. absurd (omega arith);
    more = h;
    fits = omega arith;
  }

  -- For 1 to 2^32 - 1 conditions `computePolicyORData` returns a tree and a trial policy. The tree's
  -- nodes have one to eight digests; its leaves list the conditions in order; the offset of each
  -- node but the last leads to a later node with the digest of the node's assertion; the last node
  -- is the root, with no offset, and the trial policy is the one after an assertion of its digests.
  pub compute_policy_or_data-IsOrTree :
      (trial : t.Trial) (digests : List Digest)
      → 0 < length digests
      → length digests < 2 ^ 32
      → (nodes : PolicyOrDataTree) × (root : List Digest) × (compute_policy_or_data t alg trial
            digests
          ≡ ok (nodes, t.policy_or trial (ensure_sufficient_or_digests root)))
        × IsOrTree digests nodes root
  unfolding compute_policy_or_data
  compute_policy_or_data-IsOrTree trial digests h fits =
      let (end, runs, tree) =
        or_loop-IsOrTree (suc (length digests)) digests (or_start t alg digests)
          (start-IsLinked digests h fits)
          (record { making = λ _. refl; made = λ b. absurd (omega arith); sized = tt })
          (omega arith) in
      (end.nodes, end.digests, rw runs refl, tree)

module _ (t : TrialPolicies) (alg : Alg) {all root : List Digest} {nodes : PolicyOrDataTree}
    (tree : IsOrTree t alg all nodes root) where
  -- The parent of a node before the last.
  pub parent_of :
      (i : ℕ) (node : PolicyOrDataNode)
      → get_elem? nodes i ≡ some node
      → i < tree.last
      → (target : PolicyOrDataNode) × (k : ℕ) × (0 < node.next)
        × (get_elem? nodes (i + node.next) ≡ some target)
        × (get_elem? target.digests k ≡ some (node_digest t alg node.digests))
  parent_of i node at below =
      let (node', target, k, at', up, above, holds) = tree.parents i below in
      let same : node' ≡ node = some-injective _ _ (sym at' ∙ at) in
      (
        target,
        k,
        omega (arith, ap (λ (n : PolicyOrDataNode). n.next) same),
        ap (λ (n : PolicyOrDataNode). get_elem? nodes (i + n.next)) (sym same) ∙ above,
        holds ∙ ap (λ (n : PolicyOrDataNode). some (node_digest t alg n.digests)) same,
      )

  -- Any other node is the root.
  pub root_of :
      (i : ℕ) (node : PolicyOrDataNode)
      → get_elem? nodes i ≡ some node
      → tree.last ≤ i
      → (node.next ≡ 0) × (node.digests ≡ root)
  root_of i node at above =
      let place : i ≡ tree.last = omega (arith, get_elem?-lt nodes i at, tree.counted) in
      let same : node ≡ record { next = 0; digests = root } =
        some-injective _ _ (sym at ∙ ap (get_elem? nodes) place ∙ tree.root) in
      (ap (λ (n : PolicyOrDataNode). n.next) same, ap (λ (n : PolicyOrDataNode). n.digests) same)
