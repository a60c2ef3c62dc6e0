-- ===== src/Policy/Or/Leaves.antt =====
-- The leaves of the tree that `computePolicyORData` builds, and the sizes of its nodes.
use secboot.Prelude.{
  ℕ, zero, suc, ◌+◌, ◌^◌, ◌<◌, ◌≤◌, ◌≡◌, refl, ap, ◌∙◌, sym, inl, inr, List, [], ◌∷◌, ◌++◌, some,
  Bool-cases, ◌==◌, length, get_elem?, take, drop, length-take, get_elem?-append_left, get_elem?-lt,
  arith, take-append-drop, take-append_left, take-length, nil_of_length,
}
use mathlib.Core.List.{append_assoc, append-nil}
use native.Mathlib.Decide.{ℕ_discrete}
use mathlib.Core.Path.{subst}
use secboot.Tpm.{Alg, Digest, TrialPolicies}
use secboot.Policy.Or.{
  PolicyOrDataNode, PolicyOrDataTree, OrState, chunk, append_node, consume, close_level, link_level,
  set_next, parent_offset,
}
use secboot.Policy.Or.Links.{get_elem?-link_level_out, get_elem?-link_level_in}
use secboot.Policy.Or.Invariant.{
  IsLinked, new_node, produced, length-produced, length-append_node, level-append, chunk-pos,
  chunk-le,
}

-- The digests of some nodes, one node after the other.
abbrev pub node_digests : PolicyOrDataTree → List Digest
node_digests [] = []
node_digests (node ∷ rest) = node.digests ++ node_digests rest

-- One to eight digests, as TPM2_PolicyOR takes them once a single one is doubled.
abbrev pub IsOrList : List Digest → Type 0
IsOrList digests = (0 < length digests) × (length digests ≤ 8)

abbrev pub AllOrLists : PolicyOrDataTree → Type 0
AllOrLists [] = Unit
AllOrLists (node ∷ rest) = IsOrList node.digests × AllOrLists rest

pub AllOrLists-get_elem? :
    (nodes : PolicyOrDataTree) (i : ℕ) {node : PolicyOrDataNode}
    → AllOrLists nodes
    → get_elem? nodes i ≡ some node
    → IsOrList node.digests
AllOrLists-get_elem? [] i h e = absurd (ground arith)
AllOrLists-get_elem? (x ∷ rest) zero {node} h e =
    let p : x ≡ node = ground arith in subst {A = PolicyOrDataNode} (λ n. IsOrList n.digests) p h.0
AllOrLists-get_elem? (x ∷ rest) (suc i) h e = AllOrLists-get_elem? rest i h.1 e

AllOrLists-append :
    (nodes : PolicyOrDataTree) (node : PolicyOrDataNode)
    → AllOrLists nodes
    → IsOrList node.digests
    → AllOrLists (nodes ++ node ∷ [])
AllOrLists-append [] node h new = (new, tt)
AllOrLists-append (x ∷ rest) node h new = (h.0, AllOrLists-append rest node h.1 new)

AllOrLists-set_next :
    (nodes : PolicyOrDataTree) (j next : ℕ) → AllOrLists nodes → AllOrLists (set_next nodes j next)
unfolding set_next
AllOrLists-set_next [] j next h = h
AllOrLists-set_next (x ∷ rest) zero next h = h
AllOrLists-set_next (x ∷ rest) (suc j) next h = (h.0, AllOrLists-set_next rest j next h.1)

AllOrLists-link_level :
    (rounds i n cur : ℕ) (nodes : PolicyOrDataTree)
    → AllOrLists nodes
    → AllOrLists (link_level rounds i n cur nodes)
unfolding link_level
AllOrLists-link_level zero i n cur nodes h = h
AllOrLists-link_level (suc rounds) i n cur nodes h =
    AllOrLists-link_level rounds (suc i) n cur _ (AllOrLists-set_next nodes _ _ h)

node_digests-append :
    (xs ys : PolicyOrDataTree) → node_digests (xs ++ ys) ≡ node_digests xs ++ node_digests ys
node_digests-append [] ys = refl
node_digests-append (x ∷ xs) ys =
    ap (λ l. x.digests ++ l) (node_digests-append xs ys)
    ∙ sym (append_assoc x.digests (node_digests xs) (node_digests ys))

node_digests-set_next :
    (n : ℕ) (nodes : PolicyOrDataTree) (j next : ℕ)
    → node_digests (take n (set_next nodes j next)) ≡ node_digests (take n nodes)
unfolding set_next
node_digests-set_next n [] j next = refl
node_digests-set_next zero (x ∷ rest) j next = refl
node_digests-set_next (suc n) (x ∷ rest) zero next = refl
node_digests-set_next (suc n) (x ∷ rest) (suc j) next =
    ap (λ l. x.digests ++ l) (node_digests-set_next n rest j next)

node_digests-link_level :
    (m rounds i n cur : ℕ) (nodes : PolicyOrDataTree)
    → node_digests (take m (link_level rounds i n cur nodes)) ≡ node_digests (take m nodes)
unfolding link_level
node_digests-link_level m zero i n cur nodes = refl
node_digests-link_level m (suc rounds) i n cur nodes =
    node_digests-link_level m rounds (suc i) n cur _ ∙ node_digests-set_next m nodes _ _

-- The first node, which points behind the last leaf.
abbrev pub LeavesUpTo : PolicyOrDataTree → List Digest → ℕ → Type 0
LeavesUpTo nodes all cur =
    (leaf : PolicyOrDataNode) × (get_elem? nodes 0 ≡ some leaf)
    × (0 < leaf.next)
    × (leaf.next ≤ cur)
    × (node_digests (take leaf.next nodes) ≡ all)

-- While the leaves are made, they and the digests left are the input; later the first node
-- tells how many leaves there are.
pub record HasLeaves (all : List Digest) (s : OrState) : Type 0 where
  pub making : s.cur_node ≡ 0 → node_digests s.nodes ++ s.digests ≡ all
  pub made : 0 < s.cur_node → LeavesUpTo s.nodes all s.cur_node
  pub sized : AllOrLists s.nodes

module _ (t : TrialPolicies) (alg : Alg) (all : List Digest) (s : OrState) (v : IsLinked t alg s)
    (w : HasLeaves all s) where
  pub append_node-sized : AllOrLists (append_node s).nodes
  append_node-sized = AllOrLists-append s.nodes (new_node t alg s) w.sized (
      omega (
        arith,
        length-take (chunk s.digests) s.digests,
        chunk-pos s.digests,
        v.more,
        chunk-le s.digests,
      ))

  pub making-append :
      s.cur_node ≡ 0 → node_digests (append_node s).nodes ++ drop (chunk s.digests) s.digests ≡ all
  making-append e =
      rw (node_digests-append, append-nil, append_assoc, take-append-drop) (w.making e)

  pub made-append : 0 < s.cur_node → LeavesUpTo (append_node s).nodes all s.cur_node
  made-append h =
      let (leaf, at, up, below, leaves) = w.made h in
      (
        leaf,
        get_elem?-append_left s.nodes _ 0 (get_elem?-lt s.nodes 0 at) ∙ at,
        up,
        below,
        ap node_digests (take-append_left leaf.next s.nodes _ (omega (arith, v.counted))) ∙ leaves,
      )

  close_level-HasLeaves :
      length (drop (chunk s.digests) s.digests) ≡ 0
      → HasLeaves all (close_level (append_node s) (produced t alg s))
  unfolding close_level
  close_level-HasLeaves none_left = record {
    making = λ e. absurd (omega (arith, length-produced t alg s));
    made = λ _. elim (ℕ_discrete s.cur_node 0) [
      | yes first ↦
          let (node, at, _) = level-append t alg s v 0 (omega (arith, length-produced t alg s)) in
          (
            record node { next = parent_offset r 0 },
            ap (get_elem? (link_level r 0 r s.cur_node nodes)) (omega arith)
                ∙ get_elem?-link_level_in r 0 r s.cur_node nodes 0 (omega arith)
                    (omega (arith, some_new)) at,
            omega (arith, some_new, below),
            omega (arith, some_new, below),
            node_digests-link_level (parent_offset r 0) r 0 r s.cur_node nodes
                ∙ ap node_digests
                    (take-length (parent_offset r 0) nodes (omega (arith, below, total)))
                ∙ sym (append-nil (node_digests nodes))
                ∙ ap (λ l. node_digests nodes ++ l) (sym (nil_of_length _ none_left))
                ∙ making-append first,
          )
      | no later ↦
          let (leaf, at, up, before, leaves) = made-append (omega arith) in
          (
            leaf,
            get_elem?-link_level_out r 0 r s.cur_node nodes 0 (inl (omega arith)) ∙ at,
            up,
            omega arith,
            node_digests-link_level leaf.next r 0 r s.cur_node nodes ∙ leaves,
          )
    ];
    sized = AllOrLists-link_level r 0 r s.cur_node nodes append_node-sized;
  }
    where
      r : ℕ
      r = length (produced t alg s)

      nodes : PolicyOrDataTree
      nodes = (append_node s).nodes

      some_new : 0 < r
      some_new = omega (arith, length-produced t alg s)

      below : r < 2 ^ 32
      below = omega (arith, v.fits, v.more, length-produced t alg s)

      total : length nodes ≡ s.cur_node + r
      total = omega (arith, v.counted, length-append_node t alg s, length-produced t alg s)

  pub consume-HasLeaves : HasLeaves all (consume t alg (append_node s))
  unfolding consume
  consume-HasLeaves = elim (Bool-cases (length (drop (chunk s.digests) s.digests) == 0)) [
    | inl e ↦ rw e (close_level-HasLeaves (ground arith))
    | inr e ↦
        rw e (record { making = making-append; made = made-append; sized = append_node-sized })
  ]
