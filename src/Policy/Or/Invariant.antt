-- ===== src/Policy/Or/Invariant.antt =====
-- What holds at the head of every round of the loop in `computePolicyORData`: each node of a
-- finished level points to a node, made or still to be made, that holds the node's digest.
use secboot.Prelude.{
  ℕ, suc, ◌+◌, ◌-◌, ◌*◌, ◌/◌, ◌^◌, ◌<◌, ◌≤◌, ◌≡◌, ap, ◌∙◌, ◌⊎◌, inl, inr, List, [], ◌∷◌, ◌++◌, some,
  length, get_elem?, take, drop, length-append, get_elem?-append_left, get_elem?-append_length,
  get_elem?-drop, get_elem?-take, get_elem?-lt, arith,
}
use native.Mathlib.Decide.{dec_lt}
use mathlib.Core.Path.{subst}
use secboot.Tpm.{Alg, Digest, TrialPolicies}
use secboot.Policy.Or.{PolicyOrDataNode, PolicyOrDataTree, OrState, chunk, append_node, node_digest}

pub chunk-le : (ds : List Digest) → (chunk ds ≤ 8) × (chunk ds ≤ length ds)
chunk-le ds = ground arith

-- A chunk is all that there is, or has eight digests.
pub chunk-cases : (ds : List Digest) → (chunk ds ≡ length ds) ⊎ (chunk ds ≡ 8)
chunk-cases ds = ground arith

pub chunk-pos : (ds : List Digest) → 0 < length ds → 0 < chunk ds
chunk-pos ds h = ground arith

-- `d` is a digest of node `p`, or will be one when the pending digests are cut into nodes.
abbrev pub Feeds : PolicyOrDataTree → List Digest → ℕ → Digest → Type 0
Feeds nodes pending p d =
    ((target : PolicyOrDataNode) × (k : ℕ) × (get_elem? nodes p ≡ some target)
      × (get_elem? target.digests k ≡ some d))
    ⊎ ((k : ℕ) × (p ≡ length nodes + k / 8) × (get_elem? pending k ≡ some d))

-- Cutting the next node off the pending digests keeps what feeds what.
Feeds-append :
    (nodes : PolicyOrDataTree) (pending : List Digest) (p : ℕ) (d : Digest)
    → Feeds nodes pending p d
    → Feeds
        (nodes ++ record { next = 0; digests = take (chunk pending) pending } ∷ [])
        (drop (chunk pending) pending)
        p
        d
Feeds-append nodes pending p d (inl (target, k, at, has)) =
    inl (target, k, get_elem?-append_left nodes _ p (get_elem?-lt nodes p at) ∙ at, has)
Feeds-append nodes pending p d (inr (k, at, has)) = elim (dec_lt k (chunk pending)) [
  | yes small ↦ inl (
    record { next = 0; digests = take (chunk pending) pending },
    k,
    subst
        (λ q.
          get_elem? (nodes ++ record { next = 0; digests = take (chunk pending) pending } ∷ []) q
          ≡ some (record { next = 0; digests = take (chunk pending) pending }))
        (omega (arith, chunk-le pending)) (get_elem?-append_length nodes _ []),
    get_elem?-take (chunk pending) pending k small ∙ has,
  )
  | no large ↦
      let full : chunk pending ≡ 8 =
        omega (arith, chunk-cases pending, get_elem?-lt pending k has) in
      inr (
        k - 8,
        omega (
          arith,
          length-append {0} nodes
              (record { next = 0; digests = take (chunk pending) pending } ∷ []),
        ),
        get_elem?-drop (chunk pending) pending (k - 8) ∙ ap (get_elem? pending) (omega arith) ∙ has,
      )
]

module _ (t : TrialPolicies) (alg : Alg) where
  abbrev pub HasParent : PolicyOrDataTree → List Digest → ℕ → Type 0
  HasParent nodes pending i =
      (node : PolicyOrDataNode) × (get_elem? nodes i ≡ some node)
      × (0 < node.next)
      × Feeds nodes pending (i + node.next) (node_digest t alg node.digests)

  -- Node `i` of the level that is being built, and the digest it produced.
  abbrev pub Produces : OrState → ℕ → Type 0
  Produces s i =
      (node : PolicyOrDataNode) × (get_elem? s.nodes (s.cur_node + i) ≡ some node)
      × (get_elem? s.next_digests i ≡ some (node_digest t alg node.digests))

  pub record IsLinked (s : OrState) : Type 0 where
    pub counted : length s.nodes ≡ s.cur_node + length s.next_digests
    pub parents : (i : ℕ) → i < s.cur_node → HasParent s.nodes s.digests i
    pub level : (i : ℕ) → i < length s.next_digests → Produces s i
    pub more : 0 < length s.digests
    pub fits : length s.digests + 2 * length s.next_digests < 2 ^ 32

  -- The node and the digest that a round adds.
  abbrev pub new_node : OrState → PolicyOrDataNode
  new_node s = record { next = 0; digests = take (chunk s.digests) s.digests }

  abbrev pub produced : OrState → List Digest
  produced s = s.next_digests ++ node_digest t alg (take (chunk s.digests) s.digests) ∷ []

  pub length-produced : (s : OrState) → length (produced s) ≡ suc (length s.next_digests)
  length-produced s = omega (
    arith,
    length-append {0} s.next_digests (node_digest t alg (take (chunk s.digests) s.digests) ∷ []),
  )

  pub length-append_node : (s : OrState) → length (append_node s).nodes ≡ suc (length s.nodes)
  length-append_node s = omega (arith, length-append {0} s.nodes (new_node s ∷ []))

  pub parents-append :
      (s : OrState)
      → IsLinked s
      → (i : ℕ) → i < s.cur_node
      → HasParent (append_node s).nodes (drop (chunk s.digests) s.digests) i
  parents-append s v i h =
      let (node, at, up, feeds) = v.parents i h in
      (
        node,
        get_elem?-append_left s.nodes _ i (get_elem?-lt s.nodes i at) ∙ at,
        up,
        Feeds-append s.nodes s.digests _ _ feeds,
      )

  pub level-append :
      (s : OrState)
      → IsLinked s
      → (i : ℕ) → i < length (produced s)
      → Produces (record (append_node s) { next_digests = produced s }) i
  level-append s v i h = elim (dec_lt i (length s.next_digests)) [
    | yes old ↦
        let (node, at, has) = v.level i old in
        (
          node,
          get_elem?-append_left s.nodes _ _ (get_elem?-lt s.nodes _ at) ∙ at,
          get_elem?-append_left s.next_digests _ i old ∙ has,
        )
    | no new ↦
        let last : i ≡ length s.next_digests = omega (arith, length-produced s) in
        (
          new_node s,
          ap (get_elem? (append_node s).nodes) (omega (arith, v.counted, last))
              ∙ get_elem?-append_length s.nodes _ [],
          ap (get_elem? (produced s)) last ∙ get_elem?-append_length s.next_digests _ [],
        )
  ]
