-- ===== src/Policy/Or.antt =====
-- policy.go: the tree of digests for TPM2_PolicyOR assertions, and how it is computed.
mod Links
pub mod Invariant
pub mod Rounds
pub mod Leaves
pub mod Built
pub mod Execute
pub mod Climb
pub mod Sound
mod Tests
pub mod Ends
use secboot.Prelude.{
  ℕ, zero, suc, ◌+◌, ◌-◌, ◌/◌, ◌%◌, ◌^◌, List, [], ◌∷◌, ◌++◌, Bool, ◌&&◌, ◌==◌, ltb, if◌then◌else◌,
  length, take, drop,
}
use secboot.Exec.{Result, ok, out_of_fuel, bind_result}
use secboot.Tpm.{Alg, Digest, TrialPolicies}

pub record PolicyOrDataNode : Type 0 where
  pub next : ℕ
  pub digests : List Digest

abbrev pub PolicyOrDataTree : Type 0
PolicyOrDataTree = List PolicyOrDataNode

unfoldable pub ensure_sufficient_or_digests : List Digest → List Digest
ensure_sufficient_or_digests (d ∷ []) = d ∷ d ∷ []
ensure_sufficient_or_digests digests = digests

-- Where `executePolicyORAssertions` stops to look for a leaf: `data[0].Next`, or 1 if that is 0.
abbrev pub leaf_end : PolicyOrDataTree → ℕ
leaf_end [] = 0
leaf_end (node ∷ rest) = if node.next == 0 then 1 else node.next

-- `data[j].Next = next`
unfoldable pub set_next : PolicyOrDataTree → ℕ → ℕ → PolicyOrDataTree
set_next [] j next = []
set_next (node ∷ rest) zero next = record node { next = next } ∷ rest
set_next (node ∷ rest) (suc j) next = node ∷ set_next rest j next

-- `uint32(len(nextDigests) - i + (i / 8))`
abbrev pub parent_offset : ℕ → ℕ → ℕ
parent_offset n i = (n - i + i / 8) % 2 ^ 32

-- `for i := range nextDigests`, with the rounds that are left, the index and `len(nextDigests)`.
unfoldable pub link_level : ℕ → ℕ → ℕ → ℕ → PolicyOrDataTree → PolicyOrDataTree
link_level zero i n cur_node nodes = nodes
link_level (suc rounds) i n cur_node nodes =
    link_level rounds (suc i) n cur_node (set_next nodes (cur_node + i) (parent_offset n i))

-- The variables of the loop in `computePolicyORData`.
pub record OrState : Type 0 where
  pub nodes : PolicyOrDataTree
  pub cur_node : ℕ
  pub next_digests : List Digest
  pub digests : List Digest

-- `n := len(digests); if n > 8 { n = 8 }`
abbrev pub chunk : List Digest → ℕ
chunk digests = if ltb 8 (length digests) then 8 else length digests

abbrev pub append_node : OrState → OrState
append_node s = record s {
  nodes = s.nodes ++ record { next = 0; digests = take (chunk s.digests) s.digests } ∷ [];
}

-- All of the digests of this level are in the new node, so it is the root.
abbrev pub is_root : OrState → Bool
is_root s = chunk s.digests == length s.digests && length s.next_digests == 0

-- No digests are left at this level: its nodes point to their parents, and the digests that they
-- produced are the next level.
unfoldable pub close_level : OrState → List Digest → OrState
close_level s next_digests = record {
  nodes = link_level (length next_digests) 0 (length next_digests) s.cur_node s.nodes;
  cur_node = s.cur_node + length next_digests;
  next_digests = [];
  digests = next_digests;
}

module _ (t : TrialPolicies) (alg : Alg) where
  open t use {Trial, compute_auth_policy, policy_or, get_digest}

  -- The digest after TPM2_PolicyOR of a node's digests in a new trial policy.
  unfoldable pub node_digest : List Digest → Digest
  node_digest digests =
      get_digest (policy_or (compute_auth_policy alg) (ensure_sufficient_or_digests digests))

  -- The rest of the loop's body, after the new node.
  unfoldable pub consume : OrState → OrState
  consume s =
      let n = chunk s.digests in
      let next_digests = s.next_digests ++ node_digest (take n s.digests) ∷ [] in
      let left = drop n s.digests in
      if length left == 0
      then close_level s next_digests
      else record s { next_digests = next_digests; digests = left }

  -- The loop, up to its `break`.
  unfoldable pub or_loop : ℕ → OrState → Result OrState
  or_loop zero s = out_of_fuel
  or_loop (suc fuel) s =
      let rest = or_loop fuel (consume (append_node s)) in
      if is_root s then ok (append_node s) else rest

  abbrev pub or_start : List Digest → OrState
  or_start digests = record { nodes = []; cur_node = 0; next_digests = []; digests = digests }

  -- The tree, and the trial policy after the last assertion.
  unfoldable pub compute_policy_or_data : Trial → List Digest → Result (PolicyOrDataTree × Trial)
  compute_policy_or_data trial digests =
      bind_result (or_loop (suc (length digests)) (or_start digests))
        λ s. ok (s.nodes, policy_or trial (ensure_sufficient_or_digests s.digests))
