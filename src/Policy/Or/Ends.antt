-- ===== src/Policy/Or/Ends.antt =====
-- `executePolicyORAssertions` ends on every tree, also on one that was read from a damaged file.
use secboot.Prelude.{
  List, refl, ℕ, zero, suc, ◌+◌, ◌<◌, ◌≡◌, Option, some, none, Bool-cases, ◌==◌, leb, if◌then◌else◌,
  length, get_elem?, get_elem?-lt, arith, inl, inr,
}
use secboot.Exec.{Exec, or_wrap}
use secboot.Exec.Ends.{Ends, Ends-continue, Ends-wrap}
use secboot.Tpm.{Digest, PolicySession}
use secboot.Policy.Or.{PolicyOrDataNode, PolicyOrDataTree, ensure_sufficient_or_digests}
use secboot.Policy.Or.Execute.{climb, climb_from, visit, execute_policy_or_assertions}

-- The loop's condition admits only nodes of the tree.
admits_some :
    (nodes : PolicyOrDataTree) (least index : ℕ) (node : PolicyOrDataNode)
    → (if leb least index then get_elem? nodes index else none) ≡ some node
    → get_elem? nodes index ≡ some node
admits_some nodes least index node h = ground arith

module _ (p : PolicySession)
    (or_ends : (digests : List Digest) (s : p.State) → Ends (p.policy_or digests s)) where
  visit-Ends :
      (o : Option PolicyOrDataNode) (again : ℕ → Exec p.State Unit) (s : p.State)
      → ((node : PolicyOrDataNode) (s' : p.State)
          → o ≡ some node
          → 0 < node.next
          → Ends (again node.next s'))
      → Ends (visit p o again s)
  unfolding visit
  visit-Ends none again s h = λ e. cc
  visit-Ends (some node) again s h =
      Ends-continue (p.policy_or (ensure_sufficient_or_digests node.digests)) _ s (or_ends _ s)
        λ _ s'. elim (Bool-cases (node.next == 0)) [
          | inl e ↦ rw e (λ e'. cc)
          | inr e ↦ rw e (h node s' refl (ground arith))
        ]

  climb-Ends :
      (fuel : ℕ) (nodes : PolicyOrDataTree) (least index : ℕ) (s : p.State)
      → length nodes < fuel + index
      → 0 < fuel
      → Ends (climb p fuel nodes least index s)
  unfolding climb
  climb-Ends zero nodes least index s h pos = absurd (omega arith)
  climb-Ends (suc fuel) nodes least index s h pos = visit-Ends _ _ s λ node s' at up.
      climb-Ends fuel nodes (suc index) (index + node.next) s' (omega arith)
        (omega (arith, get_elem?-lt nodes index (admits_some nodes least index node at)))

  climb_from-Ends :
      (nodes : PolicyOrDataTree) (leaf : Option ℕ) (s : p.State) → Ends (climb_from p nodes leaf s)
  climb_from-Ends nodes none s = λ e. cc
  climb_from-Ends nodes (some index) s =
      climb-Ends (suc (length nodes)) nodes 0 index s (omega arith) (omega arith)

  -- Whatever the offsets of a tree are, the assertions over it end: each step goes to a later node.
  pub execute_policy_or_assertions-Ends :
      ((s : p.State) → Ends (p.policy_get_digest s))
      → (nodes : PolicyOrDataTree) (s : p.State) → Ends (execute_policy_or_assertions p nodes s)
  unfolding execute_policy_or_assertions
  execute_policy_or_assertions-Ends get_ends nodes s =
      Ends-continue (or_wrap p.policy_get_digest "cannot obtain current session digest") _ s
        (Ends-wrap p.policy_get_digest "cannot obtain current session digest" s (get_ends s))
        λ digest s'. elim (Bool-cases (length nodes == 0)) [
          | inl e ↦ rw e (λ e'. cc)
          | inr e ↦ rw e (climb_from-Ends nodes _ s')
        ]
