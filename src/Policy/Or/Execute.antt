-- ===== src/Policy/Or/Execute.antt =====
-- policy.go: `executePolicyORAssertions`, over a policy session of the TPM.
use secboot.Prelude.{
  ℕ, zero, suc, ◌+◌, [], ◌∷◌, Option, none, some, ◌==◌, leb, if◌then◌else◌, length, get_elem?,
}
use secboot.Exec.{Exec, out_of_fuel, pure, raise, lift, message, or_wrap, ◌>>=◌, ◌>>◌}
use secboot.Tpm.{Digest, PolicySession}
use secboot.Utils.{digest_list_contains}
use secboot.Policy.Or.{PolicyOrDataNode, PolicyOrDataTree, ensure_sufficient_or_digests, leaf_end}

-- The first loop: node `i` and those behind it, `rounds` of them at most.
unfoldable pub find_leaf : PolicyOrDataTree → ℕ → ℕ → Digest → Option ℕ
find_leaf [] rounds i digest = none
find_leaf (node ∷ rest) zero i digest = none
find_leaf (node ∷ rest) (suc rounds) i digest =
    let later = find_leaf rest rounds (suc i) digest in
    if digest_list_contains node.digests digest then some i else later

module _ (p : PolicySession) where
  open p use {State, policy_get_digest, policy_or}

  -- The body of the second loop, at the node that its condition admits, if any.
  unfoldable pub visit : Option PolicyOrDataNode → (ℕ → Exec State Unit) → Exec State Unit
  visit none again = pure tt
  visit (some node) again = do
    policy_or (ensure_sufficient_or_digests node.digests)
    if node.next == 0 then pure tt else again node.next

  -- The second loop, where `least` is `lastIndex + 1`.
  unfoldable pub climb : ℕ → PolicyOrDataTree → ℕ → ℕ → Exec State Unit
  climb zero nodes least index = lift out_of_fuel
  climb (suc fuel) nodes least index =
      visit (if leb least index then get_elem? nodes index else none)
        λ next. climb fuel nodes (suc index) (index + next)

  abbrev pub climb_from : PolicyOrDataTree → Option ℕ → Exec State Unit
  climb_from nodes none = raise (message "current session digest not found in policy data")
  climb_from nodes (some index) = climb (suc (length nodes)) nodes 0 index

  unfoldable pub execute_policy_or_assertions : PolicyOrDataTree → Exec State Unit
  execute_policy_or_assertions nodes = do
    current_digest ← or_wrap policy_get_digest "cannot obtain current session digest"
    if length nodes == 0
        then raise (message "no policy data")
        else climb_from nodes (find_leaf nodes (leaf_end nodes) 0 current_digest)
