-- ===== src/Policy/Or/Sound.antt =====
-- The tree that `computePolicyORData` builds serves `executePolicyORAssertions` as it should.
use mathlib.Core.List.{Mem}
use secboot.Prelude.{
  ℕ, suc, ◌^◌, ◌<◌, ◌≡◌, ap, ◌∙◌, inl, inr, List, [], ◌∷◌, Option, some, none, true, false,
  Bool-cases, ◌==◌, length, arith,
}
use secboot.Exec.{ok, err, message}
use secboot.Tpm.{Alg, Digest, TrialPolicies, PolicySession}
use secboot.Utils.{digest_list_contains, digest_list_contains_iff}
use secboot.Policy.Or.{
  PolicyOrDataTree, ensure_sufficient_or_digests, node_digest, compute_policy_or_data, leaf_end,
}
use secboot.Policy.Or.Built.{IsOrTree, compute_policy_or_data-IsOrTree}
use secboot.Policy.Or.Execute.{find_leaf, climb_from, execute_policy_or_assertions}
use secboot.Policy.Or.Climb.{IsPolicySession, find_leaf-some, find_leaf-none, climb-IsOrTree}

length_of_contains :
    (digests : List Digest) (d : Digest)
    → digest_list_contains digests d ≡ true
    → 0 < length digests
unfolding digest_list_contains
length_of_contains [] d h = absurd (ground arith)
length_of_contains (x ∷ rest) d h = omega arith

positive-ne_zero : (n : ℕ) → 0 < n → (n == 0) ≡ false
positive-ne_zero n h = ground arith

module _ (t : TrialPolicies) (alg : Alg) (p : PolicySession) (h : IsPolicySession t alg p) where
  -- With a tree at hand the session's digest is looked up among its leaves.
  execute_found :
      (nodes : PolicyOrDataTree) (s : p.State)
      → 0 < length nodes
      → (r : Option ℕ) → find_leaf nodes (leaf_end nodes) 0 (h.digest s) ≡ r
      → execute_policy_or_assertions p nodes s ≡ climb_from p nodes r s
  unfolding execute_policy_or_assertions
  execute_found nodes s some_nodes r e =
      rw (h.gets s, positive-ne_zero (length nodes) some_nodes) (ap (λ o. climb_from p nodes o s) e)

  execute-IsOrTree :
      (all root : List Digest) (nodes : PolicyOrDataTree) (s : p.State)
      → IsOrTree t alg all nodes root
      → digest_list_contains all (h.digest s) ≡ true
      → (s' : p.State) × (execute_policy_or_assertions p nodes s ≡ (ok tt, s'))
        × (h.digest s' ≡ node_digest t alg root)
  execute-IsOrTree all root nodes s tree has =
      let (j, node, found, at, holds) =
        find_leaf-some nodes (leaf_end nodes) 0 (h.digest s)
          (ap (λ l. digest_list_contains l (h.digest s)) tree.leaves ∙ has) in
      let (s', runs, digest) =
        climb-IsOrTree t alg p h (suc (length nodes)) all root nodes 0 j node s tree (omega arith)
          (omega arith) at holds in
      (
        s',
        execute_found nodes s (omega (arith, tree.counted)) (some j) (found ∙ ap some (omega arith))
            ∙ runs,
        digest,
      )

  -- If the session's digest is one of at most 2^32 - 1 conditions, the tree computed for them lets
  -- the assertions succeed, and they leave the session with the digest of the trial policy.
  pub execute-compute_policy_or_data :
      (digests : List Digest) (s : p.State)
      → Mem (h.digest s) digests
      → length digests < 2 ^ 32
      → (nodes : PolicyOrDataTree) × (trial : t.Trial) × (s' : p.State) × (compute_policy_or_data t
            alg
            (t.compute_auth_policy alg)
            digests
          ≡ ok (nodes, trial))
        × (execute_policy_or_assertions p nodes s ≡ (ok tt, s'))
        × (h.digest s' ≡ t.get_digest trial)
  unfolding node_digest
  execute-compute_policy_or_data digests s m fits =
      let has : digest_list_contains digests (h.digest s) ≡ true =
        (digest_list_contains_iff digests (h.digest s)).1 m in
      let (nodes, root, runs, tree) =
        compute_policy_or_data-IsOrTree t alg (t.compute_auth_policy alg) digests
          (length_of_contains digests (h.digest s) has) fits in
      let (s', executes, digest) = execute-IsOrTree digests root nodes s tree has in
      (
        nodes,
        t.policy_or (t.compute_auth_policy alg) (ensure_sufficient_or_digests root),
        s',
        runs,
        executes,
        digest,
      )

  -- If there is at least one condition and fewer than 2 ^ 32, and the session's digest is none of
  -- them: the tree is computed, and on it no assertion is executed; the session keeps its state and the
  -- call fails.
  pub execute-compute_policy_or_data_none :
      (digests : List Digest) (s : p.State)
      → ¬ Mem (h.digest s) digests
      → 0 < length digests
      → length digests < 2 ^ 32
      → (nodes : PolicyOrDataTree) × (trial : t.Trial) × (compute_policy_or_data t alg
            (t.compute_auth_policy alg)
            digests
          ≡ ok (nodes, trial))
        × (execute_policy_or_assertions p nodes s
            ≡ (err (message "current session digest not found in policy data"), s))
  execute-compute_policy_or_data_none digests s m some_digests fits =
      let (nodes, root, runs, tree) =
        compute_policy_or_data-IsOrTree t alg (t.compute_auth_policy alg) digests some_digests
          fits in
      (
        nodes,
        t.policy_or (t.compute_auth_policy alg) (ensure_sufficient_or_digests root),
        runs,
        execute_found nodes s (omega (arith, tree.counted)) none (
            find_leaf-none nodes (leaf_end nodes) 0 (h.digest s)
              (ap (λ l. digest_list_contains l (h.digest s)) tree.leaves ∙ absent)),
      )
    where
      absent : digest_list_contains digests (h.digest s) ≡ false
      absent = elim (Bool-cases (digest_list_contains digests (h.digest s))) [
        | inl yes' ↦ absurd (m ((digest_list_contains_iff digests (h.digest s)).0 yes'))
        | inr no' ↦ no'
      ]
