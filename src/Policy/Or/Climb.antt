-- ===== src/Policy/Or/Climb.antt =====
-- The loops of `executePolicyORAssertions`: the search for a leaf, and the way up to the root.
use secboot.Prelude.{
  ℕ, zero, suc, ◌+◌, ◌<◌, ◌≤◌, ◌≡◌, refl, ap, ◌∙◌, sym, inl, inr, List, [], ◌∷◌, ◌++◌, some, none,
  true, false, Bool-cases, ◌||◌, ◌==◌, leb, if◌then◌else◌, length, get_elem?, take, get_elem?-lt,
  arith,
}
use native.Mathlib.Decide.{dec_lt}
use secboot.Exec.{Exec, ok}
use secboot.Tpm.{Alg, Digest, TrialPolicies, PolicySession}
use secboot.Utils.{digest_list_contains, digest_list_contains-get_elem?}
use secboot.Policy.Or.{
  PolicyOrDataNode, PolicyOrDataTree, ensure_sufficient_or_digests, node_digest,
}
use secboot.Policy.Or.Leaves.{node_digests, IsOrList, AllOrLists-get_elem?}
use secboot.Policy.Or.Built.{IsOrTree, parent_of, root_of}
use secboot.Policy.Or.Execute.{find_leaf, climb, visit}

digest_list_contains-append :
    (xs ys : List Digest) (d : Digest)
    → digest_list_contains (xs ++ ys) d ≡ (digest_list_contains xs d || digest_list_contains ys d)
unfolding digest_list_contains
digest_list_contains-append [] ys d = refl
digest_list_contains-append (x ∷ xs) ys d = ground (arith, digest_list_contains-append xs ys d)

digest_list_contains-ensure :
    (digests : List Digest) (d : Digest)
    → digest_list_contains (ensure_sufficient_or_digests digests) d ≡ digest_list_contains digests d
unfolding digest_list_contains ensure_sufficient_or_digests
digest_list_contains-ensure [] d = refl
digest_list_contains-ensure (x ∷ []) d = ground arith
digest_list_contains-ensure (x ∷ y ∷ rest) d = refl

-- A node's digests are as many as TPM2_PolicyOR takes.
length-ensure :
    (digests : List Digest)
    → IsOrList digests
    → (2 ≤ length (ensure_sufficient_or_digests digests))
      × (length (ensure_sufficient_or_digests digests) ≤ 8)
unfolding ensure_sufficient_or_digests
length-ensure [] h = absurd (omega arith)
length-ensure (x ∷ []) h = omega arith
length-ensure (x ∷ y ∷ rest) h = omega arith

-- The search finds the first of the given nodes that holds the digest.
pub find_leaf-some :
    (nodes : PolicyOrDataTree) (rounds i : ℕ) (d : Digest)
    → digest_list_contains (node_digests (take rounds nodes)) d ≡ true
    → (j : ℕ) × (node : PolicyOrDataNode) × (find_leaf nodes rounds i d ≡ some (i + j))
      × (get_elem? nodes j ≡ some node)
      × (digest_list_contains node.digests d ≡ true)
unfolding find_leaf
find_leaf-some [] zero i d h = absurd (unfold digest_list_contains in ground arith)
find_leaf-some [] (suc rounds) i d h = absurd (unfold digest_list_contains in ground arith)
find_leaf-some (node ∷ rest) zero i d h = absurd (unfold digest_list_contains in ground arith)
find_leaf-some (node ∷ rest) (suc rounds) i d h =
    elim (Bool-cases (digest_list_contains node.digests d)) [
      | inl here ↦ (0, node, rw here (ap some (omega arith)), refl, here)
      | inr there ↦
          let (j, found, runs, at, has) = find_leaf-some rest rounds (suc i) d (
            ground (
              arith,
              digest_list_contains-append node.digests (node_digests (take rounds rest)) d,
            )) in
          (suc j, found, rw there (runs ∙ ap some (omega arith)), at, has)
    ]

pub find_leaf-none :
    (nodes : PolicyOrDataTree) (rounds i : ℕ) (d : Digest)
    → digest_list_contains (node_digests (take rounds nodes)) d ≡ false
    → find_leaf nodes rounds i d ≡ none
unfolding find_leaf
find_leaf-none [] rounds i d h = refl
find_leaf-none (node ∷ rest) zero i d h = refl
find_leaf-none (node ∷ rest) (suc rounds) i d h = ground (
  arith,
  digest_list_contains-append node.digests (node_digests (take rounds rest)) d,
  find_leaf-none rest rounds (suc i) d,
)

-- What TPM 2.0 documents of a policy session over the algorithm `alg`: TPM2_PolicyGetDigest
-- returns its digest; TPM2_PolicyOR takes two to eight digests, and if the session's is among
-- them makes it the one that a trial policy would have.
pub record IsPolicySession (t : TrialPolicies) (alg : Alg) (p : PolicySession) : Type 0 where
  pub digest : p.State → Digest
  pub gets : (s : p.State) → p.policy_get_digest s ≡ (ok (digest s), s)
  pub accepts :
      (digests : List Digest) (s : p.State)
      → 2 ≤ length digests
      → length digests ≤ 8
      → digest_list_contains digests (digest s) ≡ true
      → (s' : p.State) × (p.policy_or digests s ≡ (ok tt, s'))
        × (digest s' ≡ t.get_digest (t.policy_or (t.compute_auth_policy alg) digests))

-- The loop's condition admits a node that is there and behind the last one.
admits :
    (nodes : PolicyOrDataTree) (least index : ℕ) {node : PolicyOrDataNode}
    → least ≤ index
    → get_elem? nodes index ≡ some node
    → (if leb least index then get_elem? nodes index else none) ≡ some node
admits nodes least index low at = ground arith

module _ (p : PolicySession) where
  -- An assertion that succeeds leads on to the parent, or ends at the root.
  visit_accepted :
      (node : PolicyOrDataNode) (again : ℕ → Exec p.State Unit) (s s' : p.State)
      → p.policy_or (ensure_sufficient_or_digests node.digests) s ≡ (ok tt, s')
      → visit p (some node) again s ≡ (if node.next == 0 then (ok tt, s') else again node.next s')
  unfolding visit
  visit_accepted node again s s' e = rw e (ground arith)

module _ (t : TrialPolicies) (alg : Alg) (p : PolicySession) (h : IsPolicySession t alg p) where
  -- The assertion at a node that holds the session's digest succeeds.
  node_accepted :
      (node : PolicyOrDataNode) (s : p.State)
      → IsOrList node.digests
      → digest_list_contains node.digests (h.digest s) ≡ true
      → (s' : p.State) × (p.policy_or (ensure_sufficient_or_digests node.digests) s ≡ (ok tt, s'))
        × (h.digest s' ≡ node_digest t alg node.digests)
  unfolding node_digest
  node_accepted node s size has =
      h.accepts (ensure_sufficient_or_digests node.digests) s (length-ensure node.digests size).0
        (length-ensure node.digests size).1
        (digest_list_contains-ensure node.digests (h.digest s) ∙ has)

  -- From any node that holds the session's digest, the assertions lead to the root's digest.
  pub climb-IsOrTree :
      (fuel : ℕ) (all root : List Digest) (nodes : PolicyOrDataTree) (least index : ℕ)
      (node : PolicyOrDataNode) (s : p.State) (tree : IsOrTree t alg all nodes root)
      → least ≤ index
      → length nodes < fuel + index
      → get_elem? nodes index ≡ some node
      → digest_list_contains node.digests (h.digest s) ≡ true
      → (s' : p.State) × (climb p fuel nodes least index s ≡ (ok tt, s'))
        × (h.digest s' ≡ node_digest t alg root)
  unfolding climb
  climb-IsOrTree zero all root nodes least index node s tree low enough at has =
      absurd (omega (arith, get_elem?-lt nodes index at))
  climb-IsOrTree (suc fuel) all root nodes least index node s tree low enough at has =
      elim (dec_lt index tree.last) [
        | yes below ↦
            let (target, k, up, above, holds) = parent_of t alg tree index node at below in
            let (end, runs, digest) =
              climb-IsOrTree fuel all root nodes (suc index) (index + node.next) target s' tree
                (omega arith) (omega arith) above
                (digest_list_contains-get_elem? target.digests k _ (holds ∙ ap some (sym now))) in
            (end, at_node ∙ if_more node.next up ∙ runs, digest)
        | no top ↦
            let (is_last, digests) = root_of t alg tree index node at (omega arith) in
            (s', at_node ∙ if_last node.next is_last, now ∙ ap (node_digest t alg) digests)
      ]
    where
      accepted :
          (s' : p.State) × (p.policy_or (ensure_sufficient_or_digests node.digests) s ≡ (ok tt, s'))
          × (h.digest s' ≡ node_digest t alg node.digests)
      accepted = node_accepted node s (AllOrLists-get_elem? nodes index tree.sized at) has

      s' : p.State
      s' = accepted.0

      now : h.digest s' ≡ node_digest t alg node.digests
      now = accepted.2

      again : ℕ → Exec p.State Unit
      again next = climb p fuel nodes (suc index) (index + next)

      at_node :
          climb p (suc fuel) nodes least index s
          ≡ (if node.next == 0 then (ok tt, s') else again node.next s')
      at_node =
          ap (λ o. visit p o again s) (admits nodes least index low at)
          ∙ visit_accepted p node again s s' accepted.1

      if_more : (n : ℕ) → 0 < n → (if n == 0 then (ok tt, s') else again n s') ≡ again n s'
      if_more n up = ground arith

      if_last : (n : ℕ) → n ≡ 0 → (if n == 0 then (ok tt, s') else again n s') ≡ (ok tt, s')
      if_last n e = ground arith
