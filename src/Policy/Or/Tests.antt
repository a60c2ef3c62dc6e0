-- ===== src/Policy/Or/Tests.antt =====
-- Runs of the PolicyOR code over a toy TPM, which joins digests where the TPM hashes them.
use mathlib.Core.List.{Mem}
use secboot.Prelude.{
  ◌↔◌, ℕ, ◌≤◌, ◌≡◌, refl, List, [], ◌∷◌, ◌++◌, true, ◌&&◌, leb, if◌then◌else◌, length, arith, map,
  Bool-cases, inl, inr,
}
use secboot.Exec.{Exec, Result, ok, err, panic, external, message}
use secboot.Exec.Ends.{Ends}
use secboot.Tpm.{Digest, TrialPolicies, PolicySession}
use secboot.Utils.{digest_list_contains, digest_list_contains_iff}
use secboot.Policy.Or.{
  PolicyOrDataTree, ensure_sufficient_or_digests, node_digest, compute_policy_or_data, or_loop,
  consume, close_level, link_level, set_next,
}
use secboot.Policy.Or.Built.{IsOrTree, compute_policy_or_data-IsOrTree}
use secboot.Policy.Or.Execute.{find_leaf, climb, visit, execute_policy_or_assertions}
use secboot.Policy.Or.Climb.{IsPolicySession}
use secboot.Policy.Or.Sound.{execute-compute_policy_or_data, execute-compute_policy_or_data_none}
use secboot.Policy.Or.Ends.{execute_policy_or_assertions-Ends}

abbrev join : List Digest → Digest
join [] = []
join (d ∷ rest) = d ++ join rest

abbrev toy_trial : TrialPolicies
toy_trial = record {
  Trial = Digest;
  compute_auth_policy = λ _. 0 ∷ [];
  policy_or = λ _ digests. 1 ∷ join digests;
  get_digest = λ d. d;
}

abbrev toy_or : List Digest → Exec Digest Unit
toy_or digests d =
    if leb 2 (length digests) && leb (length digests) 8 && digest_list_contains digests d
    then (ok tt, 1 ∷ join digests)
    else (err (external 1), d)

abbrev toy_session : PolicySession
toy_session = record { State = Digest; policy_get_digest = λ d. (ok d, d); policy_or = toy_or }

toy_or_accepts :
    (digests : List Digest) (d : Digest)
    → 2 ≤ length digests
    → length digests ≤ 8
    → digest_list_contains digests d ≡ true
    → toy_or digests d ≡ (ok tt, 1 ∷ join digests)
toy_or_accepts digests d two eight has = ground arith

abbrev toy-IsPolicySession : IsPolicySession toy_trial 11 toy_session
toy-IsPolicySession = record {
  digest = λ d. d;
  gets = λ d. refl;
  accepts =
      λ digests d two eight has. (1 ∷ join digests, toy_or_accepts digests d two eight has, refl);
}

toy_or-Ends : (digests : List Digest) (d : Digest) → Ends (toy_or digests d)
toy_or-Ends digests d =
    elim (Bool-cases
      (leb 2 (length digests) && leb (length digests) 8 && digest_list_contains digests d)) [
        | inl e ↦ rw e (λ h. cc)
        | inr e ↦ rw e (λ h. cc)
      ]

-- Ten conditions: two leaves and a root.
abbrev ten : List Digest
ten =
    (10 ∷ [])
    ∷ (11 ∷ [])
    ∷ (12 ∷ [])
    ∷ (13 ∷ [])
    ∷ (14 ∷ [])
    ∷ (15 ∷ [])
    ∷ (16 ∷ [])
    ∷ (17 ∷ [])
    ∷ (18 ∷ [])
    ∷ (19 ∷ [])
    ∷ []

offsets : Result (PolicyOrDataTree × Digest) → List ℕ
offsets (ok (nodes, trial)) = map (λ node. node.next) nodes
offsets _ = []

ten-offsets : offsets (compute_policy_or_data toy_trial 11 (0 ∷ []) ten) ≡ 2 ∷ 1 ∷ 0 ∷ []
unfolding offsets compute_policy_or_data or_loop consume close_level link_level set_next
ten-offsets = refl

abbrev executed : Result (PolicyOrDataTree × Digest) → Digest → Result (Unit {0}) × Digest
executed (ok (nodes, trial)) d = execute_policy_or_assertions toy_session nodes d
executed _ d = (panic, d)

ten_last :
    executed (compute_policy_or_data toy_trial 11 (0 ∷ []) ten) (19 ∷ [])
    ≡ (ok tt, 1 ∷ 1 ∷ 10 ∷ 11 ∷ 12 ∷ 13 ∷ 14 ∷ 15 ∷ 16 ∷ 17 ∷ 1 ∷ 18 ∷ 19 ∷ [])
unfolding compute_policy_or_data or_loop consume close_level link_level set_next node_digest
    ensure_sufficient_or_digests execute_policy_or_assertions find_leaf climb visit
    digest_list_contains
ten_last = refl

contains_last : Mem {A = Digest} (19 ∷ []) ten
unfolding digest_list_contains
contains_last = (digest_list_contains_iff ten (19 ∷ [])).0 refl

execute-compute_policy_or_data_example :
    (nodes : PolicyOrDataTree) × (trial : Digest) × (d : Digest) × (compute_policy_or_data toy_trial
        11
        (0 ∷ [])
        ten
      ≡ ok (nodes, trial))
    × (execute_policy_or_assertions toy_session nodes (19 ∷ []) ≡ (ok tt, d))
    × (d ≡ trial)
execute-compute_policy_or_data_example =
    execute-compute_policy_or_data toy_trial 11 toy_session toy-IsPolicySession ten (19 ∷ [])
      contains_last (omega arith)

absent : ¬ Mem {A = Digest} (20 ∷ []) ten
unfolding digest_list_contains
absent m = cc ((digest_list_contains_iff ten (20 ∷ [])).1 m)

execute-compute_policy_or_data_none_example :
    (nodes : PolicyOrDataTree) × (trial : Digest) × (compute_policy_or_data toy_trial 11
        (0 ∷ [])
        ten
      ≡ ok (nodes, trial))
    × (execute_policy_or_assertions toy_session nodes (20 ∷ [])
        ≡ (err (message "current session digest not found in policy data"), 20 ∷ []))
execute-compute_policy_or_data_none_example =
    execute-compute_policy_or_data_none toy_trial 11 toy_session toy-IsPolicySession ten (20 ∷ [])
      absent (omega arith) (omega arith)

compute_policy_or_data-IsOrTree_example :
    (nodes : PolicyOrDataTree) × (root : List Digest) × (compute_policy_or_data toy_trial 11
        (0 ∷ [])
        ten
      ≡ ok (nodes, 1 ∷ join (ensure_sufficient_or_digests root)))
    × IsOrTree toy_trial 11 ten nodes root
compute_policy_or_data-IsOrTree_example =
    compute_policy_or_data-IsOrTree toy_trial 11 (0 ∷ []) ten (omega arith) (omega arith)

-- A damaged tree, whose only node points behind the end.
execute_policy_or_assertions-Ends_example : Ends (
    execute_policy_or_assertions toy_session
      (record { next = 7; digests = (5 ∷ []) ∷ [] } ∷ [])
      (5 ∷ []))
execute_policy_or_assertions-Ends_example =
    execute_policy_or_assertions-Ends toy_session toy_or-Ends (λ d h. cc)
      (record { next = 7; digests = (5 ∷ []) ∷ [] } ∷ []) (5 ∷ [])

digest_list_contains_iff_example :
    (digest_list_contains ten (19 ∷ []) ≡ true) ↔ Mem {A = Digest} (19 ∷ []) ten
digest_list_contains_iff_example = digest_list_contains_iff ten (19 ∷ [])
