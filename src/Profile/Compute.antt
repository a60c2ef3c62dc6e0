-- ===== src/Profile/Compute.antt =====
-- pcr_profile.go: `computePCRValues` and `computePCRDigests`.
use secboot.Prelude.{
  ◌||◌, ℕ, zero, suc, List, [], ◌∷◌, ◌++◌, Bool, false, none, if◌then◌else◌, bytes_equal,
}
use secboot.Exec.{Exec, Result, ok, err, panic, bind_result, message, lift, ◌>>=◌}
use secboot.Tpm.{Alg, Digest, PcrSelectionList, PcrValues, PcrFunctions, no_values}
use secboot.Profile.{
  Instr, add_profile_or, PcrProtectionProfile, nil, cons, Profiles, no_profiles, profile, PcrReader,
  compute_loop,
}

-- The rounds of the loop that a profile takes, and then `k` more.
unfoldable mutual
  pub rounds : PcrProtectionProfile → ℕ → ℕ
  rounds nil k = k
  rounds (cons i p) k = rounds_instr i (rounds p k)

  pub rounds_instr : Instr → ℕ → ℕ
  rounds_instr (add_profile_or no_profiles) k = k
  rounds_instr (add_profile_or (profile p rest)) k = suc (rounds_profiles (profile p rest) k)
  rounds_instr _ k = suc k

  pub rounds_profiles : Profiles → ℕ → ℕ
  rounds_profiles no_profiles k = k
  rounds_profiles (profile p rest) k = rounds p (suc (rounds_profiles rest k))

module _ (f : PcrFunctions) (r : PcrReader) (has_tpm : Bool) where
  -- `computePCRValues`: the loop over a new iterator, from a root context with no values set. Its
  -- rounds are as many as the traversal needs.
  unfoldable pub compute_pcr_values : PcrProtectionProfile → Exec r.State (List PcrValues)
  compute_pcr_values p =
      compute_loop f r has_tpm (rounds p (suc zero)) (p ∷ [])
        (record { parent = none; values = no_values ∷ [] } ∷ [])

-- The first loop of `computePCRDigests`: the digest of each branch, if all select the same PCRs.
unfoldable pub branch_digests :
    PcrFunctions → Alg → PcrSelectionList → List PcrValues → Result (List Digest)
branch_digests f alg pcrs [] = ok []
branch_digests f alg pcrs (v ∷ values) =
    let rest =
      bind_result (branch_digests f alg pcrs values)
        (λ digests. ok ((f.compute_pcr_digest_simple alg v).1 ∷ digests)) in
    if f.selection_equal (f.compute_pcr_digest_simple alg v).0 pcrs
    then rest
    else err (message "not all branches contain values for the same sets of PCRs")

-- The inner loop: whether `d` is there already.
unfoldable pub found_in : Digest → List Digest → Bool
unfolding bytes_equal
found_in d [] = false
found_in d (u ∷ unique) = bytes_equal d u || found_in d unique

-- The second loop of `computePCRDigests`.
unfoldable pub unique_digests : List Digest → List Digest → List Digest
unique_digests unique [] = unique
unique_digests unique (d ∷ digests) =
    unique_digests (if found_in d unique then unique else unique ++ d ∷ []) digests

-- `computePCRDigests`, once the values are computed; `values[0]` panics on an empty list.
unfoldable pub digests_of_values :
    PcrFunctions → Alg → List PcrValues → Result (PcrSelectionList × List Digest)
digests_of_values f alg [] = panic
digests_of_values f alg (v ∷ values) =
    bind_result (branch_digests f alg (f.selection_list v) (v ∷ values))
      λ digests. ok (f.selection_list v, unique_digests [] digests)

module _ (f : PcrFunctions) (r : PcrReader) (has_tpm : Bool) where
  unfoldable pub compute_pcr_digests :
      PcrProtectionProfile → Alg → Exec r.State (PcrSelectionList × List Digest)
  compute_pcr_digests p alg = do
    values ← compute_pcr_values f r has_tpm p
    lift (digests_of_values f alg values)
