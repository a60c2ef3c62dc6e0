-- ===== src/BootManager/Generate.antt =====
-- efibootmanager_policy.go: `AddEFIBootManagerProfile`. All branches stand in one list, in the order
-- in which they are made, and a branch is known by its place; the first is the caller's profile. The
-- source links the profiles of the branches from the first branch on, where a link also shows what
-- is added to a linked profile later; here each is linked when it is complete, from the last on.
use secboot.Prelude.{
  ℕ, zero, suc, List, [], ◌∷◌, ◌++◌, true, false, Option, none, some, ◌==◌, if◌then◌else◌, length,
  get_elem?,
}
use secboot.Exec.{Result, ok, panic, out_of_fuel}
use secboot.Exec.Results.{◌>>=◌}
use secboot.Tpm.{Alg, Digest, PcrFunctions}
use secboot.Profile.{
  PcrProtectionProfile, nil, Profiles, no_profiles, profile, with_pcr_value, with_extend_pcr,
  with_profile_or, zeros,
}
use secboot.SecureBoot.{boot_manager_code_pcr}
use secboot.SecureBoot.Events.{Event, is_separator}
use secboot.SecureBoot.Run.{LoadEvents}
use secboot.BootManager.{PeImages, compute_pe_image_digest}

pub record BootManagerCodePolicyGenBranch : Type 0 where
  pub profile : PcrProtectionProfile
  pub branches : List ℕ

abbrev pub AllBranches : Type 0
AllBranches = List BootManagerCodePolicyGenBranch

-- `bmLoadEventAndBranch`
abbrev pub BmLoadEventAndBranch : Type 0
BmLoadEventAndBranch = ℕ × ℕ

-- A change of the branch at a place.
unfoldable pub change_branch :
    (BootManagerCodePolicyGenBranch → Result BootManagerCodePolicyGenBranch)
    → AllBranches
    → ℕ
    → Result AllBranches
change_branch f [] i = panic
change_branch f (b ∷ branches) zero = do b' ← f b; ok (b' ∷ branches)
change_branch f (b ∷ branches) (suc i) = do
  branches' ← change_branch f branches i
  ok (b ∷ branches')

unfoldable pub add_child :
    ℕ → BootManagerCodePolicyGenBranch → Result BootManagerCodePolicyGenBranch
add_child c b = ok (record b { branches = b.branches ++ c ∷ [] })

-- `branch`, and the new branch among all branches.
unfoldable pub sub_branch : AllBranches → ℕ → Result (AllBranches × ℕ)
sub_branch branches i = do
  branches' ← change_branch (add_child (length branches)) branches i
  ok (branches' ++ record { profile = nil; branches = [] } ∷ [], length branches)

-- A queue entry, with a branch of its own, for each of several events.
unfoldable pub fork_events :
    AllBranches → ℕ → List ℕ → Result (AllBranches × List BmLoadEventAndBranch)
fork_events branches i [] = ok (branches, [])
fork_events branches i (e ∷ rest) = do
  (branches1, c) ← sub_branch branches i
  (branches2, more) ← fork_events branches1 i rest
  ok (branches2, (e, c) ∷ more)

-- The entries that follow: one event goes on in the same branch.
unfoldable pub follow_events :
    AllBranches → ℕ → List ℕ → Result (AllBranches × List BmLoadEventAndBranch)
follow_events branches i (e ∷ []) = ok (branches, (e, i) ∷ [])
follow_events branches i events = fork_events branches i events

unfoldable pub child_profile : Option BootManagerCodePolicyGenBranch → Profiles → Profiles
child_profile none rest = rest
child_profile (some b) rest = profile b.profile rest

unfoldable pub child_profiles : AllBranches → List ℕ → Profiles
child_profiles branches [] = no_profiles
child_profiles branches (i ∷ ids) =
    child_profile (get_elem? branches i) (child_profiles branches ids)

unfoldable pub link_branch :
    AllBranches → BootManagerCodePolicyGenBranch → Result BootManagerCodePolicyGenBranch
link_branch branches b =
    if length b.branches == 0
    then ok b
    else ok (record b { profile = with_profile_or b.profile (child_profiles branches b.branches) })

unfoldable pub link_branches : ℕ → AllBranches → Result AllBranches
link_branches zero branches = ok branches
link_branches (suc i) branches = do
  branches' ← change_branch (link_branch branches) branches i
  link_branches i branches'

unfoldable pub root_profile : AllBranches → Result PcrProtectionProfile
root_profile [] = panic
root_profile (b ∷ branches) = ok b.profile

module _ (images : PeImages) (f : PcrFunctions) (alg : Alg) where
  -- The loop over the log, up to the first separator of the PCR.
  unfoldable pub replay : List Event → PcrProtectionProfile → Result PcrProtectionProfile
  replay [] p = ok p
  replay (e ∷ events) p = elim (e.pcr_index == boot_manager_code_pcr) [
    | false ↦ replay events p
    | true ↦ (do
      p' ← with_extend_pcr f p alg boot_manager_code_pcr (e.digests alg)
      elim (is_separator e.event_type) [ true ↦ ok p' | false ↦ replay events p' ])
  ]

  unfoldable pub measure_image :
      Digest → BootManagerCodePolicyGenBranch → Result BootManagerCodePolicyGenBranch
  measure_image digest b = do
    p ← with_extend_pcr f b.profile alg boot_manager_code_pcr digest
    ok (record b { profile = p })

  -- The loop over the queue; when it is empty, the events that were put off take its place.
  unfoldable pub process_images :
      LoadEvents
      → ℕ
      → List BmLoadEventAndBranch
      → List BmLoadEventAndBranch
      → AllBranches
      → Result AllBranches
  process_images store zero [] [] branches = ok branches
  process_images store zero queue later branches = out_of_fuel
  process_images store (suc fuel) [] [] branches = ok branches
  process_images store (suc fuel) [] (entry ∷ later) branches =
      process_images store fuel (entry ∷ later) [] branches
  process_images store (suc fuel) ((e, i) ∷ queue) later branches = do
    digest ← compute_pe_image_digest images f alg (store e).image
    branches1 ← change_branch (measure_image digest) branches i
    (branches2, more) ← follow_events branches1 i (store e).next
    process_images store fuel queue (later ++ more) branches2

  -- `AddEFIBootManagerProfile`, for a log that has been parsed and has the algorithm.
  unfoldable pub add_efi_boot_manager_profile :
      LoadEvents → ℕ → PcrProtectionProfile → List Event → List ℕ → Result PcrProtectionProfile
  add_efi_boot_manager_profile store fuel p events sequences = do
    p1 ← with_pcr_value f p alg boot_manager_code_pcr (zeros (f.size alg))
    p2 ← replay events p1
    (branches, queue) ← follow_events (record { profile = p2; branches = [] } ∷ []) 0 sequences
    branches' ← process_images store fuel queue [] branches
    linked ← link_branches (length branches') branches'
    root_profile linked
