-- ===== src/SecureBoot/Generate.antt =====
-- secureboot_policy.go: the run of the generator, and `AddEFISecureBootPolicyProfile`.
use secboot.Prelude.{
  String, ℕ, zero, suc, List, [], ◌∷◌, ◌++◌, Bool, true, false, ◌||◌, Option, none, some, ◌==◌,
  if◌then◌else◌, length, take, get_elem?,
}
use secboot.Exec.{Result, ok, err, panic, out_of_fuel, message, wrap, map_error}
use secboot.Exec.Results.{◌>>=◌, ◌>>◌}
use secboot.Profile.{
  PcrProtectionProfile, nil, Profiles, no_profiles, profile, with_profile_or, with_pcr_value, zeros,
}
use secboot.SigDb.Database.{SigDbUpdateQuirkMode, quirk_mode_none, quirk_mode_dedup_ignores_owner}
use secboot.SecureBoot.{
  EfiGuids, EfiImageLoadEventSource, SecureBootPolicyGenBranch, Measuring, secure_boot_pcr,
  process_shim_executable_launch,
}
use secboot.SecureBoot.Events.{
  Event, SecureBootVerificationEvent, identify_initial_os_launch_verification_event,
}
use secboot.SecureBoot.PreOs.{SecureBootDbUpdate, EfiFiles, process_pre_os_events}
use secboot.SecureBoot.Log.{check_events}
use secboot.SecureBoot.Updates.{KeySync, build_signature_db_update_list}
use secboot.SecureBoot.Authority.{X509, compute_and_extend_verification_measurement}
use secboot.SecureBoot.Images.{
  EfiImages, Pkcs7, is_shim_executable, read_shim_vendor_cert, image_signers,
}
use secboot.SecureBoot.Run.{
  LoadEvents, Branches, on_branches, on_branch, bootable_at, SbLoadEventAndBranches, follow,
}

-- The sub-branches that can boot, as profiles.
unfoldable pub sub_profile : Option SecureBootPolicyGenBranch → Profiles → Profiles
sub_profile none rest = rest
sub_profile (some b) rest = elim b.profile [ none ↦ rest | some p ↦ profile p rest ]

unfoldable pub sub_profiles : Branches → List ℕ → Profiles
sub_profiles branches [] = no_profiles
sub_profiles branches (i ∷ ids) = sub_profile (get_elem? branches i) (sub_profiles branches ids)

unfoldable pub add_profiles :
    Profiles → SecureBootPolicyGenBranch → Result SecureBootPolicyGenBranch
add_profiles no_profiles b = ok (record b { profile = none })
add_profiles (profile p rest) b = elim b.profile [
  | none ↦ panic
  | some q ↦ ok (record b { profile = some (with_profile_or q (profile p rest)) })
]

-- One round of the loop over all branches, which goes from the last to the first.
unfoldable pub join_branch : Branches → SecureBootPolicyGenBranch → Result SecureBootPolicyGenBranch
join_branch branches b =
    if length b.sub_branches == 0
    then ok b
    else add_profiles (sub_profiles branches b.sub_branches) b

unfoldable pub join_branches : ℕ → Branches → Result Branches
join_branches zero branches = ok branches
join_branches (suc i) branches = do
  branches' ← on_branch (join_branch branches) branches i
  join_branches i branches'

-- The profiles of the branches of the databases that can boot.
unfoldable pub root_profiles : Branches → Profiles
root_profiles [] = no_profiles
root_profiles (b ∷ roots) = sub_profile (some b) (root_profiles roots)

unfoldable pub valid_paths_for_current_db : Branches → Bool
valid_paths_for_current_db [] = false
valid_paths_for_current_db (b ∷ roots) =
    elim b.profile [ none ↦ false | some p ↦ b.db_update_level == 0 ]
    || valid_paths_for_current_db roots

unfoldable pub first_branch : ℕ → SecureBootPolicyGenBranch
first_branch level = record {
  profile = some nil;
  sub_branches = [];
  db_update_level = level;
  db_set = record { uefi_db = none; mok_db = none; shim_db = none };
  firmware_verification_events = [];
  shim_verification_events = [];
}

-- The places `0`, `1`, … of the first branches.
unfoldable pub places : ℕ → ℕ → List ℕ
places i zero = []
places i (suc n) = i ∷ places (suc i) n

module _ (m : Measuring) (g : EfiGuids) (files : EfiFiles) (x : X509) (p : Pkcs7 x)
    (images : EfiImages) where
  unfoldable pub launch_shim : Bool → Branches → List ℕ → ℕ → Result Branches
  launch_shim false branches ids image = ok branches
  launch_shim true branches ids image = do
    vendor_cert ←
        map_error (wrap "cannot process shim executable") (
          map_error (wrap "cannot extract vendor certificate") (read_shim_vendor_cert images image))
    on_branches (λ b. ok (process_shim_executable_launch g vendor_cert b)) branches ids

  -- `processOSLoadEvent`
  unfoldable pub process_os_load_event :
      Branches → List ℕ → EfiImageLoadEventSource → ℕ → Result Branches
  process_os_load_event branches ids source image = do
    map_error (wrap "cannot open image") (images.open_image image)
    is_shim ← map_error (wrap "cannot determine image type") (is_shim_executable images image)
    signers ←
        map_error (wrap "cannot compute load verification event") (image_signers x p images image)
    branches' ← map_error (wrap "cannot compute load verification event") (
        on_branches (compute_and_extend_verification_measurement x g m signers source) branches ids)
    launch_shim is_shim branches' ids image

  -- The loop over the queue; when it is empty, the events that were put off take its place.
  unfoldable pub process_load_events :
      LoadEvents
      → ℕ
      → List SbLoadEventAndBranches
      → List SbLoadEventAndBranches
      → Branches
      → Result Branches
  process_load_events store zero [] [] branches = ok branches
  process_load_events store zero queue later branches = out_of_fuel
  process_load_events store (suc fuel) [] [] branches = ok branches
  process_load_events store (suc fuel) [] (entry ∷ later) branches =
      process_load_events store fuel (entry ∷ later) [] branches
  process_load_events store (suc fuel) ((e, ids) ∷ queue) later branches = do
    branches1 ←
        map_error (wrap "cannot process OS load event")
          (process_os_load_event branches ids (store e).source (store e).image)
    (branches2, more) ← follow bootable_at branches1 ids (store e).next
    process_load_events store fuel queue (later ++ more) branches2

  -- The first branches: the current databases, and those with each of the updates applied in turn.
  unfoldable pub roots_from :
      List Event
      → SecureBootVerificationEvent
      → List SecureBootDbUpdate
      → SigDbUpdateQuirkMode
      → ℕ
      → ℕ
      → Result Branches
  roots_from events initial updates quirk level zero = ok []
  roots_from events initial updates quirk level (suc n) = do
    b ← map_error (wrap "cannot process pre-OS events from event log") (
        process_pre_os_events m g files events initial (take level updates) quirk
          (first_branch level))
    more ← roots_from events initial updates quirk (suc level) n
    ok (b ∷ more)

  -- The end of `run`: the sub-profiles are joined, and those of the roots are added to the profile.
  unfoldable pub finish : ℕ → PcrProtectionProfile → Branches → Result PcrProtectionProfile
  finish roots q branches = do
    joined ← join_branches (length branches) branches
    (if valid_paths_for_current_db (take roots joined)
        then ok (with_profile_or q (root_profiles (take roots joined)))
        else err (message "no bootable paths with current EFI signature database"))

  unfoldable pub run :
      LoadEvents
      → ℕ
      → List Event
      → SecureBootVerificationEvent
      → List SecureBootDbUpdate
      → List ℕ
      → PcrProtectionProfile
      → SigDbUpdateQuirkMode
      → Result PcrProtectionProfile
  run store fuel events initial updates sequences q quirk = do
    roots ← roots_from events initial updates quirk 0 (suc (length updates))
    (branches, queue) ← follow (λ i bs. true) roots (places 0 (length roots)) sequences
    branches' ← process_load_events store fuel queue [] branches
    finish (length roots) q branches'

  -- `AddEFISecureBootPolicyProfile`, for a log that has been parsed and has the algorithm.
  unfoldable pub add_efi_secure_boot_policy_profile :
      LoadEvents
      → ℕ
      → KeySync
      → PcrProtectionProfile
      → List Event
      → List String
      → List ℕ
      → Result PcrProtectionProfile
  add_efi_secure_boot_policy_profile store fuel k q events keystores sequences = do
    check_events g events
    q1 ← with_pcr_value m.functions q m.alg secure_boot_pcr (zeros (m.functions.size m.alg))
    updates ←
        map_error (wrap "cannot build list of UEFI signature DB updates")
          (build_signature_db_update_list k keystores)
    initial ←
        map_error (wrap "cannot identify initial OS launch verification event")
          (identify_initial_os_launch_verification_event events)
    profile1 ←
        map_error (wrap "cannot compute secure boot policy profile")
          (run store fuel events initial updates sequences nil quirk_mode_none)
    profile2 ←
        map_error (wrap "cannot compute secure boot policy profile")
          (run store fuel events initial updates sequences nil quirk_mode_dedup_ignores_owner)
    ok (with_profile_or q1 (profile profile1 (profile profile2 no_profiles)))
