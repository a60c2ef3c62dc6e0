-- ===== src/SecureBoot/LoadTests.antt =====
-- A shim that loads one of two boot loaders, and a boot loader that loads itself.
use secboot.Prelude.{
  arith, ◌≢◌, ℕ, zero, suc, Bool, ◌&&◌, List, [], ◌∷◌, true, false, ◌≡◌, refl, Option, none, some,
  ◌==◌, length, bytes_equal, get_elem?,
}
use secboot.Exec.{Result, ok, out_of_fuel}
use secboot.Exec.Results.{Finishes-ok}
use secboot.Profile.{with_extend_pcr, append_instr}
use secboot.SigDb.Database.{encode_signature}
use secboot.SecureBoot.{
  firmware, shim, extend_profile, extend_measurement, events_of, with_event,
  extend_verification_measurement, contains_digest, process_shim_executable_launch,
  vendor_signatures, has_verification_event_been_measured_by,
}
use secboot.SecureBoot.Authority.{
  databases, shim_databases, trusts, authenticates, find_in_signatures, find_in_dbs, or_later,
  find_authority, authority_bytes, authority_digest, measure_once, measure_authority, with_profile,
  compute_and_extend_verification_measurement,
}
use secboot.SecureBoot.PreOs.{EfiFiles}
use secboot.SecureBoot.Images.{
  EfiImages, Pkcs7, is_shim_executable, image_signers, security_directory, read_signers, align_size,
  read_signer, authenticode_contents, checked_signer, some_signers, is_some, read_cert_table,
  read_shim_vendor_cert, vendor_cert_of,
}
use secboot.SecureBoot.Run.{
  branch, branch_each, branch_of, fork, is_bootable, new_branch, on_branch, on_branches,
  with_sub_branch, Branches, bootable_at, follow, LoadEvents,
}
use secboot.SecureBoot.Generate.{process_load_events, process_os_load_event, launch_shim}
use secboot.SecureBoot.Ends.{Returns}
use secboot.SecureBoot.Ends.Below.{total, AllBelow, IsAcyclic, met_within, met_from}
use secboot.SecureBoot.Ends.Cycle.{process_load_events-own_next}
use secboot.SecureBoot.Ends.Loads.{Finishes-process_load_events}
use secboot.SigDb.{
  decode_win_certificate, read_full, le16, decode_authenticode, checked_sub, le32, read_u32,
}
use secboot.SecureBoot.Tests.{guids, measuring, numbers, before}

abbrev toy_pkcs7 : Pkcs7 numbers
toy_pkcs7 = record {
  Signed = List ℕ;
  parse = λ bytes. ok bytes;
  get_only_signer = λ bytes. get_elem? bytes 0;
  first_signer_has_sha256 = λ s. true;
}

-- Each image has one signature, by 12. Image 0 is a shim with a vendor certificate table that has
-- no certificate.
abbrev section_of : ℕ → Option (List ℕ)
section_of zero = some (0 ∷ 0 ∷ 0 ∷ 0 ∷ 0 ∷ 0 ∷ 0 ∷ 0 ∷ 0 ∷ 0 ∷ 0 ∷ 0 ∷ 0 ∷ 0 ∷ 0 ∷ 0 ∷ [])
section_of (suc i) = none

abbrev toy_images : EfiImages
toy_images = record {
  open_image = λ i. ok tt;
  contents = λ i. 9 ∷ 0 ∷ 0 ∷ 0 ∷ 0 ∷ 2 ∷ 2 ∷ 0 ∷ 12 ∷ [];
  vendor_section = λ i. ok (section_of i);
  data_directories = λ i. ok (some ((0, 0) ∷ (0, 0) ∷ (0, 0) ∷ (0, 0) ∷ (0, 9) ∷ []));
}

abbrev toy_files : EfiFiles
toy_files = record { read_variable = λ name. ok none; read_update = λ path. ok [] }

returns : Returns measuring numbers toy_pkcs7 toy_images
returns = record {
  opens = λ i. Finishes-ok tt;
  finds_section = λ i. Finishes-ok (section_of i);
  finds_directories = λ i. Finishes-ok _;
  parses = λ bytes. Finishes-ok bytes;
  hashes = λ n name bytes. Finishes-ok (length bytes ∷ []);
}

-- Shim loads one of two boot loaders.
abbrev loads_shim : LoadEvents
loads_shim zero = record { source = firmware; image = 0; next = 1 ∷ 2 ∷ [] }
loads_shim (suc i) = record { source = shim; image = suc i; next = [] }

abbrev place_height : ℕ → ℕ
place_height zero = 1
place_height (suc i) = 0

loads_shim-IsAcyclic : IsAcyclic loads_shim place_height
unfolding AllBelow
loads_shim-IsAcyclic zero = (omega arith, (omega arith, tt))
loads_shim-IsAcyclic (suc i) = tt

follows :
    follow (λ i branches. true) (before ∷ []) (0 ∷ []) (0 ∷ []) ≡ ok (before ∷ [], (0, 0 ∷ []) ∷ [])
unfolding follow
follows = refl

three_loads : total (met_from loads_shim place_height) (0 ∷ []) ≡ 3
unfolding total met_within
three_loads = refl

Finishes-process_load_events_example :
    process_load_events measuring guids toy_files numbers toy_pkcs7 toy_images loads_shim 6
      ((0, 0 ∷ []) ∷ [])
      []
      (before ∷ [])
    ≢ out_of_fuel
Finishes-process_load_events_example =
    Finishes-process_load_events measuring guids toy_files numbers toy_pkcs7 toy_images returns
      loads_shim place_height loads_shim-IsAcyclic (λ i branches. true) (0 ∷ []) (before ∷ [])
      (before ∷ []) (0 ∷ []) ((0, 0 ∷ []) ∷ []) 6 follows (omega (arith, three_loads))

-- The run of the example is one that goes through: both boot loaders can boot, each in a branch
-- that has two measurements by the firmware and by shim.
abbrev loads_done : Result Branches → Bool
loads_done (ok branches) = bootable_at 1 branches && bootable_at 2 branches && length branches == 3
loads_done r = false

loads_succeed :
    loads_done (
      process_load_events measuring guids toy_files numbers toy_pkcs7 toy_images loads_shim 6
        ((0, 0 ∷ []) ∷ [])
        []
        (before ∷ []))
    ≡ true
unfolding process_load_events process_os_load_event is_shim_executable image_signers
    security_directory read_signers align_size read_signer decode_win_certificate read_full le16
    decode_authenticode checked_sub le32 authenticode_contents checked_signer some_signers
    bytes_equal append_instr with_extend_pcr authenticates authority_bytes authority_digest
    compute_and_extend_verification_measurement databases find_authority find_in_dbs
    find_in_signatures measure_authority measure_once or_later shim_databases trusts with_profile
    launch_shim is_some read_cert_table read_shim_vendor_cert vendor_cert_of bootable_at branch
    branch_each branch_of follow fork is_bootable new_branch on_branch on_branches with_sub_branch
    contains_digest events_of extend_measurement extend_profile extend_verification_measurement
    has_verification_event_been_measured_by process_shim_executable_launch vendor_signatures
    with_event encode_signature read_u32
loads_succeed = refl

-- A boot loader that can only load itself.
abbrev loads_itself : LoadEvents
loads_itself i = record { source = firmware; image = 1; next = i ∷ [] }

process_load_events-own_next_example :
    process_load_events measuring guids toy_files numbers toy_pkcs7 toy_images loads_itself 100
      ((0, 0 ∷ []) ∷ [])
      []
      (before ∷ [])
    ≢ ok (before ∷ [])
process_load_events-own_next_example =
    process_load_events-own_next measuring guids toy_files numbers toy_pkcs7 toy_images loads_itself
      0 refl 100 (0 ∷ []) (before ∷ []) (before ∷ [])
