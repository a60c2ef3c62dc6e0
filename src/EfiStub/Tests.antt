-- ===== src/EfiStub/Tests.antt =====
-- A profile with two command lines, over a hash that counts bytes.
use secboot.Prelude.{◌%◌, Bool, true, ◌≡◌, refl, [], ◌∷◌, ◌++◌, length, pos}
use secboot.Exec.{ok, pure, ◌>>=◌}
use secboot.Exec.Results.{traverse}
use secboot.Tpm.{PcrFunctions, value_or_empty}
use secboot.Profile.{PcrProtectionProfile, nil, PcrReader, put_value}
use secboot.Profile.Compute.{compute_pcr_values}
use secboot.Profile.Variants.{each_extended}
use secboot.EfiStub.{
  StubEvents, cmdline_digest, add_systemd_efi_stub_profile, add_systemd_efi_stub_profile-computes,
}

abbrev counting : PcrFunctions
counting = record {
  size = λ _. 1;
  hash = λ _ bytes. length bytes % 256 ∷ [];
  set_value = put_value;
  selection_list = λ _. [];
  selection_equal = λ a b. true;
  compute_pcr_digest_simple = λ _ v. ([], value_or_empty v 4 8);
}

abbrev stub_events : StubEvents
stub_events = record { functions = counting; encode_measured_bytes = λ bytes. ok (bytes ++ 0 ∷ []) }

digests :
    traverse (cmdline_digest stub_events 4) ((97 ∷ []) ∷ (97 ∷ 98 ∷ []) ∷ [])
    ≡ ok ((2 ∷ []) ∷ (3 ∷ []) ∷ [])
unfolding traverse cmdline_digest
digests = refl

add_systemd_efi_stub_profile-computes_example :
    (p' : PcrProtectionProfile) × (add_systemd_efi_stub_profile stub_events
        (record {
          pcr_algorithm = 4;
          pcr_index = pos 8;
          kernel_cmdlines = (97 ∷ []) ∷ (97 ∷ 98 ∷ []) ∷ [];
        })
        nil
      ≡ (ok tt, p'))
    × ((r : PcrReader) (has_tpm : Bool) (s : r.State)
        → compute_pcr_values counting r has_tpm p' s
          ≡ (compute_pcr_values counting r has_tpm nil >>= λ values.
                pure (each_extended counting 4 8 ((2 ∷ []) ∷ (3 ∷ []) ∷ []) values))
              s)
add_systemd_efi_stub_profile-computes_example =
    add_systemd_efi_stub_profile-computes stub_events 4 (λ _. refl) 8 nil (97 ∷ [])
      ((97 ∷ 98 ∷ []) ∷ []) ((2 ∷ []) ∷ (3 ∷ []) ∷ []) digests
