-- ===== src/SecureBoot/Tests.antt =====
-- An image signed by 11, and a database with a certificate that is 11 and one that vouches for 12.
use secboot.Prelude.{
  ◌≢◌, ℕ, ◌+◌, List, [], ◌∷◌, ◌++◌, true, false, ◌≡◌, refl, Option, none, some, ◌==◌, length,
  bytes_equal,
}
use secboot.Exec.{ok}
use secboot.Tpm.{PcrFunctions, value_or_empty}
use secboot.Profile.{nil, cons, extend_pcr, put_value, with_extend_pcr, append_instr}
use secboot.SigDb.Database.{EfiSignatureData, encode_signature}
use secboot.SecureBoot.{
  EfiGuids, firmware, SecureBootDb, SecureBootDbSet, SecureBootPolicyGenBranch, Measuring,
  extend_profile, extend_measurement, events_of, with_event, extend_verification_measurement,
  contains_digest, has_verification_event_been_measured_by,
}
use secboot.SecureBoot.Events.{
  EventType, separator, efi_boot_services_application, efi_variable_authority,
  efi_variable_driver_config, efi_variable_data, is_driver_config, other_data, Event, is_separator,
  is_application, is_authority, launched, ends_pre_os, is_os_load, is_verification_event,
  identify_initial_os_launch_verification_event,
}
use secboot.SecureBoot.Authority.{
  X509, databases, trusts, authenticates, find_in_signatures, find_in_dbs, or_later, find_authority,
  authority_bytes, authority_digest, measure_once, measure_authority, with_profile,
  compute_and_extend_verification_measurement,
}
use secboot.SecureBoot.Measured.{compute_and_extend_verification_measurement_idem}
use secboot.SecureBoot.Search.{candidates, first_authentic, find_authority-first_authentic}
use secboot.SecureBoot.Log.{
  check_events, check_event, check_driver_config, check_authority, first_is_zero,
}
use secboot.SecureBoot.Accepted.{StartsNonzero, check_events-enabled, check_events-validated}
use secboot.SecureBoot.Launch.{any, or_before, last_verification, identify-launched}

abbrev pub guids : EfiGuids
guids = record {
  shim_guid = 1 ∷ [];
  efi_global_variable_guid = 2 ∷ [];
  efi_image_security_database_guid = 3 ∷ [];
  efi_cert_x509_guid = 4 ∷ [];
  efi_cert_type_pkcs7_guid = 5 ∷ [];
}

-- A certificate is a number, encoded in one byte; each vouches for the next.
abbrev parse_one : List ℕ → Option ℕ
parse_one [] = none
parse_one (b ∷ bytes) = some b

abbrev pub numbers : X509
numbers = record {
  Certificate = ℕ;
  parse_certificate = parse_one;
  raw = λ c. c ∷ [];
  check_signature_from = λ c d. c == d + 1;
}

abbrev toy : PcrFunctions
toy = record {
  size = λ _. 1;
  hash = λ _ bytes. bytes;
  set_value = put_value;
  selection_list = λ _. [];
  selection_equal = λ a b. true;
  compute_pcr_digest_simple = λ _ v. ([], value_or_empty v 4 7);
}

abbrev pub measuring : Measuring
measuring = record {
  alg = 4;
  functions = toy;
  hash_variable = λ g name contents. ok (length contents ∷ []);
}

abbrev cert : ℕ → EfiSignatureData
cert n = record { signature_type = 4 ∷ []; owner = []; contents = n ∷ [] }

abbrev db : SecureBootDb
db = record { variable_name = 3 ∷ []; unicode_name = "db"; signatures = cert 20 ∷ cert 11 ∷ [] }

abbrev db_set : SecureBootDbSet
db_set = record { uefi_db = some db; mok_db = none; shim_db = none }

abbrev pub before : SecureBootPolicyGenBranch
before = record {
  profile = some nil;
  sub_branches = [];
  db_update_level = 0;
  db_set = db_set;
  firmware_verification_events = [];
  shim_verification_events = [];
}

abbrev after : SecureBootPolicyGenBranch
after = record before {
  profile = some (cons (extend_pcr 4 7 (1 ∷ [])) nil);
  firmware_verification_events = (1 ∷ []) ∷ [];
}

measured :
    compute_and_extend_verification_measurement numbers guids measuring (12 ∷ []) firmware before
    ≡ ok after
unfolding compute_and_extend_verification_measurement with_profile databases find_authority
    find_in_dbs find_in_signatures authenticates trusts or_later measure_authority authority_digest
    authority_bytes measure_once has_verification_event_been_measured_by contains_digest events_of
    with_event extend_verification_measurement extend_measurement extend_profile with_extend_pcr
    append_instr bytes_equal encode_signature
measured = refl

compute_and_extend_verification_measurement_idem_example :
    compute_and_extend_verification_measurement numbers guids measuring (12 ∷ []) firmware after
    ≡ ok after
compute_and_extend_verification_measurement_idem_example =
    compute_and_extend_verification_measurement_idem numbers guids measuring (12 ∷ []) firmware
      before after measured

find_authority-first_authentic_example :
    find_authority numbers guids (7 ∷ 12 ∷ []) (none ∷ some db ∷ [])
    ≡ first_authentic numbers guids (candidates numbers guids (7 ∷ 12 ∷ []) (none ∷ some db ∷ []))
find_authority-first_authentic_example =
    find_authority-first_authentic numbers guids (7 ∷ 12 ∷ []) (none ∷ some db ∷ [])

abbrev event_at : ℕ → ℕ → EventType → Event
event_at i pcr t = record {
  address = i;
  index = i;
  pcr_index = pcr;
  event_type = t;
  digests = λ alg. i ∷ [];
  event_data = other_data "";
}

abbrev driver : Event
driver = event_at 1 7 efi_variable_authority

abbrev grub : Event
grub = event_at 4 7 efi_variable_authority

none_before : any ends_pre_os (driver ∷ event_at 2 7 separator ∷ []) ≡ false
unfolding any ends_pre_os is_separator
none_before = refl

ends_at_separator : ends_pre_os (event_at 3 0 separator) ≡ true
unfolding ends_pre_os is_separator
ends_at_separator = refl

none_loaded : any (is_os_load false) (event_at 5 1 separator ∷ grub ∷ []) ≡ false
unfolding any is_os_load is_application
none_loaded = refl

loads : is_os_load false (event_at 6 4 efi_boot_services_application) ≡ true
unfolding is_os_load is_application
loads = refl

-- A driver is verified before the separators, the boot loader after them.
identify-launched_example :
    identify_initial_os_launch_verification_event (
      (driver ∷ event_at 2 7 separator ∷ [])
      ++ (event_at 3 0 separator
          ∷ ((event_at 5 1 separator ∷ grub ∷ [])
              ++ (event_at 6 4 efi_boot_services_application ∷ driver ∷ []))))
    ≡ launched (
        or_before
          (last_verification false (event_at 5 1 separator ∷ grub ∷ []))
          (last_verification true (driver ∷ event_at 2 7 separator ∷ [])))
identify-launched_example =
    identify-launched (driver ∷ event_at 2 7 separator ∷ []) (event_at 5 1 separator ∷ grub ∷ [])
      (driver ∷ []) (event_at 3 0 separator) (event_at 6 4 efi_boot_services_application)
      none_before ends_at_separator none_loaded loads

grub_identified :
    launched (
      or_before
        (last_verification false (event_at 5 1 separator ∷ grub ∷ []))
        (last_verification true (driver ∷ event_at 2 7 separator ∷ [])))
    ≡ ok (record { event = grub; measured_in_pre_os = false })
unfolding launched or_before last_verification is_verification_event is_authority
grub_identified = refl

abbrev secure_boot_event : Event
secure_boot_event = record {
  address = 9;
  index = 0;
  pcr_index = 7;
  event_type = efi_variable_driver_config;
  digests = λ alg. [];
  event_data = efi_variable_data (2 ∷ []) "SecureBoot" (1 ∷ []);
}

abbrev kek_event : Event
kek_event = record secure_boot_event { index = 1; event_data = efi_variable_data (2 ∷ []) "KEK" [] }

accepted : check_events guids (event_at 8 0 separator ∷ secure_boot_event ∷ kek_event ∷ []) ≡ ok tt
unfolding check_events check_event is_driver_config is_authority check_driver_config check_authority
    first_is_zero bytes_equal
accepted = refl

check_events-enabled_example : (◌≡◌ {A = ℕ} 0 0) × StartsNonzero (1 ∷ [])
check_events-enabled_example =
    check_events-enabled guids (event_at 8 0 separator ∷ []) (kek_event ∷ []) 9 0 (λ alg. [])
      (1 ∷ []) accepted

check_events-validated_example :
    check_events guids (
      secure_boot_event
      ∷ record {
        address = 10;
        index = 4;
        pcr_index = 7;
        event_type = efi_variable_authority;
        digests = λ alg. [];
        event_data = efi_variable_data (1 ∷ []) "MokSBState" (1 ∷ []);
      }
      ∷ [])
    ≢ ok tt
check_events-validated_example =
    check_events-validated guids (secure_boot_event ∷ []) [] 10 4 (λ alg. []) (1 ∷ [])
