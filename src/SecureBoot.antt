-- ===== src/SecureBoot.antt =====
-- secureboot_policy.go and efi.go: the branches of a secure boot policy, and what extends them.
pub mod Events
pub mod PreOs
pub mod Log
pub mod Updates
pub mod Authority
pub mod Images
pub mod Run
pub mod Generate
pub mod Measured
pub mod Search
pub mod Launch
pub mod Accepted
pub mod Ends
mod Tests
mod LoadTests
use secboot.Prelude.{
  ℕ, zero, suc, String, List, [], ◌∷◌, ◌++◌, Bool, true, false, not, ◌&&◌, ◌||◌, Option, none, some,
  ◌==◌, if◌then◌else◌, length, bytes_equal,
}
use secboot.Exec.{Error, Result, ok, err, panic, out_of_fuel, message, wrap, map_error, bind_result}
use secboot.Exec.Results.{◌>>=◌, ◌>>◌}
use secboot.Tpm.{Alg, Digest, PcrFunctions}
use secboot.Profile.{PcrProtectionProfile, with_extend_pcr, zeros}
use secboot.SigDb.Database.{EfiSignatureData}

abbrev pub Guid : Type 0
Guid = List ℕ

-- The GUIDs that the source makes with the event log package.
pub record EfiGuids : Type 0 where
  pub shim_guid : Guid
  pub efi_global_variable_guid : Guid
  pub efi_image_security_database_guid : Guid
  pub efi_cert_x509_guid : Guid
  pub efi_cert_type_pkcs7_guid : Guid

pub data EfiImageLoadEventSource : Type 0 where
  firmware shim : EfiImageLoadEventSource

abbrev pub boot_manager_code_pcr : ℕ
boot_manager_code_pcr = 4

abbrev pub secure_boot_pcr : ℕ
secure_boot_pcr = 7

-- A signature database, by the variable that it is measured as.
pub record SecureBootDb : Type 0 where
  pub variable_name : Guid
  pub unicode_name : String
  pub signatures : List EfiSignatureData

pub record SecureBootDbSet : Type 0 where
  pub uefi_db : Option SecureBootDb
  pub mok_db : Option SecureBootDb
  pub shim_db : Option SecureBootDb

-- A branch; `profile` is `none` when no load sequence of the branch can boot, and the sub-branches
-- are known by their places among all branches.
pub record SecureBootPolicyGenBranch : Type 0 where
  pub profile : Option PcrProtectionProfile
  pub sub_branches : List ℕ
  pub db_update_level : ℕ
  pub db_set : SecureBootDbSet
  pub firmware_verification_events : List Digest
  pub shim_verification_events : List Digest

-- The algorithm, and the hash of an EFI_VARIABLE_DATA that the event log package encodes.
pub record Measuring : Type 0 where
  pub alg : Alg
  pub functions : PcrFunctions
  pub hash_variable : Guid → String → List ℕ → Result Digest

unfoldable pub extend_profile :
    Measuring → Option PcrProtectionProfile → Digest → Result PcrProtectionProfile
extend_profile m none digest = panic
extend_profile m (some p) digest = with_extend_pcr m.functions p m.alg secure_boot_pcr digest

-- `extendMeasurement`
unfoldable pub extend_measurement :
    Measuring → SecureBootPolicyGenBranch → Digest → Result SecureBootPolicyGenBranch
extend_measurement m b digest =
    if length b.sub_branches == 0
    then (do p ← extend_profile m b.profile digest; ok (record b { profile = some p }))
    else panic

-- The events that a source has recorded, and one more.
unfoldable pub events_of : EfiImageLoadEventSource → SecureBootPolicyGenBranch → List Digest
events_of firmware b = b.firmware_verification_events
events_of shim b = b.shim_verification_events

unfoldable pub with_event :
    EfiImageLoadEventSource → SecureBootPolicyGenBranch → Digest → SecureBootPolicyGenBranch
with_event firmware b digest = record b {
  firmware_verification_events = b.firmware_verification_events ++ digest ∷ [];
}
with_event shim b digest = record b {
  shim_verification_events = b.shim_verification_events ++ digest ∷ [];
}

unfoldable pub extend_verification_measurement :
    Measuring
    → SecureBootPolicyGenBranch
    → Digest
    → EfiImageLoadEventSource
    → Result SecureBootPolicyGenBranch
extend_verification_measurement m b digest source =
    extend_measurement m (with_event source b digest) digest

unfoldable pub extend_firmware_verification_measurement :
    Measuring → SecureBootPolicyGenBranch → Digest → Result SecureBootPolicyGenBranch
extend_firmware_verification_measurement m b digest =
    extend_verification_measurement m b digest firmware

unfoldable pub compute_and_extend_variable_measurement :
    Measuring
    → SecureBootPolicyGenBranch
    → Guid
    → String
    → List ℕ
    → Result SecureBootPolicyGenBranch
compute_and_extend_variable_measurement m b name unicode_name contents = do
  digest ←
      map_error (wrap "cannot encode EFI_VARIABLE_DATA")
        (m.hash_variable name unicode_name contents)
  extend_measurement m b digest

unfoldable pub contains_digest : List Digest → Digest → Bool
contains_digest [] digest = false
contains_digest (d ∷ digests) digest = bytes_equal d digest || contains_digest digests digest

unfoldable pub has_verification_event_been_measured_by :
    SecureBootPolicyGenBranch → Digest → EfiImageLoadEventSource → Bool
has_verification_event_been_measured_by b digest source =
    contains_digest (events_of source b) digest

-- `processShimExecutableLaunch` of a branch, where a vendor certificate may be missing.
unfoldable pub vendor_signatures : EfiGuids → Option (List ℕ) → List EfiSignatureData
vendor_signatures g none = []
vendor_signatures g (some cert) =
    record { signature_type = g.efi_cert_x509_guid; owner = zeros 16; contents = cert } ∷ []

unfoldable pub process_shim_executable_launch :
    EfiGuids → Option (List ℕ) → SecureBootPolicyGenBranch → SecureBootPolicyGenBranch
process_shim_executable_launch g vendor_cert b = record b {
  db_set = record (b.db_set) {
    shim_db = some (record {
      variable_name = g.shim_guid;
      unicode_name = "Shim";
      signatures = vendor_signatures g vendor_cert;
    });
  };
  shim_verification_events = [];
}
