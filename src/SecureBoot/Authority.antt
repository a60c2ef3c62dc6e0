-- ===== src/SecureBoot/Authority.antt =====
-- secureboot_policy.go: the authority that authenticates an image, and its measurement in a branch.
use secboot.Prelude.{
  ℕ, List, [], ◌∷◌, Bool, false, ◌&&◌, ◌||◌, Option, none, some, if◌then◌else◌, bytes_equal,
}
use secboot.Exec.{Result, ok, err, message, wrap, map_error}
use secboot.Exec.Results.{◌>>=◌}
use secboot.Tpm.{Digest}
use secboot.SigDb.Database.{EfiSignatureData, encode_signature}
use secboot.SecureBoot.{
  EfiGuids, EfiImageLoadEventSource, firmware, shim, SecureBootDb, SecureBootDbSet,
  SecureBootPolicyGenBranch, Measuring, extend_verification_measurement,
  has_verification_event_been_measured_by,
}

-- What is used of crypto/x509.
pub record X509 : Type 1 where
  pub Certificate : Type 0
  pub parse_certificate : List ℕ → Option Certificate
  pub raw : Certificate → List ℕ
  pub check_signature_from : Certificate → Certificate → Bool

pub record SecureBootAuthority : Type 0 where
  pub signature : EfiSignatureData
  pub source : SecureBootDb

unfoldable pub or_later :
    Option SecureBootAuthority → Option SecureBootAuthority → Option SecureBootAuthority
or_later (some a) later = some a
or_later none later = later

unfoldable pub shim_databases :
    SecureBootDbSet → Option SecureBootDb → Result (List (Option SecureBootDb))
shim_databases set none = err (
    message
      "shim specified as event source without a shim executable appearing in preceding events")
shim_databases set (some db) = ok (set.uefi_db ∷ set.mok_db ∷ some db ∷ [])

-- The databases that a source looks through, in order.
unfoldable pub databases :
    EfiImageLoadEventSource → SecureBootDbSet → Result (List (Option SecureBootDb))
databases firmware set = ok (set.uefi_db ∷ [])
databases shim set = shim_databases set set.shim_db

-- What is measured of the authority.
unfoldable pub authority_bytes : EfiImageLoadEventSource → EfiSignatureData → List ℕ
authority_bytes firmware sig = encode_signature sig
authority_bytes shim sig = sig.contents

unfoldable pub authority_digest :
    Measuring → EfiImageLoadEventSource → SecureBootAuthority → Result Digest
authority_digest m source a = map_error (wrap "cannot encode EFI_VARIABLE_DATA") (
    m.hash_variable a.source.variable_name a.source.unicode_name
      (authority_bytes source a.signature))

unfoldable pub measure_once :
    Measuring
    → SecureBootPolicyGenBranch
    → EfiImageLoadEventSource
    → Digest
    → Result SecureBootPolicyGenBranch
measure_once m b source digest =
    if has_verification_event_been_measured_by b digest source
    then ok b
    else extend_verification_measurement m b digest source

-- The end of `computeAndExtendVerificationMeasurement`, from the search's outcome on.
unfoldable pub measure_authority :
    Measuring
    → SecureBootPolicyGenBranch
    → EfiImageLoadEventSource
    → Option SecureBootAuthority
    → Result SecureBootPolicyGenBranch
measure_authority m b source none = ok (record b { profile = none })
measure_authority m b source (some a) = do
  digest ← authority_digest m source a
  measure_once m b source digest

unfoldable pub with_profile :
    {A : Type 0}
    → Option A
    → SecureBootPolicyGenBranch
    → Result SecureBootPolicyGenBranch
    → Result SecureBootPolicyGenBranch
with_profile none b rest = ok b
with_profile (some p) b rest = rest

module _ (x : X509) (g : EfiGuids) where
  -- Whether a certificate of a database authenticates the signer, directly.
  unfoldable pub trusts : X509.Certificate x → Option (X509.Certificate x) → Bool
  trusts signer none = false
  trusts signer (some ca) =
      bytes_equal (x.raw ca) (x.raw signer) || x.check_signature_from signer ca

  unfoldable pub authenticates : X509.Certificate x → EfiSignatureData → Bool
  authenticates signer ca_sig =
      bytes_equal ca_sig.signature_type g.efi_cert_x509_guid
      && trusts signer (x.parse_certificate ca_sig.contents)

  -- The loop over the signatures of one database.
  unfoldable pub find_in_signatures :
      X509.Certificate x → SecureBootDb → List EfiSignatureData → Option SecureBootAuthority
  find_in_signatures signer db [] = none
  find_in_signatures signer db (ca_sig ∷ sigs) =
      let later = find_in_signatures signer db sigs in
      if authenticates signer ca_sig
      then some (record { signature = ca_sig; source = db })
      else later

  -- The loop over the databases, of which some may be nil.
  unfoldable pub find_in_dbs :
      X509.Certificate x → List (Option SecureBootDb) → Option SecureBootAuthority
  find_in_dbs signer [] = none
  find_in_dbs signer (none ∷ dbs) = find_in_dbs signer dbs
  find_in_dbs signer (some db ∷ dbs) =
      or_later (find_in_signatures signer db db.signatures) (find_in_dbs signer dbs)

  -- The outer loop, over the signers of the image.
  unfoldable pub find_authority :
      List (X509.Certificate x) → List (Option SecureBootDb) → Option SecureBootAuthority
  find_authority [] dbs = none
  find_authority (signer ∷ signers) dbs =
      or_later (find_in_dbs signer dbs) (find_authority signers dbs)

  -- `computeAndExtendVerificationMeasurement` of a branch.
  unfoldable pub compute_and_extend_verification_measurement :
      Measuring
      → List (X509.Certificate x)
      → EfiImageLoadEventSource
      → SecureBootPolicyGenBranch
      → Result SecureBootPolicyGenBranch
  compute_and_extend_verification_measurement m signers source b = with_profile b.profile b (do
    dbs ← databases source b.db_set
    measure_authority m b source (find_authority signers dbs))
