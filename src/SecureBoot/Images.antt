-- ===== src/SecureBoot/Images.antt =====
-- secureboot_policy.go: what is read from an EFI image. Its signatures, and shim's certificate.
use secboot.Prelude.{
  ℕ, zero, suc, ◌+◌, ◌-◌, ◌%◌, List, [], ◌∷◌, Bool, true, false, Option, none, some, ◌==◌, leb,
  if◌then◌else◌, take, drop, get_elem?,
}
use secboot.Exec.{Result, ok, err, out_of_fuel, message, wrap, map_error}
use secboot.Exec.Results.{◌>>=◌}
use secboot.SigDb.{
  WinCertificate, win_certificate_authenticode, win_certificate_uefi_guid, decode_win_certificate,
  read_u32,
}
use secboot.SecureBoot.Authority.{X509}

-- Images by number, and what the PE parser finds in them: the bytes of the section `.vendor_cert`,
-- if there is one, and the address and the size of each data directory, if there is an optional header.
pub record EfiImages : Type 0 where
  pub open_image : ℕ → Result (Unit {0})
  pub contents : ℕ → List ℕ
  pub vendor_section : ℕ → Result (Option (List ℕ))
  pub data_directories : ℕ → Result (Option (List (ℕ × ℕ)))

-- What is used of the pkcs7 package.
pub record Pkcs7 (x : X509) : Type 1 where
  pub Signed : Type 0
  pub parse : List ℕ → Result Signed
  pub get_only_signer : Signed → Option (X509.Certificate x)
  pub first_signer_has_sha256 : Signed → Bool

-- `isShimExecutable`
unfoldable pub is_some : {A : Type 0} → Option A → Bool
is_some none = false
is_some (some a) = true

unfoldable pub is_shim_executable : EfiImages → ℕ → Result Bool
is_shim_executable images image = do
  section ← map_error (wrap "cannot decode PE binary") (images.vendor_section image)
  ok (is_some section)

-- The certificate behind the table at the start of the section; a size of zero means that there is none.
unfoldable pub read_cert_table : List ℕ → Result (Option (List ℕ))
read_cert_table section = do
  (cert_size, rest) ← map_error (wrap "cannot read vendor cert size") (read_u32 (take 16 section))
  (if cert_size == 0 then ok none else (do
    (cert_offset, rest') ←
        map_error (wrap "cannot read vendor cert offset") (read_u32 (drop 4 rest))
    ok (some (take cert_size (drop cert_offset section)))))

unfoldable pub vendor_cert_of : Option (List ℕ) → Result (Option (List ℕ))
vendor_cert_of none = err (message "missing .vendor_cert section")
vendor_cert_of (some section) = read_cert_table section

unfoldable pub read_shim_vendor_cert : EfiImages → ℕ → Result (Option (List ℕ))
read_shim_vendor_cert images image = do
  section ← map_error (wrap "cannot decode PE binary") (images.vendor_section image)
  vendor_cert_of section

-- The entry for the certificate table.
unfoldable pub security_directory : Option (List (ℕ × ℕ)) → Result (ℕ × ℕ)
security_directory none =
    err (message "cannot obtain security directory entry from PE binary: no optional header")
security_directory (some directories) = elim (get_elem? directories 4) [
  | none ↦ err (
      message
        "cannot obtain security directory entry from PE binary: invalid number of data directories")
  | some entry ↦ ok entry
]

-- `alignSize`
unfoldable pub align_size : ℕ → ℕ
align_size read = (8 - read % 8) % 8

unfoldable pub authenticode_contents : WinCertificate → Result (List ℕ)
authenticode_contents (win_certificate_authenticode contents) = ok contents
authenticode_contents (win_certificate_uefi_guid cert_type contents) =
    err (
      message
        "unexpected value for WIN_CERTIFICATE.wCertificateType: not an Authenticode signature")

module _ (x : X509) (p : Pkcs7 x) where
  unfoldable pub checked_signer :
      Pkcs7.Signed p → Option (X509.Certificate x) → Result (X509.Certificate x)
  checked_signer signed none = err (message "cannot obtain signer certificate from signature")
  checked_signer signed (some signer) =
      if p.first_signer_has_sha256 signed
      then ok signer
      else err (message "signature has unexpected digest algorithm")

  -- One WIN_CERTIFICATE: its signer and its length.
  unfoldable pub read_signer : List ℕ → Result (X509.Certificate x × ℕ)
  read_signer s = do
    (c, n, rest) ←
        map_error (wrap "cannot decode WIN_CERTIFICATE from security directory entry of PE binary")
          (decode_win_certificate s)
    contents ← authenticode_contents c
    signed ← map_error (wrap "cannot decode signature") (p.parse contents)
    signer ← checked_signer signed (p.get_only_signer signed)
    ok (signer, n)

  -- The loop over the certificate table, from the place that has been read to. `size` is the size
  -- of the table as the directory has it; the bytes may end before.
  unfoldable pub read_signers : ℕ → ℕ → ℕ → List ℕ → Result (List (X509.Certificate x))
  read_signers zero size read table = out_of_fuel
  read_signers (suc fuel) size read table = elim (leb size (read + align_size read)) [
    | true ↦ ok []
    | false ↦ (do
      (signer, n) ← read_signer (drop (read + align_size read) table)
      more ← read_signers fuel size (read + align_size read + n) table
      ok (signer ∷ more))
  ]

  unfoldable pub some_signers : List (X509.Certificate x) → Result (List (X509.Certificate x))
  some_signers [] = err (message "no Authenticode signatures")
  some_signers (signer ∷ signers) = ok (signer ∷ signers)

  -- The signers of an image, as `computeAndExtendVerificationMeasurement` of the generator collects them.
  unfoldable pub image_signers : EfiImages → ℕ → Result (List (X509.Certificate x))
  image_signers images image = do
    directories ← map_error (wrap "cannot decode PE binary") (images.data_directories image)
    (address, size) ← security_directory directories
    signers ← read_signers (suc size) size 0 (take size (drop address (images.contents image)))
    some_signers signers
