-- ===== src/SigDb/Database.antt =====
-- secureboot_policy.go: whole signature databases, and a database with an update appended.
use secboot.Prelude.{
  ℕ, zero, suc, ◌+◌, ◌%◌, ◌^◌, List, [], ◌∷◌, ◌++◌, Bool, true, false, ◌&&◌, ◌||◌, none, some, ◌==◌,
  if◌then◌else◌, length, drop, bytes_equal,
}
use secboot.Exec.{Result, ok, err, out_of_fuel, message, wrap, map_error}
use secboot.Exec.Results.{◌>>=◌, ◌>>◌}
use secboot.SigDb.{
  SignatureList, WinCertificate, win_certificate_authenticode, win_certificate_uefi_guid,
  decode_win_certificate, read_full, put_le32, next_signature_list,
}

pub record EfiSignatureData : Type 0 where
  pub signature_type : List ℕ
  pub owner : List ℕ
  pub contents : List ℕ

-- `efiSignatureData.encode`
unfoldable pub encode_signature : EfiSignatureData → List ℕ
encode_signature e = e.owner ++ e.contents

-- The inner loop of `decodeSecureBootDb`.
unfoldable pub decode_signatures : List ℕ → List (List ℕ) → Result (List EfiSignatureData)
decode_signatures signature_type [] = ok []
decode_signatures signature_type (sig ∷ sigs) = do
  (owner, contents) ←
      map_error (wrap "cannot decode EFI_SIGNATURE_DATA.SignatureOwner") (read_full 16 sig)
  more ← decode_signatures signature_type sigs
  ok (record { signature_type = signature_type; owner = owner; contents = contents } ∷ more)

unfoldable pub decode_lists : ℕ → List ℕ → Result (List EfiSignatureData)
decode_lists zero s = out_of_fuel
decode_lists (suc fuel) s = do
  next ← map_error (wrap "cannot obtain signature list") (next_signature_list s)
  elim next [
    | none ↦ ok []
    | some (l, rest) ↦ (do
      sigs ← decode_signatures l.signature_type l.signatures
      more ← decode_lists fuel rest
      ok (sigs ++ more))
  ]

unfoldable pub decode_secure_boot_db : List ℕ → Result (List EfiSignatureData)
decode_secure_boot_db s = decode_lists (suc (length s)) s

pub data SigDbUpdateQuirkMode : Type 0 where
  quirk_mode_none quirk_mode_dedup_ignores_owner : SigDbUpdateQuirkMode

-- Two EFI_SIGNATURE_DATA entries that the firmware takes for the same.
unfoldable pub same_signature : SigDbUpdateQuirkMode → List ℕ → List ℕ → Bool
same_signature quirk_mode_none sig update_sig = bytes_equal sig update_sig
same_signature quirk_mode_dedup_ignores_owner sig update_sig =
    bytes_equal (drop 16 sig) (drop 16 update_sig)

unfoldable pub has_signature : SigDbUpdateQuirkMode → List (List ℕ) → List ℕ → Bool
has_signature quirk [] update_sig = false
has_signature quirk (sig ∷ sigs) update_sig =
    same_signature quirk sig update_sig || has_signature quirk sigs update_sig

-- Whether one list of the database has an entry of the update.
unfoldable pub list_has : SigDbUpdateQuirkMode → List ℕ → List ℕ → SignatureList → Bool
list_has quirk update_type update_sig l =
    bytes_equal l.signature_type update_type && has_signature quirk l.signatures update_sig

-- The loop over the lists of the database, which stops at the first that has the entry; the
-- outcome is `!isNewSig`.
unfoldable pub in_database : ℕ → SigDbUpdateQuirkMode → List ℕ → List ℕ → List ℕ → Result Bool
in_database zero quirk update_type update_sig s = out_of_fuel
in_database (suc fuel) quirk update_type update_sig s = do
  next ← map_error (wrap "cannot obtain signature list from target") (next_signature_list s)
  elim next [
    | none ↦ ok false
    | some (l, rest) ↦
        let later = in_database fuel quirk update_type update_sig rest in
        if list_has quirk update_type update_sig l then ok true else later
  ]

-- The entries of one list of the update that the database does not have.
unfoldable pub new_signatures :
    SigDbUpdateQuirkMode → List ℕ → List ℕ → List (List ℕ) → Result (List (List ℕ))
new_signatures quirk orig update_type [] = ok []
new_signatures quirk orig update_type (update_sig ∷ update_sigs) = do
  old ← in_database (suc (length orig)) quirk update_type update_sig orig
  more ← new_signatures quirk orig update_type update_sigs
  ok (if old then more else update_sig ∷ more)

unfoldable pub flatten : List (List ℕ) → List ℕ
flatten [] = []
flatten (sig ∷ sigs) = sig ++ flatten sigs

-- `updateSigSize`, the size of the last entry that was written.
unfoldable pub last_size : ℕ → List (List ℕ) → ℕ
last_size n [] = n
last_size n (sig ∷ sigs) = last_size (length sig) sigs

-- The encoding of the entries that are kept of one list of the update.
unfoldable pub encode_list : List ℕ → List ℕ → List (List ℕ) → List ℕ
encode_list signature_type header sigs =
    if length (flatten sigs) == 0
    then []
    else signature_type
      ++ (put_le32 ((28 + length header + length (flatten sigs)) % 2 ^ 32)
          ++ (put_le32 (length header % 2 ^ 32)
              ++ (put_le32 (last_size 0 sigs % 2 ^ 32) ++ (header ++ flatten sigs))))

-- The loop over the lists of the update, with what is appended to the filtered update.
unfoldable pub filter_update : ℕ → SigDbUpdateQuirkMode → List ℕ → List ℕ → Result (List ℕ)
filter_update zero quirk orig s = out_of_fuel
filter_update (suc fuel) quirk orig s = do
  next ← map_error (wrap "cannot obtain signature list from update") (next_signature_list s)
  elim next [
    | none ↦ ok []
    | some (l, rest) ↦ (do
      sigs ← new_signatures quirk orig l.signature_type l.signatures
      more ← filter_update fuel quirk orig rest
      ok (encode_list l.signature_type l.signature_header sigs ++ more))
  ]

-- The checks of the certificate of an update; the GUID is a constant that the event log
-- package lays out.
unfoldable pub check_certificate : List ℕ → WinCertificate → Result (Unit {0})
check_certificate efi_cert_type_pkcs7_guid (win_certificate_authenticode contents) =
    err (message "update has invalid EFI_VARIABLE_AUTHENTICATION_2.AuthInfo.Hdr.wCertificateType")
check_certificate efi_cert_type_pkcs7_guid (win_certificate_uefi_guid cert_type contents) =
    if bytes_equal cert_type efi_cert_type_pkcs7_guid
    then ok tt
    else err
        (message "update has invalid value for EFI_VARIABLE_AUTHENTICATION_2.AuthInfo.CertType")

unfoldable pub compute_db_update : List ℕ → List ℕ → List ℕ → SigDbUpdateQuirkMode → Result (List ℕ)
compute_db_update efi_cert_type_pkcs7_guid orig update quirk = do
  (cert, size, body) ←
      map_error (wrap "cannot decode EFI_VARIABLE_AUTHENTICATION_2.AuthInfo field from update")
        (decode_win_certificate (drop 16 update))
  check_certificate efi_cert_type_pkcs7_guid cert
  filtered ← filter_update (suc (length body)) quirk orig body
  ok (orig ++ filtered)
