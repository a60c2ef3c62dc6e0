-- ===== src/SigDb/Tests.antt =====
-- A database with two certificates, and an update with one of them and a new one.
use secboot.Prelude.{
  ℕ, zero, suc, ◌<◌, ◌^◌, ◌≡◌, refl, List, [], ◌∷◌, ◌++◌, length, drop, bytes_equal, arith,
}
use secboot.Exec.{ok, panic}
use secboot.SigDb.{
  win_certificate_authenticode, win_certificate_uefi_guid, decode_win_certificate, decode_uefi_guid,
  checked_sub, read_full, le16, le32, put_le32, read_u32, number_of_signatures, read_signatures,
  read_entries, read_list, next_signature_list,
}
use secboot.SigDb.Database.{
  EfiSignatureData, quirk_mode_none, quirk_mode_dedup_ignores_owner, decode_signatures,
  decode_lists, decode_secure_boot_db, encode_list, flatten, last_size, same_signature,
  has_signature, list_has, in_database, new_signatures, filter_update, check_certificate,
  compute_db_update,
}
use secboot.SigDb.Decoded.{entry}
use secboot.SigDb.Applied.{known, new_entries, same_entry}
use secboot.SigDb.Outcome.{compute_db_update-decode_secure_boot_db, compute_db_update_idem}
use secboot.SigDb.Certificates.{
  authenticode_header, decode_win_certificate-panic, decode_win_certificate-authenticode_header,
}

abbrev repeat : ℕ → ℕ → List ℕ
repeat zero b = []
repeat (suc n) b = b ∷ repeat n b

abbrev x509 : List ℕ
x509 = repeat 16 161

abbrev signature_of : ℕ → ℕ → List ℕ
signature_of owner cert = repeat 16 owner ++ (cert ∷ cert ∷ [])

abbrev pkcs7 : List ℕ
pkcs7 = repeat 16 157

abbrev database : List ℕ
database = encode_list x509 [] (signature_of 1 50 ∷ signature_of 1 51 ∷ [])

abbrev body : List ℕ
body = encode_list x509 [] (signature_of 2 51 ∷ signature_of 1 51 ∷ signature_of 2 52 ∷ [])

abbrev update : List ℕ
update =
    repeat 16 0 ++ (put_le32 27 ++ (0 ∷ 2 ∷ 241 ∷ 14 ∷ []) ++ (pkcs7 ++ ((7 ∷ 8 ∷ 9 ∷ []) ++ body)))

update_signed :
    decode_win_certificate (drop 16 update)
    ≡ ok (win_certificate_uefi_guid pkcs7 (7 ∷ 8 ∷ 9 ∷ []), 27, body)
unfolding decode_win_certificate decode_uefi_guid checked_sub read_full le16 le32 put_le32
    encode_list flatten last_size
update_signed = refl

abbrev database_entries : List EfiSignatureData
database_entries = entry x509 (signature_of 1 50) ∷ entry x509 (signature_of 1 51) ∷ []

abbrev body_entries : List EfiSignatureData
body_entries =
    entry x509 (signature_of 2 51)
    ∷ entry x509 (signature_of 1 51)
    ∷ entry x509 (signature_of 2 52)
    ∷ []

database_decodes : decode_secure_boot_db database ≡ ok database_entries
unfolding decode_secure_boot_db decode_lists decode_signatures next_signature_list read_list
    read_entries read_signatures read_u32 read_full le32 put_le32 number_of_signatures encode_list
    flatten last_size
database_decodes = refl

body_decodes : decode_secure_boot_db body ≡ ok body_entries
unfolding decode_secure_boot_db decode_lists decode_signatures next_signature_list read_list
    read_entries read_signatures read_u32 read_full le32 put_le32 number_of_signatures encode_list
    flatten last_size
body_decodes = refl

body_short : length body < 2 ^ 32
unfolding encode_list flatten put_le32 last_size
body_short = omega arith

compute_db_update-decode_secure_boot_db_example :
    (db : List ℕ) × (compute_db_update pkcs7 database update quirk_mode_none ≡ ok db)
    × (decode_secure_boot_db db
        ≡ ok (database_entries ++ new_entries quirk_mode_none database_entries body_entries))
compute_db_update-decode_secure_boot_db_example =
    compute_db_update-decode_secure_boot_db pkcs7 update (7 ∷ 8 ∷ 9 ∷ []) body 27 quirk_mode_none
      update_signed database body_short database_entries body_entries database_decodes body_decodes

-- With the owners ignored only the third entry is new.
one_new :
    new_entries quirk_mode_dedup_ignores_owner database_entries body_entries
    ≡ entry x509 (signature_of 2 52) ∷ []
unfolding new_entries known same_entry bytes_equal
one_new = refl

abbrev updated : List ℕ
updated = database ++ encode_list x509 [] (signature_of 2 51 ∷ signature_of 2 52 ∷ [])

update_computed : compute_db_update pkcs7 database update quirk_mode_none ≡ ok updated
unfolding compute_db_update check_certificate bytes_equal decode_win_certificate decode_uefi_guid
    checked_sub filter_update new_signatures in_database list_has has_signature same_signature
    next_signature_list read_list read_entries read_signatures read_u32 read_full le16 le32 put_le32
    number_of_signatures encode_list flatten last_size
update_computed = refl

compute_db_update_idem_example : compute_db_update pkcs7 updated update quirk_mode_none ≡ ok updated
compute_db_update_idem_example =
    compute_db_update_idem pkcs7 update (7 ∷ 8 ∷ 9 ∷ []) body 27 quirk_mode_none update_signed
      database body_short database_entries body_entries database_decodes body_decodes updated
      update_computed

decode_win_certificate-panic_example :
    decode_win_certificate (authenticode_header 7 ++ (1 ∷ 2 ∷ [])) ≡ panic
decode_win_certificate-panic_example = decode_win_certificate-panic 7 (1 ∷ 2 ∷ []) (omega arith)

decode_win_certificate-authenticode_header_example :
    decode_win_certificate (authenticode_header 10 ++ ((1 ∷ 2 ∷ []) ++ (3 ∷ [])))
    ≡ ok (win_certificate_authenticode (1 ∷ 2 ∷ []), 10, 3 ∷ [])
decode_win_certificate-authenticode_header_example =
    decode_win_certificate-authenticode_header (1 ∷ 2 ∷ []) (3 ∷ []) (omega arith)
