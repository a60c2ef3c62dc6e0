-- ===== src/SigDb.antt =====
-- secureboot_policy.go: EFI signature databases as bytes. Certificates of signed updates, the
-- lists of a database, and a database with an update appended.
pub mod Database
pub mod Reading
pub mod Parses
pub mod Accepts
pub mod Decoded
pub mod Update
pub mod Kept
pub mod Applied
pub mod Outcome
pub mod Certificates
pub mod Sizes
mod Tests
use secboot.Prelude.{
  ℕ, zero, suc, ◌+◌, ◌-◌, ◌*◌, ◌/◌, ◌%◌, ◌^◌, List, [], ◌∷◌, ◌++◌, Bool, true, false, not, Option,
  none, some, ltb, leb, ◌==◌, if◌then◌else◌, length, take, drop, bytes_equal,
}
use secboot.Exec.{Error, Result, ok, err, panic, out_of_fuel, message, wrap, map_error, bind_result}
use secboot.Exec.Results.{◌>>=◌, ◌>>◌}

-- `io.ReadFull` of `n` bytes from a reader at the front of `s`.
unfoldable pub read_full : ℕ → List ℕ → Result (List ℕ × List ℕ)
read_full n s = if leb n (length s) then ok (take n s, drop n s) else err (message "unexpected EOF")

-- `binary.LittleEndian`, for two and for four bytes.
unfoldable pub le16 : List ℕ → ℕ
le16 (a ∷ b ∷ []) = a + 256 * b
le16 _ = 0

unfoldable pub le32 : List ℕ → ℕ
le32 (a ∷ b ∷ c ∷ d ∷ []) = a + 256 * b + 65536 * c + 16777216 * d
le32 _ = 0

unfoldable pub put_le32 : ℕ → List ℕ
put_le32 n = n % 256 ∷ n / 256 % 256 ∷ n / 65536 % 256 ∷ n / 16777216 % 256 ∷ []

unfoldable pub read_u32 : List ℕ → Result (ℕ × List ℕ)
read_u32 s = do (bytes, rest) ← read_full 4 s; ok (le32 bytes, rest)

-- `make([]byte, n - m)`, which panics when the difference is negative.
unfoldable pub checked_sub : ℕ → ℕ → Result ℕ
checked_sub n m = if ltb n m then panic else ok (n - m)

-- `winCertificate` by its implementations.
pub data WinCertificate : Type 0 where
  win_certificate_authenticode : List ℕ → WinCertificate
  win_certificate_uefi_guid : List ℕ → List ℕ → WinCertificate

unfoldable pub decode_authenticode : ℕ → List ℕ → Result (WinCertificate × ℕ × List ℕ)
decode_authenticode size s = do
  n ← checked_sub size 8
  (bytes, rest) ← map_error (wrap "cannot read WIN_CERTIFICATE.bCertificate") (read_full n s)
  ok (win_certificate_authenticode bytes, size, rest)

unfoldable pub decode_uefi_guid : ℕ → List ℕ → Result (WinCertificate × ℕ × List ℕ)
decode_uefi_guid size s = do
  (cert_type, s') ←
      map_error (wrap "cannot read WIN_CERTIFICATE_UEFI_GUID.CertType") (read_full 16 s)
  n ← checked_sub size 24
  (bytes, rest) ← map_error (wrap "cannot read WIN_CERTIFICATE_UEFI_GUID.CertData") (read_full n s')
  ok (win_certificate_uefi_guid cert_type bytes, size, rest)

-- `decodeWinCertificate`, with what the reader has left.
unfoldable pub decode_win_certificate : List ℕ → Result (WinCertificate × ℕ × List ℕ)
decode_win_certificate s = do
  (header, rest) ← map_error (wrap "cannot read WIN_CERTIFICATE header fields") (read_full 8 s)
  (if not (le16 (take 2 (drop 4 header)) == 512)
      then err (message "invalid wRevision value")
      else if le16 (drop 6 header) == 2
      then decode_authenticode (le32 (take 4 header)) rest
      else if le16 (drop 6 header) == 3825
      then decode_uefi_guid (le32 (take 4 header)) rest
      else err (message "cannot decode unrecognized type"))

-- One EFI_SIGNATURE_LIST, as `nextSignatureList` returns it.
pub record SignatureList : Type 0 where
  pub signature_type : List ℕ
  pub signature_header : List ℕ
  pub signatures : List (List ℕ)

-- The number of entries. The size of the data is an `int64`, which may be negative; a negative
-- number of entries is none.
unfoldable pub number_of_signatures : ℕ → ℕ → ℕ → Result ℕ
number_of_signatures list_size header_size size =
    if leb (28 + header_size) list_size
    then (if (list_size - (28 + header_size)) % size == 0
        then ok ((list_size - (28 + header_size)) / size)
        else err (
            message
              "EFI_SIGNATURE_LIST has inconsistent SignatureListSize, SignatureHeaderSize and SignatureSize fields"))
    else (if (28 + header_size - list_size) % size == 0
        then ok 0
        else err (
            message
              "EFI_SIGNATURE_LIST has inconsistent SignatureListSize, SignatureHeaderSize and SignatureSize fields"))

unfoldable pub read_signatures : ℕ → ℕ → List ℕ → Result (List (List ℕ) × List ℕ)
read_signatures zero size s = ok ([], s)
read_signatures (suc count) size s = do
  (signature, s') ← map_error (wrap "cannot read EFI_SIGNATURE_DATA entry") (read_full size s)
  (more, rest) ← read_signatures count size s'
  ok (signature ∷ more, rest)

-- `nextSignatureList` from the check of the signature size on.
unfoldable pub read_entries : List ℕ → ℕ → ℕ → ℕ → List ℕ → Result (SignatureList × List ℕ)
read_entries signature_type list_size header_size size s =
    if ltb size 16 then err (message "EFI_SIGNATURE_LIST.SignatureSize is invalid") else (do
      (header, s') ←
          map_error (wrap "cannot read EFI_SIGNATURE_LIST.SignatureHeader")
            (read_full header_size s)
      count ← number_of_signatures list_size header_size size
      (signatures, rest) ← read_signatures count size s'
      ok (
        record {
          signature_type = signature_type;
          signature_header = header;
          signatures = signatures;
        },
        rest,
      ))

-- `nextSignatureList` behind the signature type.
unfoldable pub read_list : List ℕ → List ℕ → Result (SignatureList × List ℕ)
read_list signature_type s = do
  (list_size, s1) ← map_error (wrap "cannot read EFI_SIGNATURE_LIST.SignatureListSize") (read_u32 s)
  (header_size, s2) ←
      map_error (wrap "cannot read EFI_SIGNATURE_LIST.SignatureHeaderSize") (read_u32 s1)
  (size, s3) ← map_error (wrap "cannot read EFI_SIGNATURE_LIST.SignatureSize") (read_u32 s2)
  read_entries signature_type list_size header_size size s3

-- `nextSignatureList`; `none` stands for `io.EOF`.
unfoldable pub next_signature_list : List ℕ → Result (Option (SignatureList × List ℕ))
next_signature_list [] = ok none
next_signature_list (b ∷ s) = do
  (signature_type, s') ←
      map_error (wrap "cannot read EFI_SIGNATURE_LIST.SignatureType") (read_full 16 (b ∷ s))
  next ← read_list signature_type s'
  ok (some next)
