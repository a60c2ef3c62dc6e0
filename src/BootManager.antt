-- ===== src/BootManager.antt =====
-- efibootmanager_policy.go: the digest of a PE image, for the boot manager's profile.
pub mod Ignored
pub mod Checksum
pub mod Generate
mod Tests
use secboot.Prelude.{
  ℕ, zero, suc, ◌+◌, ◌-◌, List, [], ◌∷◌, ◌++◌, Bool, true, false, not, ◌&&◌, Option, none, some,
  ◌==◌, ltb, leb, if◌then◌else◌, length, take, drop, get_elem?,
}
use secboot.Exec.{Error, Result, ok, err, panic, out_of_fuel, message, wrap, map_error, bind_result}
use secboot.Exec.Results.{◌>>=◌, ◌>>◌}
use secboot.Tpm.{Alg, Digest, PcrFunctions}
use secboot.Profile.{zeros}
use secboot.SigDb.{le32}

-- What the PE parser finds in an image: the optional header, if there is one, and the place and the
-- size of each section.
pub record OptionalHeader : Type 0 where
  pub is_pe32_plus : Bool
  pub size_of_headers : ℕ
  pub data_directory : List (ℕ × ℕ)

pub record PeFile : Type 0 where
  pub optional_header : Option OptionalHeader
  pub sections : List (ℕ × ℕ)

-- Images by number, the parser on an image's bytes, and `sort.Slice` by the place.
pub record PeImages : Type 0 where
  pub open_image : ℕ → Result (List ℕ)
  pub new_file : List ℕ → Result PeFile
  pub sort_sections : List (ℕ × ℕ) → List (ℕ × ℕ)

abbrev pub eof : Error
eof = message "EOF"

-- `r.ReadAt` of exactly `n` bytes.
unfoldable pub read_at : List ℕ → ℕ → ℕ → Result (List ℕ)
read_at contents offset n =
    if leb (offset + n) (length contents) then ok (take n (drop offset contents)) else err eof

-- `hr.Read` into a buffer of `n` bytes, from a section reader up to `limit`. What lies behind the
-- limit stays zero in the buffer.
unfoldable pub read_section : List ℕ → ℕ → ℕ → ℕ → Result (List ℕ)
read_section contents limit offset n =
    if leb limit offset
    then err eof
    else if leb n (limit - offset)
    then read_at contents offset n
    else (do
      bytes ← read_at contents offset (limit - offset)
      ok (bytes ++ zeros (n - (limit - offset))))

-- `chunkedHashAll` of a section reader: the bytes from an offset up to a limit, or to the end.
unfoldable pub bytes_between : List ℕ → ℕ → ℕ → List ℕ
bytes_between contents offset limit = take (limit - offset) (drop offset contents)

-- Whether four bytes are the signature "PE\0\0".
unfoldable pub is_pe_signature : List ℕ → Bool
is_pe_signature sign = le32 sign == 17744

-- The place of the COFF header, behind a DOS header that starts "MZ" or at the start. Of the
-- signature, what cannot be read stays zero.
unfoldable pub coff_header_offset : List ℕ → List ℕ → Result ℕ
coff_header_offset contents dos_header =
    if (le32 (take 2 dos_header ++ 0 ∷ 0 ∷ []) == 23117)
    then (let signoff = le32 (take 4 (drop 60 dos_header)) in
        if is_pe_signature (take 4 (drop signoff contents ++ 0 ∷ 0 ∷ 0 ∷ 0 ∷ []))
        then ok (signoff + 4)
        else err (message "invalid PE COFF file signature"))
    else ok 0

unfoldable pub optional_header_of : PeFile → Result OptionalHeader
optional_header_of p = elim p.optional_header [
  | none ↦ err (message "PE binary doesn't contain an optional header")
  | some oh ↦ ok oh
]

-- What is hashed of the headers behind the checksum, with the size of the certificate table.
unfoldable pub header_bytes : List ℕ → ℕ → Bool → ℕ → Option (ℕ × ℕ) → Result (List ℕ × ℕ)
header_bytes contents limit plus offset none = ok (bytes_between contents offset limit, 0)
header_bytes contents limit plus offset (some (address, size)) = do
  let n = if plus then 76 else 60
  bytes ←
      map_error (wrap "cannot read from checksum to certificate table data directory entry")
        (read_section contents limit offset n)
  ok (bytes ++ bytes_between contents (offset + n + 8) limit, size)

unfoldable pub with_size : List (ℕ × ℕ) → List (ℕ × ℕ)
with_size [] = []
with_size ((offset, size) ∷ sections) =
    if size == 0 then with_size sections else (offset, size) ∷ with_size sections

unfoldable pub section_bytes : List ℕ → List (ℕ × ℕ) → List ℕ
section_bytes contents [] = []
section_bytes contents ((offset, size) ∷ sections) =
    bytes_between contents offset (offset + size) ++ section_bytes contents sections

-- `sumOfBytesHashed`
unfoldable pub sum_of_bytes_hashed : ℕ → List (ℕ × ℕ) → ℕ
sum_of_bytes_hashed n [] = n
sum_of_bytes_hashed n ((offset, size) ∷ sections) = sum_of_bytes_hashed (n + size) sections

-- The data behind the sections, in front of the certificate table.
unfoldable pub extra_bytes : List ℕ → ℕ → ℕ → Result (List ℕ)
extra_bytes contents sum cert_size =
    if ltb sum (length contents)
    then (if ltb (length contents) (sum + cert_size)
        then err (message "image too short")
        else ok (bytes_between contents sum (length contents - cert_size)))
    else ok []

-- All that is hashed of an image, in order. The COFF header takes 20 bytes.
unfoldable pub hashed_bytes : PeImages → List ℕ → Result (List ℕ)
hashed_bytes images contents = do
  dos_header ← read_at contents 0 96
  coff ← coff_header_offset contents dos_header
  p ← map_error (wrap "cannot decode PE binary") (images.new_file contents)
  oh ← optional_header_of p
  start ←
      map_error (wrap "cannot read from image to start to checksum")
        (read_section contents oh.size_of_headers 0 (coff + 20 + 64))
  (headers, cert_size) ←
      header_bytes contents oh.size_of_headers oh.is_pe32_plus (coff + 20 + 64 + 4)
        (get_elem? oh.data_directory 4)
  let sections = images.sort_sections (with_size p.sections)
  extra ← extra_bytes contents (sum_of_bytes_hashed oh.size_of_headers sections) cert_size
  ok (start ++ (headers ++ (section_bytes contents sections ++ extra)))

unfoldable pub compute_pe_image_digest : PeImages → PcrFunctions → Alg → ℕ → Result Digest
compute_pe_image_digest images f alg image = do
  contents ← map_error (wrap "cannot open image") (images.open_image image)
  bytes ← hashed_bytes images contents
  ok (f.hash alg bytes)
