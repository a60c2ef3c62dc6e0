-- ===== src/SigDb/Certificates.antt =====
-- `decodeWinCertificate` on a header whose length field is too small for the header itself.
use secboot.Prelude.{
  ℕ, ◌+◌, ◌-◌, ◌<◌, ◌≡◌, refl, List, [], ◌∷◌, ◌++◌, false, ltb, lt→ltb, length, take, drop, arith,
}
use secboot.Exec.{ok, panic}
use secboot.SigDb.{
  win_certificate_authenticode, le16, le32, put_le32, checked_sub, decode_authenticode,
  decode_win_certificate,
}
use secboot.SigDb.Reading.{read_full-append}

-- The header of a certificate of revision 2.0 with type 2, WIN_CERT_TYPE_PKCS_SIGNED_DATA.
abbrev pub authenticode_header : ℕ → List ℕ
authenticode_header size = put_le32 size ++ 0 ∷ 2 ∷ 2 ∷ 0 ∷ []

length-authenticode_header : (size : ℕ) → length (authenticode_header size) ≡ 8
unfolding put_le32
length-authenticode_header size = refl

authenticode_fields :
    (size : ℕ)
    → size < 4294967296
    → (le32 (take 4 (authenticode_header size)) ≡ size)
      × (le16 (take 2 (drop 4 (authenticode_header size))) ≡ 512)
      × (le16 (drop 6 (authenticode_header size)) ≡ 2)
unfolding put_le32 le16 le32
authenticode_fields size small = (omega arith, refl, refl)

decode_win_certificate-header :
    (size : ℕ) (s : List ℕ)
    → size < 4294967296
    → decode_win_certificate (authenticode_header size ++ s) ≡ decode_authenticode size s
unfolding decode_win_certificate
decode_win_certificate-header size s small =
    let (a, b, c) = authenticode_fields size small in
    rw (read_full-append 8 (authenticode_header size) s (length-authenticode_header size), b, c, a)
      refl

-- A signature whose length field is below 8, the size of its own header, makes `decodeWinCertificate`
-- panic, whatever follows.
pub decode_win_certificate-panic :
    (size : ℕ) (s : List ℕ)
    → size < 8
    → decode_win_certificate (authenticode_header size ++ s) ≡ panic
unfolding decode_authenticode checked_sub
decode_win_certificate-panic size s small =
    rw (decode_win_certificate-header size s (omega arith), lt→ltb size 8 small) refl

-- A signature of revision 2.0 is read back from its header and its bytes, in front of any others.
pub decode_win_certificate-authenticode_header :
    (contents s : List ℕ)
    → length contents < 4294967288
    → decode_win_certificate (authenticode_header (8 + length contents) ++ (contents ++ s))
      ≡ ok (win_certificate_authenticode contents, 8 + length contents, s)
unfolding decode_authenticode checked_sub
decode_win_certificate-authenticode_header contents s small =
    rw (decode_win_certificate-header (8 + length contents) (contents ++ s) (omega arith), large)
      (rw (read_full-append (8 + length contents - 8) contents s (omega arith)) refl)
  where
    large : ltb (8 + length contents) 8 ≡ false
    large = ground arith
