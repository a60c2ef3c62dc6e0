-- ===== src/SecureBoot/Ends/Signers.antt =====
-- That the loop over the certificate table of an image ends.
use secboot.Prelude.{
  ℕ, zero, suc, ◌+◌, ◌<◌, ◌≤◌, ◌≡◌, refl, ap, List, [], ◌∷◌, Bool, true, false, Option, none, some,
  leb, ◌==◌, drop, get_elem?, arith,
}
use secboot.Exec.{Error, Result, ok, err, map_error, bind_result}
use secboot.Exec.Results.{
  bind_result_ok, map_error_ok, ok_injective, Finishes, Finishes-ok, Finishes-bind,
  Finishes-map_error,
}
use secboot.SigDb.{
  WinCertificate, win_certificate_authenticode, win_certificate_uefi_guid, decode_win_certificate,
  read_full, read_u32,
}
use secboot.SigDb.Sizes.{
  Finishes-if, Finishes-read_full, Finishes-decode_win_certificate, decode_win_certificate_le,
}
use secboot.SecureBoot.{Measuring}
use secboot.SecureBoot.Authority.{X509}
use secboot.SecureBoot.Images.{
  EfiImages, Pkcs7, is_shim_executable, read_cert_table, vendor_cert_of, read_shim_vendor_cert,
  security_directory, align_size, authenticode_contents, checked_signer, read_signer, read_signers,
  some_signers, image_signers,
}
use secboot.SecureBoot.Ends.{Returns}

leb-false : (a b : ℕ) → leb a b ≡ false → b < a
leb-false a b h = ground arith

Finishes-read_u32 : (s : List ℕ) → Finishes (read_u32 s)
unfolding read_u32
Finishes-read_u32 s =
    Finishes-bind (read_full 4 s) _ (Finishes-read_full 4 s) λ (bytes, rest) _. Finishes-ok _

Finishes-read_cert_table : (section : List ℕ) → Finishes (read_cert_table section)
unfolding read_cert_table
Finishes-read_cert_table section =
    Finishes-bind _ _ (Finishes-map_error _ (read_u32 _) (Finishes-read_u32 _)) λ (size, rest) _.
      Finishes-if (size == 0) (ok none) _ (Finishes-ok _) (
        Finishes-bind _ _ (Finishes-map_error _ (read_u32 (drop 4 rest)) (Finishes-read_u32 _))
          λ (offset, rest') _. Finishes-ok _)

module _ (m : Measuring) (x : X509) (p : Pkcs7 x) (images : EfiImages)
    (returns : Returns m x p images) where
  pub Finishes-is_shim_executable : (image : ℕ) → Finishes (is_shim_executable images image)
  unfolding is_shim_executable
  Finishes-is_shim_executable image =
      Finishes-bind _ _
        (Finishes-map_error _ (images.vendor_section image) (returns.finds_section image))
        λ section _. Finishes-ok _

  pub Finishes-read_shim_vendor_cert : (image : ℕ) → Finishes (read_shim_vendor_cert images image)
  unfolding read_shim_vendor_cert vendor_cert_of
  Finishes-read_shim_vendor_cert image =
      Finishes-bind _ _
        (Finishes-map_error _ (images.vendor_section image) (returns.finds_section image))
        λ section _. go section
    where
      go : (o : Option (List ℕ)) → Finishes (vendor_cert_of o)
      go none = λ e. cc
      go (some section) = Finishes-read_cert_table section

  Finishes-authenticode_contents : (c : WinCertificate) → Finishes (authenticode_contents c)
  unfolding authenticode_contents
  Finishes-authenticode_contents (win_certificate_authenticode contents) = Finishes-ok _
  Finishes-authenticode_contents (win_certificate_uefi_guid t contents) = λ e. cc

  Finishes-checked_signer :
      (signed : Pkcs7.Signed p) (o : Option (X509.Certificate x))
      → Finishes (checked_signer x p signed o)
  unfolding checked_signer
  Finishes-checked_signer signed none = λ e. cc
  Finishes-checked_signer signed (some signer) =
      Finishes-if (p.first_signer_has_sha256 signed) (ok signer) (err _) (Finishes-ok _) (λ e. cc)

  Finishes-read_signer : (s : List ℕ) → Finishes (read_signer x p s)
  unfolding read_signer
  Finishes-read_signer s =
      Finishes-bind _ _
        (Finishes-map_error _ (decode_win_certificate s) (Finishes-decode_win_certificate s))
        λ (c, n, rest) _.
          Finishes-bind (authenticode_contents c) _ (Finishes-authenticode_contents c) λ contents _.
            Finishes-bind _ _ (Finishes-map_error _ (p.parse contents) (returns.parses contents))
              λ signed _.
                Finishes-bind (checked_signer x p signed (p.get_only_signer signed)) _
                  (Finishes-checked_signer signed (p.get_only_signer signed))
                  λ signer _. Finishes-ok _

  -- A certificate is at least as long as its header.
  read_signer_le :
      (s : List ℕ) (signer : X509.Certificate x) (n : ℕ)
      → read_signer x p s ≡ ok (signer, n)
      → 8 ≤ n
  unfolding read_signer
  read_signer_le s signer n h =
      let ((c, k, rest), e1, h1) = bind_result_ok (map_error _ (decode_win_certificate s)) _ h in
      let (contents, e2, h2) = bind_result_ok (authenticode_contents c) _ h1 in
      let (signed, e3, h3) = bind_result_ok (map_error _ (p.parse contents)) _ h2 in
      let (signer', e4, h4) =
        bind_result_ok (checked_signer x p signed (p.get_only_signer signed)) _ h3 in
      let same : k ≡ n = ap (λ (t : X509.Certificate x × ℕ). t.1) (ok_injective h4) in
      omega (
        arith,
        same,
        decode_win_certificate_le s c k rest (map_error_ok _ (decode_win_certificate s) e1),
      )

  Finishes-read_signers :
      (fuel size read : ℕ) (table : List ℕ)
      → 0 < fuel
      → size < fuel + read
      → Finishes (read_signers x p fuel size read table)
  unfolding read_signers
  Finishes-read_signers zero size read table h1 h2 = omega arith
  Finishes-read_signers (suc fuel) size read table h1 h2 =
      go (λ n k1 k2. Finishes-read_signers fuel size (read + align_size read + n) table k1 k2)
        (leb size (read + align_size read)) refl
    where
      go :
          ((n : ℕ)
            → 0 < fuel
            → size < fuel + (read + align_size read + n)
            → Finishes (read_signers x p fuel size (read + align_size read + n) table))
          → (b : Bool) → leb size (read + align_size read) ≡ b
          → Finishes (elim b as (λ _. Result (List (X509.Certificate x))) [
            | true ↦ ok []
            | false ↦
                bind_result (read_signer x p (drop (read + align_size read) table)) λ (signer, n).
                  bind_result
                    (read_signers x p fuel size (read + align_size read + n) table)
                    λ more. ok (signer ∷ more)
          ])
      go ih true e = Finishes-ok _
      go ih false e =
          let s = drop (read + align_size read) table in
          let short = leb-false size (read + align_size read) e in
          Finishes-bind (read_signer x p s) _ (Finishes-read_signer s) λ (signer, n) e'.
            let large = read_signer_le s signer n e' in
            Finishes-bind _ _ (ih n (omega arith) (omega arith)) λ more _. Finishes-ok _

  Finishes-security_directory : (o : Option (List (ℕ × ℕ))) → Finishes (security_directory o)
  unfolding security_directory
  Finishes-security_directory none = λ e. cc
  Finishes-security_directory (some directories) = go _ (get_elem? directories 4)
    where
      go :
          (e : Error) (o : Option (ℕ × ℕ))
          → Finishes (elim o as (λ _. Result (ℕ × ℕ)) [ none ↦ err e | some entry ↦ ok entry ])
      go x none = λ e. cc
      go x (some entry) = Finishes-ok entry

  Finishes-some_signers :
      (signers : List (X509.Certificate x)) → Finishes (some_signers x p signers)
  unfolding some_signers
  Finishes-some_signers [] = λ e. cc
  Finishes-some_signers (s ∷ signers) = Finishes-ok _

  pub Finishes-image_signers : (image : ℕ) → Finishes (image_signers x p images image)
  unfolding image_signers
  Finishes-image_signers image =
      Finishes-bind _ _
        (Finishes-map_error _ (images.data_directories image) (returns.finds_directories image))
        λ directories _.
          Finishes-bind (security_directory directories) _ (Finishes-security_directory directories)
            λ (address, size) _.
              Finishes-bind (read_signers x p (suc size) size 0 _) _
                (Finishes-read_signers (suc size) size 0 _ (omega arith) (omega arith))
                λ signers _. Finishes-some_signers signers
