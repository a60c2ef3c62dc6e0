-- ===== src/SigDb/Sizes.antt =====
-- secureboot_policy.go: the length that `decodeWinCertificate` returns covers the header.
use secboot.Prelude.{
  ℕ, ◌≤◌, ◌≡◌, ap, List, Bool, true, false, not, Bool-cases, ltb, leb, length, if◌then◌else◌, ◌==◌,
  take, drop, inl, inr, arith,
}
use secboot.Exec.{Error, Result, ok, err, map_error}
use secboot.Exec.Results.{
  bind_result_ok, ok_injective, not_ok, Finishes, Finishes-ok, Finishes-bind, Finishes-map_error,
}
use secboot.SigDb.{
  WinCertificate, checked_sub, read_full, le16, le32, decode_authenticode, decode_uefi_guid,
  decode_win_certificate,
}

checked_sub_ok : (n m k : ℕ) → checked_sub n m ≡ ok k → m ≤ n
unfolding checked_sub
checked_sub_ok n m k h = ground arith

decode_authenticode_le :
    (size : ℕ) (s : List ℕ) (c : WinCertificate) (n : ℕ) (rest : List ℕ)
    → decode_authenticode size s ≡ ok (c, n, rest)
    → 8 ≤ n
unfolding decode_authenticode
decode_authenticode_le size s c n rest h =
    let (k, e1, e2) = bind_result_ok (checked_sub size 8) _ h in
    let ((bytes, rest'), e3, e4) = bind_result_ok (map_error _ (read_full k s)) _ e2 in
    let same : size ≡ n = ap (λ (t : WinCertificate × ℕ × List ℕ). t.1) (ok_injective e4) in
    omega (arith, same, checked_sub_ok size 8 k e1)

decode_uefi_guid_le :
    (size : ℕ) (s : List ℕ) (c : WinCertificate) (n : ℕ) (rest : List ℕ)
    → decode_uefi_guid size s ≡ ok (c, n, rest)
    → 8 ≤ n
unfolding decode_uefi_guid
decode_uefi_guid_le size s c n rest h =
    let ((cert_type, s'), e1, e2) = bind_result_ok (map_error _ (read_full 16 s)) _ h in
    let (k, e3, e4) = bind_result_ok (checked_sub size 24) _ e2 in
    let ((bytes, rest'), e5, e6) = bind_result_ok (map_error _ (read_full k s')) _ e4 in
    let same : size ≡ n = ap (λ (t : WinCertificate × ℕ × List ℕ). t.1) (ok_injective e6) in
    omega (arith, same, checked_sub_ok size 24 k e3)

pub decode_win_certificate_le :
    (s : List ℕ) (c : WinCertificate) (n : ℕ) (rest : List ℕ)
    → decode_win_certificate s ≡ ok (c, n, rest)
    → 8 ≤ n
unfolding decode_win_certificate
decode_win_certificate_le s c n rest h =
    let ((header, rest1), e1, e2) = bind_result_ok (map_error _ (read_full 8 s)) _ h in
    go _ _ (not (le16 (take 2 (drop 4 header)) == 512)) (le16 (drop 6 header) == 2)
      (le16 (drop 6 header) == 3825) (le32 (take 4 header)) rest1 e2
  where
    go :
        (x y : Error) (a b d : Bool) (size : ℕ) (r : List ℕ)
        → (if a
            then err x
            else if b
            then decode_authenticode size r
            else if d
            then decode_uefi_guid size r
            else err y)
          ≡ ok (c, n, rest)
        → 8 ≤ n
    go x y true b d size r k = not_ok k
    go x y false true d size r k = decode_authenticode_le size r c n rest k
    go x y false false true size r k = decode_uefi_guid_le size r c n rest k
    go x y false false false size r k = not_ok k

Finishes-checked_sub : (n m : ℕ) → Finishes (checked_sub n m)
unfolding checked_sub
Finishes-checked_sub n m = elim (Bool-cases (ltb n m)) [
  | inl e ↦ rw e (λ e'. cc)
  | inr e ↦ rw e (Finishes-ok _)
]

pub Finishes-read_full : (n : ℕ) (s : List ℕ) → Finishes (read_full n s)
unfolding read_full
Finishes-read_full n s = elim (Bool-cases (leb n (length s))) [
  | inl e ↦ rw e (Finishes-ok _)
  | inr e ↦ rw e (λ e'. cc)
]

Finishes-decode_authenticode : (size : ℕ) (s : List ℕ) → Finishes (decode_authenticode size s)
unfolding decode_authenticode
Finishes-decode_authenticode size s =
    Finishes-bind (checked_sub size 8) _ (Finishes-checked_sub size 8) λ n _.
      Finishes-bind _ _ (Finishes-map_error _ (read_full n s) (Finishes-read_full n s))
        λ (bytes, rest) _. Finishes-ok _

Finishes-decode_uefi_guid : (size : ℕ) (s : List ℕ) → Finishes (decode_uefi_guid size s)
unfolding decode_uefi_guid
Finishes-decode_uefi_guid size s =
    Finishes-bind _ _ (Finishes-map_error _ (read_full 16 s) (Finishes-read_full 16 s))
      λ (cert_type, s') _.
        Finishes-bind (checked_sub size 24) _ (Finishes-checked_sub size 24) λ n _.
          Finishes-bind _ _ (Finishes-map_error _ (read_full n s') (Finishes-read_full n s'))
            λ (bytes, rest) _. Finishes-ok _

pub Finishes-if :
    {A : Type 0} (b : Bool) (r r' : Result A)
    → Finishes r
    → Finishes r'
    → Finishes (if b then r else r')
Finishes-if true r r' h h' = h
Finishes-if false r r' h h' = h'

pub Finishes-decode_win_certificate : (s : List ℕ) → Finishes (decode_win_certificate s)
unfolding decode_win_certificate
Finishes-decode_win_certificate s =
    Finishes-bind _ _ (Finishes-map_error _ (read_full 8 s) (Finishes-read_full 8 s))
      λ (header, rest) _.
        Finishes-if (not (le16 (take 2 (drop 4 header)) == 512)) (err _) _ (λ e. cc)
          (Finishes-if (le16 (drop 6 header) == 2) (decode_authenticode (le32 (take 4 header)) rest)
            _ (Finishes-decode_authenticode _ rest)
            (Finishes-if (le16 (drop 6 header) == 3825)
              (decode_uefi_guid (le32 (take 4 header)) rest) (err _)
              (Finishes-decode_uefi_guid _ rest) (λ e. cc)))
