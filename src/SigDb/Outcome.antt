-- ===== src/SigDb/Outcome.antt =====
-- `computeDbUpdate` as an operation on sets of entries, and its repetition.
use mathlib.Core.Path.{subst, ap₂}
use mathlib.Core.List.{append_assoc, append-nil}
use secboot.Prelude.{
  ℕ, suc, ◌<◌, ◌^◌, ◌≡◌, refl, ap, sym, ◌∙◌, List, [], ◌∷◌, ◌++◌, Bool, true, false, ◌||◌,
  if◌then◌else◌, length, drop, bytes_equal, bytes_equal_iff, arith,
}
use secboot.Exec.{ok}
use secboot.Exec.Results.{ok_injective}
use secboot.SigDb.{SignatureList, win_certificate_uefi_guid, decode_win_certificate}
use secboot.SigDb.Database.{
  EfiSignatureData, decode_secure_boot_db, SigDbUpdateQuirkMode, quirk_mode_none,
  quirk_mode_dedup_ignores_owner, list_has, flatten, encode_list, check_certificate,
  compute_db_update,
}
use secboot.SigDb.Decoded.{
  Lists, Lists-append, entry, entries_of_type, entries, decode_secure_boot_db-Lists,
  decode_secure_boot_db_ok, any_list,
}
use secboot.SigDb.Update.{unknown, kept, encodings, filter_update-Lists}
use secboot.SigDb.Kept.{kept-Lists}
use secboot.SigDb.Applied.{
  same_entry, known, new_entries, known-append, known-entries, entries-kept,
}

entries-append : (ls ls' : List SignatureList) → entries (ls ++ ls') ≡ entries ls ++ entries ls'
entries-append [] ls' = refl
entries-append (l ∷ ls) ls' =
    ap (λ k. entries_of_type l.signature_type l.signatures ++ k) (entries-append ls ls')
    ∙ sym (append_assoc (entries_of_type l.signature_type l.signatures) (entries ls) (entries ls'))

bytes_equal_self : (xs : List ℕ) → bytes_equal xs xs ≡ true
bytes_equal_self xs = (bytes_equal_iff xs xs).1 refl

same_entry_self :
    (quirk : SigDbUpdateQuirkMode) (e : EfiSignatureData) → same_entry quirk e e ≡ true
unfolding same_entry
same_entry_self quirk_mode_none e =
    rw (bytes_equal_self e.signature_type, bytes_equal_self e.owner, bytes_equal_self e.contents)
      refl
same_entry_self quirk_mode_dedup_ignores_owner e =
    rw (bytes_equal_self e.signature_type, bytes_equal_self e.contents) refl

-- Every entry is in the database or among those that are new.
abbrev Covered :
    SigDbUpdateQuirkMode
    → List EfiSignatureData
    → List EfiSignatureData
    → List EfiSignatureData
    → Type 0
Covered quirk es news [] = Unit
Covered quirk es news (u ∷ us) =
    ((known quirk es u || known quirk news u) ≡ true) × Covered quirk es news us

Covered-cons :
    (quirk : SigDbUpdateQuirkMode) (es news us : List EfiSignatureData) (e : EfiSignatureData)
    → Covered quirk es news us
    → Covered quirk es (e ∷ news) us
unfolding known
Covered-cons quirk es news [] e h = tt
Covered-cons quirk es news (u ∷ us) e h = (ground (arith, h.0), Covered-cons quirk es news us e h.1)

new_entries-Covered :
    (quirk : SigDbUpdateQuirkMode) (es us : List EfiSignatureData)
    → Covered quirk es (new_entries quirk es us) us
unfolding known new_entries
new_entries-Covered quirk es [] = tt
new_entries-Covered quirk es (u ∷ us) = step (known quirk es u) (new_entries-Covered quirk es us)
  where
    step :
        (b : Bool)
        → Covered quirk es (new_entries quirk es us) us
        → ((b || known quirk (if b then new_entries quirk es us else u ∷ new_entries quirk es us) u)
            ≡ true)
          × Covered quirk es (if b then new_entries quirk es us else u ∷ new_entries quirk es us) us
    step true h = (refl, h)
    step false h =
        (rw (same_entry_self quirk u) refl, Covered-cons quirk es (new_entries quirk es us) us u h)

Covered-append :
    (quirk : SigDbUpdateQuirkMode) (es news us us' : List EfiSignatureData)
    → Covered quirk es news (us ++ us')
    → Covered quirk es news us × Covered quirk es news us'
Covered-append quirk es news [] us' h = (tt, h)
Covered-append quirk es news (u ∷ us) us' h =
    let (a, b) = Covered-append quirk es news us us' h.1 in ((h.0, a), b)

unknown-Covered :
    (quirk : SigDbUpdateQuirkMode) (ls : List SignatureList) (es news : List EfiSignatureData)
    (ty : List ℕ) (sigs : List (List ℕ))
    → entries ls ≡ es ++ news
    → Covered quirk es news (entries_of_type ty sigs)
    → unknown quirk ls ty sigs ≡ []
unknown-Covered quirk ls es news ty [] same h = refl
unknown-Covered quirk ls es news ty (sig ∷ sigs) same h =
    rw found (unknown-Covered quirk ls es news ty sigs same h.1)
  where
    found : any_list (list_has quirk ty sig) ls ≡ true
    found =
        sym (known-entries quirk ty sig ls)
        ∙ ap (λ k. known quirk k (entry ty sig)) same
        ∙ known-append quirk es news (entry ty sig)
        ∙ h.0

encodings-Covered :
    (quirk : SigDbUpdateQuirkMode) (ls us : List SignatureList) (es news : List EfiSignatureData)
    → entries ls ≡ es ++ news
    → Covered quirk es news (entries us)
    → encodings quirk ls us ≡ []
unfolding encode_list flatten
encodings-Covered quirk ls [] es news same h = refl
encodings-Covered quirk ls (l ∷ us) es news same h =
    let (a, b) =
      Covered-append quirk es news (entries_of_type l.signature_type l.signatures) (entries us) h in
    rw (unknown-Covered quirk ls es news l.signature_type l.signatures same a)
      (encodings-Covered quirk ls us es news same b)

module _ (guid update contents body : List ℕ) (n : ℕ) (quirk : SigDbUpdateQuirkMode)
    (signed : decode_win_certificate (drop 16 update)
      ≡ ok (win_certificate_uefi_guid guid contents, n, body)) where
  compute_db_update-Lists :
      (orig : List ℕ) (ls us : List SignatureList)
      → Lists ls orig
      → Lists us body
      → compute_db_update guid orig update quirk ≡ ok (orig ++ encodings quirk ls us)
  unfolding compute_db_update check_certificate
  compute_db_update-Lists orig ls us h hu =
      rw
        (
          signed,
          bytes_equal_self guid,
          filter_update-Lists (suc (length body)) quirk ls us orig body (omega arith) h hu,
        )
        refl

  module _ (orig : List ℕ) (small : length body < 2 ^ 32) (es us : List EfiSignatureData)
      (current : decode_secure_boot_db orig ≡ ok es)
      (pending : decode_secure_boot_db body ≡ ok us) where
    -- For an update that carries a PKCS#7 certificate, is shorter than 2 ^ 32 bytes and decodes, as
    -- the database does: `computeDbUpdate` returns a database that decodes to the entries of the old
    -- one, in their order, followed by those entries of the update that the old one does not have.
    pub compute_db_update-decode_secure_boot_db :
        (db : List ℕ) × (compute_db_update guid orig update quirk ≡ ok db)
        × (decode_secure_boot_db db ≡ ok (es ++ new_entries quirk es us))
    compute_db_update-decode_secure_boot_db =
        let d = decode_secure_boot_db_ok orig es current in
        let u = decode_secure_boot_db_ok body us pending in
        (
          orig ++ encodings quirk d.lists u.lists,
          compute_db_update-Lists orig d.lists u.lists d.encoded u.encoded,
          decode_secure_boot_db-Lists (d.lists ++ kept quirk d.lists u.lists)
                (orig ++ encodings quirk d.lists u.lists)
                (Lists-append d.lists (kept quirk d.lists u.lists) orig
                  (encodings quirk d.lists u.lists) d.encoded
                  (kept-Lists quirk d.lists u.lists body u.encoded small))
              ∙ ap (λ (k : List EfiSignatureData). ok k)
                  (entries-append d.lists (kept quirk d.lists u.lists)
                    ∙ ap (λ k. entries d.lists ++ k)
                        (entries-kept quirk d.lists u.lists body u.encoded)
                    ∙ ap₂ (λ x y. x ++ new_entries quirk x y) (sym d.same) (sym u.same)),
        )

    -- For an update that carries a PKCS#7 certificate, is shorter than 2 ^ 32 bytes and decodes, as
    -- the database does: a second application of the update changes nothing.
    pub compute_db_update_idem :
        (db : List ℕ)
        → compute_db_update guid orig update quirk ≡ ok db
        → compute_db_update guid db update quirk ≡ ok db
    compute_db_update_idem db applied =
        let d = decode_secure_boot_db_ok orig es current in
        let u = decode_secure_boot_db_ok body us pending in
        let ls = d.lists ++ kept quirk d.lists u.lists in
        let same : orig ++ encodings quirk d.lists u.lists ≡ db =
          ok_injective
            (sym (compute_db_update-Lists orig d.lists u.lists d.encoded u.encoded) ∙ applied) in
        let encoded : Lists ls db =
          subst (λ (k : List ℕ). Lists ls k) same
            (Lists-append d.lists (kept quirk d.lists u.lists) orig
              (encodings quirk d.lists u.lists) d.encoded
              (kept-Lists quirk d.lists u.lists body u.encoded small)) in
        compute_db_update-Lists db ls u.lists encoded u.encoded
        ∙ ap (λ (k : List ℕ). ok (db ++ k))
            (encodings-Covered quirk ls u.lists (entries d.lists)
              (new_entries quirk (entries d.lists) (entries u.lists))
              (entries-append d.lists (kept quirk d.lists u.lists)
                ∙ ap (λ k. entries d.lists ++ k)
                    (entries-kept quirk d.lists u.lists body u.encoded))
              (new_entries-Covered quirk (entries d.lists) (entries u.lists)))
        ∙ ap (λ (k : List ℕ). ok k) (append-nil db)
