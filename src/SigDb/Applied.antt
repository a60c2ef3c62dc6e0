-- ===== src/SigDb/Applied.antt =====
-- What an update makes of a database, entry by entry.
use secboot.Prelude.{
  ℕ, zero, suc, ◌≤◌, ◌≡◌, refl, ap, List, [], ◌∷◌, ◌++◌, Bool, true, false, ◌&&◌, ◌||◌, ◌==◌,
  if◌then◌else◌, length, take, drop, bytes_equal, length-append, Bool-cases, inl, inr, arith,
}
use secboot.SigDb.{SignatureList}
use secboot.SigDb.Database.{
  EfiSignatureData, SigDbUpdateQuirkMode, quirk_mode_none, quirk_mode_dedup_ignores_owner,
  same_signature, has_signature, list_has, flatten,
}
use secboot.SigDb.Reading.{AllSized}
use secboot.SigDb.Decoded.{Lists, entry, entries_of_type, entries, any_list}
use secboot.SigDb.Update.{unknown, left_of, kept}

-- Two entries that the firmware takes for the same.
unfoldable pub same_entry : SigDbUpdateQuirkMode → EfiSignatureData → EfiSignatureData → Bool
same_entry quirk_mode_none a b =
    bytes_equal a.signature_type b.signature_type
    && (bytes_equal a.owner b.owner && bytes_equal a.contents b.contents)
same_entry quirk_mode_dedup_ignores_owner a b =
    bytes_equal a.signature_type b.signature_type && bytes_equal a.contents b.contents

unfoldable pub known : SigDbUpdateQuirkMode → List EfiSignatureData → EfiSignatureData → Bool
known quirk [] e = false
known quirk (a ∷ es) e = same_entry quirk a e || known quirk es e

-- The entries of an update that a database does not have.
unfoldable pub new_entries :
    SigDbUpdateQuirkMode → List EfiSignatureData → List EfiSignatureData → List EfiSignatureData
new_entries quirk es [] = []
new_entries quirk es (u ∷ us) =
    if known quirk es u then new_entries quirk es us else u ∷ new_entries quirk es us

pub known-append :
    (quirk : SigDbUpdateQuirkMode) (es es' : List EfiSignatureData) (e : EfiSignatureData)
    → known quirk (es ++ es') e ≡ (known quirk es e || known quirk es' e)
unfolding known
known-append quirk [] es' e = refl
known-append quirk (a ∷ es) es' e = ground (arith, known-append quirk es es' e)

new_entries-append :
    (quirk : SigDbUpdateQuirkMode) (es us us' : List EfiSignatureData)
    → new_entries quirk es (us ++ us') ≡ new_entries quirk es us ++ new_entries quirk es us'
unfolding new_entries
new_entries-append quirk es [] us' = refl
new_entries-append quirk es (u ∷ us) us' = elim (Bool-cases (known quirk es u)) [
  | inl e ↦ rw e (new_entries-append quirk es us us')
  | inr e ↦ rw e (ap (λ l. u ∷ l) (new_entries-append quirk es us us'))
]

bytes_equal-split :
    (n : ℕ) (xs ys : List ℕ)
    → bytes_equal xs ys
      ≡ (bytes_equal (take n xs) (take n ys) && bytes_equal (drop n xs) (drop n ys))
unfolding bytes_equal
bytes_equal-split zero xs ys = refl
bytes_equal-split (suc n) [] [] = refl
bytes_equal-split (suc n) [] (y ∷ ys) = refl
bytes_equal-split (suc n) (x ∷ xs) [] = refl
bytes_equal-split (suc n) (x ∷ xs) (y ∷ ys) = ground (arith, bytes_equal-split n xs ys)

same_entry-entry :
    (quirk : SigDbUpdateQuirkMode) (ty update_type sig update_sig : List ℕ)
    → same_entry quirk (entry ty sig) (entry update_type update_sig)
      ≡ (bytes_equal ty update_type && same_signature quirk sig update_sig)
unfolding same_entry same_signature
same_entry-entry quirk_mode_none ty update_type sig update_sig =
    rw (bytes_equal-split 16 sig update_sig) refl
same_entry-entry quirk_mode_dedup_ignores_owner ty update_type sig update_sig = refl

known-entries_of_type :
    (quirk : SigDbUpdateQuirkMode) (ty update_type : List ℕ) (sigs : List (List ℕ))
    (update_sig : List ℕ)
    → known quirk (entries_of_type ty sigs) (entry update_type update_sig)
      ≡ (bytes_equal ty update_type && has_signature quirk sigs update_sig)
unfolding known has_signature
known-entries_of_type quirk ty update_type [] update_sig = ground arith
known-entries_of_type quirk ty update_type (sig ∷ sigs) update_sig = ground (
  arith,
  same_entry-entry quirk ty update_type sig update_sig,
  known-entries_of_type quirk ty update_type sigs update_sig,
)

pub known-entries :
    (quirk : SigDbUpdateQuirkMode) (update_type update_sig : List ℕ) (ls : List SignatureList)
    → known quirk (entries ls) (entry update_type update_sig)
      ≡ any_list (list_has quirk update_type update_sig) ls
unfolding known list_has
known-entries quirk update_type update_sig [] = refl
known-entries quirk update_type update_sig (l ∷ ls) = ground (
  arith,
  known-append quirk (entries_of_type l.signature_type l.signatures) (entries ls)
      (entry update_type update_sig),
  known-entries_of_type quirk l.signature_type update_type l.signatures update_sig,
  known-entries quirk update_type update_sig ls,
)

new_entries-unknown :
    (quirk : SigDbUpdateQuirkMode) (ls : List SignatureList) (ty : List ℕ) (sigs : List (List ℕ))
    → entries_of_type ty (unknown quirk ls ty sigs)
      ≡ new_entries quirk (entries ls) (entries_of_type ty sigs)
unfolding new_entries
new_entries-unknown quirk ls ty [] = refl
new_entries-unknown quirk ls ty (sig ∷ sigs) =
    rw (known-entries quirk ty sig ls) (elim (Bool-cases (any_list (list_has quirk ty sig) ls)) [
      | inl e ↦ rw e (new_entries-unknown quirk ls ty sigs)
      | inr e ↦ rw e (ap (λ l. entry ty sig ∷ l) (new_entries-unknown quirk ls ty sigs))
    ])

no_entries :
    (quirk : SigDbUpdateQuirkMode) (ls : List SignatureList) (ty : List ℕ) (size : ℕ)
    (sigs : List (List ℕ))
    → 16 ≤ size
    → AllSized size sigs
    → (length (flatten (unknown quirk ls ty sigs)) == 0) ≡ true
    → unknown quirk ls ty sigs ≡ []
unfolding flatten
no_entries quirk ls ty size [] large all e = refl
no_entries quirk ls ty size (sig ∷ sigs) large all e =
    elim (Bool-cases (any_list (list_has quirk ty sig) ls)) [
      | inl e1 ↦ rw e1 (no_entries quirk ls ty size sigs large all.1 (rw e1 at e))
      | inr e1 ↦ absurd (impossible (rw e1 at e))
    ]
  where
    impossible : (length (flatten (sig ∷ unknown quirk ls ty sigs)) == 0) ≡ true → ⊥
    impossible p = ground (arith, length-append sig (flatten (unknown quirk ls ty sigs)), all.0)

pub entries-kept :
    (quirk : SigDbUpdateQuirkMode) (ls us : List SignatureList) (s : List ℕ)
    → Lists us s
    → entries (kept quirk ls us) ≡ new_entries quirk (entries ls) (entries us)
unfolding new_entries
entries-kept quirk ls [] s h = refl
entries-kept quirk ls (l ∷ us) s (size, rest, p, h) =
    rw
      (
        new_entries-append quirk (entries ls) (entries_of_type l.signature_type l.signatures)
            (entries us),
        ← new_entries-unknown quirk ls l.signature_type l.signatures,
      )
      (elim (Bool-cases (length (flatten (left_of quirk ls l).signatures) == 0)) [
        | inl e ↦
            rw (e, no_entries quirk ls l.signature_type size l.signatures p.large p.all_sized e)
              (entries-kept quirk ls us rest h)
        | inr e ↦ rw e (
            ap
              (λ k.
                entries_of_type l.signature_type (unknown quirk ls l.signature_type l.signatures)
                ++ k)
              (entries-kept quirk ls us rest h))
      ])
