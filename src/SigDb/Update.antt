-- ===== src/SigDb/Update.antt =====
-- The filtered update, as the lists that it encodes.
use secboot.Prelude.{
  ℕ, zero, suc, ◌<◌, ◌≡◌, refl, List, [], ◌∷◌, ◌++◌, ◌==◌, if◌then◌else◌, length, arith,
}
use secboot.Exec.{ok}
use secboot.SigDb.{SignatureList, next_signature_list}
use secboot.SigDb.Database.{
  SigDbUpdateQuirkMode, list_has, new_signatures, flatten, encode_list, filter_update,
}
use secboot.SigDb.Parses.{next_signature_list-Parses, length-Parses}
use secboot.SigDb.Decoded.{Lists, any_list, in_database-Lists}

-- The entries of a list that are not in the database's lists.
abbrev pub unknown :
    SigDbUpdateQuirkMode → List SignatureList → List ℕ → List (List ℕ) → List (List ℕ)
unknown quirk ls update_type [] = []
unknown quirk ls update_type (sig ∷ sigs) =
    if any_list (list_has quirk update_type sig) ls
    then unknown quirk ls update_type sigs
    else sig ∷ unknown quirk ls update_type sigs

pub new_signatures-Lists :
    (quirk : SigDbUpdateQuirkMode) (ls : List SignatureList) (orig update_type : List ℕ)
    (sigs : List (List ℕ))
    → Lists ls orig
    → new_signatures quirk orig update_type sigs ≡ ok (unknown quirk ls update_type sigs)
unfolding new_signatures
new_signatures-Lists quirk ls orig update_type [] h = refl
new_signatures-Lists quirk ls orig update_type (sig ∷ sigs) h =
    rw
      (
        in_database-Lists (suc (length orig)) quirk update_type sig ls orig (omega arith) h,
        new_signatures-Lists quirk ls orig update_type sigs h,
      )
      refl

-- The list that is left of a list of the update.
abbrev pub left_of : SigDbUpdateQuirkMode → List SignatureList → SignatureList → SignatureList
left_of quirk ls l = record l { signatures = unknown quirk ls l.signature_type l.signatures }

abbrev pub encoding : SignatureList → List ℕ
encoding l = encode_list l.signature_type l.signature_header l.signatures

-- The filtered update, as lists: those without entries are dropped.
abbrev pub kept :
    SigDbUpdateQuirkMode → List SignatureList → List SignatureList → List SignatureList
kept quirk ls [] = []
kept quirk ls (l ∷ us) =
    if length (flatten (left_of quirk ls l).signatures) == 0
    then kept quirk ls us
    else left_of quirk ls l ∷ kept quirk ls us

abbrev pub encodings : SigDbUpdateQuirkMode → List SignatureList → List SignatureList → List ℕ
encodings quirk ls [] = []
encodings quirk ls (l ∷ us) = encoding (left_of quirk ls l) ++ encodings quirk ls us

pub filter_update-Lists :
    (fuel : ℕ) (quirk : SigDbUpdateQuirkMode) (ls us : List SignatureList) (orig s : List ℕ)
    → length s < fuel
    → Lists ls orig
    → Lists us s
    → filter_update fuel quirk orig s ≡ ok (encodings quirk ls us)
unfolding filter_update next_signature_list
filter_update-Lists zero quirk ls us orig s enough h hu = absurd (omega arith)
filter_update-Lists (suc fuel) quirk ls [] orig s enough h hu = rw hu refl
filter_update-Lists (suc fuel) quirk ls (l ∷ us) orig s enough h (size, rest, p, hu) =
    rw (next_signature_list-Parses p) (
      rw
        (
          new_signatures-Lists quirk ls orig l.signature_type l.signatures h,
          filter_update-Lists fuel quirk ls us orig rest (omega (arith, length-Parses p)) h hu,
        )
        refl)
