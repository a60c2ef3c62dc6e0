-- ===== src/SigDb/Kept.antt =====
-- The filtered update decodes to the lists that it is made of.
use mathlib.Core.Path.{subst}
use mathlib.Core.List.{append_assoc}
use secboot.Prelude.{
  ℕ, ◌+◌, ◌-◌, ◌*◌, ◌/◌, ◌%◌, ◌^◌, ◌<◌, ◌≤◌, ◌≡◌, refl, sym, List, [], ◌∷◌, ◌++◌, Bool, true, false,
  ◌==◌, if◌then◌else◌, length, length-append, Bool-cases, inl, inr, leb, arith,
}
use secboot.Exec.{ok}
use secboot.SigDb.{SignatureList, le32, put_le32, number_of_signatures}
use secboot.SigDb.Database.{SigDbUpdateQuirkMode, list_has, flatten, last_size, encode_list}
use secboot.SigDb.Reading.{le32-put_le32, length-put_le32, AllSized}
use secboot.SigDb.Parses.{Parses, length-Parses}
use secboot.SigDb.Decoded.{Lists, any_list}
use secboot.SigDb.Update.{unknown, left_of, encoding, kept, encodings}

AllSized-unknown :
    (quirk : SigDbUpdateQuirkMode) (ls : List SignatureList) (update_type : List ℕ) (size : ℕ)
    (sigs : List (List ℕ))
    → AllSized size sigs
    → AllSized size (unknown quirk ls update_type sigs)
AllSized-unknown quirk ls update_type size [] all = all
AllSized-unknown quirk ls update_type size (sig ∷ sigs) all =
    elim (Bool-cases (any_list (list_has quirk update_type sig) ls)) [
      | inl e ↦ rw e (AllSized-unknown quirk ls update_type size sigs all.1)
      | inr e ↦ rw e (all.0, AllSized-unknown quirk ls update_type size sigs all.1)
    ]

length-flatten :
    (size : ℕ) (sigs : List (List ℕ))
    → AllSized size sigs
    → length (flatten sigs) ≡ length sigs * size
unfolding flatten
length-flatten size [] all = omega arith
length-flatten size (sig ∷ sigs) all =
    grind (arith, length-append sig (flatten sigs), length-flatten size sigs all.1)

last_size-cons :
    (n size : ℕ) (sig : List ℕ) (sigs : List (List ℕ))
    → AllSized size (sig ∷ sigs)
    → last_size n (sig ∷ sigs) ≡ size
unfolding last_size
last_size-cons n size sig [] all = all.0
last_size-cons n size sig (sig' ∷ sigs) all = last_size-cons (length sig) size sig' sigs all.1

last_size-AllSized :
    (size : ℕ) (sigs : List (List ℕ))
    → AllSized size sigs
    → 0 < length (flatten sigs)
    → last_size 0 sigs ≡ size
unfolding flatten
last_size-AllSized size [] all more = absurd (omega arith)
last_size-AllSized size (sig ∷ sigs) all more = last_size-cons 0 size sig sigs all

size-le-flatten :
    (size : ℕ) (sigs : List (List ℕ))
    → AllSized size sigs
    → 0 < length (flatten sigs)
    → size ≤ length (flatten sigs)
unfolding flatten
size-le-flatten size [] all more = absurd (omega arith)
size-le-flatten size (sig ∷ sigs) all more = omega (arith, all.0, length-append sig (flatten sigs))

flatten-unknown-le :
    (quirk : SigDbUpdateQuirkMode) (ls : List SignatureList) (update_type : List ℕ)
    (sigs : List (List ℕ))
    → length (flatten (unknown quirk ls update_type sigs)) ≤ length (flatten sigs)
unfolding flatten
flatten-unknown-le quirk ls update_type [] = omega arith
flatten-unknown-le quirk ls update_type (sig ∷ sigs) =
    elim (Bool-cases (any_list (list_has quirk update_type sig) ls)) [
      | inl e ↦ rw e (
          omega
            (arith, flatten-unknown-le quirk ls update_type sigs, length-append sig (flatten sigs)))
      | inr e ↦ rw e (
          omega (
            arith,
            flatten-unknown-le quirk ls update_type sigs,
            length-append sig (flatten sigs),
            length-append sig (flatten (unknown quirk ls update_type sigs)),
          ))
    ]

multiple : (n size : ℕ) → 0 < size → (n * size % size ≡ 0) × (n * size / size ≡ n)
multiple n size h = grind arith

number_of_signatures-exact :
    (header n size total : ℕ)
    → 0 < size
    → total ≡ 28 + header + n * size
    → number_of_signatures total header size ≡ ok n
unfolding number_of_signatures
number_of_signatures-exact header n size total pos h =
    let (divides, quotient) = multiple n size pos in
    let difference : total - (28 + header) ≡ n * size = omega (arith, h) in
    let enough : leb (28 + header) total ≡ true = ground (arith, h) in
    rw enough (rw difference (rw divides (rw quotient refl)))

-- An encoded list is read back.
encoding-Parses :
    (l : SignatureList) (size : ℕ) (rest : List ℕ)
    → length l.signature_type ≡ 16
    → 16 ≤ size
    → AllSized size l.signatures
    → 0 < length (flatten l.signatures)
    → 28 + length l.signature_header + length (flatten l.signatures) < 4294967296
    → Parses (encoding l ++ rest) l size rest
unfolding encode_list
encoding-Parses l size rest sixteen large all more small = record {
  list_size_field =
      put_le32 ((28 + length l.signature_header + length (flatten l.signatures)) % 2 ^ 32);
  header_size_field = put_le32 (length l.signature_header % 2 ^ 32);
  size_field = put_le32 (last_size 0 l.signatures % 2 ^ 32);
  list_size_length = length-put_le32 _;
  header_size_length = length-put_le32 _;
  size_length = length-put_le32 _;
  type_length = sixteen;
  header_length = sym header_field;
  entry_size = size_field;
  large = large;
  all_sized = all;
  counted =
      rw (list_field, header_field)
        (number_of_signatures-exact (length l.signature_header) (length l.signatures) size _
          (omega arith) (omega (arith, length-flatten size l.signatures all)));
  bytes = rw not_empty (simp append_assoc);
}
  where
    header_field : le32 (put_le32 (length l.signature_header % 2 ^ 32)) ≡ length l.signature_header
    header_field = omega (arith, le32-put_le32 (length l.signature_header % 2 ^ 32) (omega arith))

    list_field :
        le32 (put_le32 ((28 + length l.signature_header + length (flatten l.signatures)) % 2 ^ 32))
        ≡ 28 + length l.signature_header + length (flatten l.signatures)
    list_field = omega (
      arith,
      le32-put_le32 ((28 + length l.signature_header + length (flatten l.signatures)) % 2 ^ 32)
          (omega arith),
    )

    size_field : le32 (put_le32 (last_size 0 l.signatures % 2 ^ 32)) ≡ size
    size_field = rw (last_size-AllSized size l.signatures all more) (
        omega (
          arith,
          le32-put_le32 (size % 2 ^ 32) (omega arith),
          size-le-flatten size l.signatures all more,
        ))

    not_empty : (length (flatten l.signatures) == 0) ≡ false
    not_empty = ground arith

-- What is left of the update is encoded, list by list.
pub kept-Lists :
    (quirk : SigDbUpdateQuirkMode) (ls us : List SignatureList) (s : List ℕ)
    → Lists us s
    → length s < 4294967296
    → Lists (kept quirk ls us) (encodings quirk ls us)
unfolding encode_list
kept-Lists quirk ls [] s h small = refl
kept-Lists quirk ls (l ∷ us) s (size, rest, p, h) small =
    elim (Bool-cases (length (flatten (left_of quirk ls l).signatures) == 0)) [
      | inl e ↦ rw e (kept-Lists quirk ls us rest h (omega (arith, length-Parses p)))
      | inr e ↦
          subst
            (λ (b : Bool).
              Lists (if b then kept quirk ls us else left_of quirk ls l ∷ kept quirk ls us)
                (encoding (left_of quirk ls l) ++ encodings quirk ls us))
            (sym e)
            (
              size,
              encodings quirk ls us,
              encoding-Parses (left_of quirk ls l) size (encodings quirk ls us) p.type_length
                  p.large (AllSized-unknown quirk ls l.signature_type size l.signatures p.all_sized)
                  (ground arith)
                  (omega (
                    arith,
                    length-Parses p,
                    flatten-unknown-le quirk ls l.signature_type l.signatures,
                  )),
              kept-Lists quirk ls us rest h (omega (arith, length-Parses p)),
            )
    ]
