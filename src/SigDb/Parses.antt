-- ===== src/SigDb/Parses.antt =====
-- What `nextSignatureList` accepts, as a relation between bytes and lists.
use mathlib.Core.List.{append_assoc}
use secboot.Prelude.{
  ℕ, ◌+◌, ◌≤◌, ◌≡◌, refl, ap, ◌∙◌, List, [], ◌∷◌, ◌++◌, some, false, ltb, length, length-append,
  arith,
}
use secboot.Exec.{ok, bind_result}
use secboot.SigDb.{
  SignatureList, le32, number_of_signatures, read_entries, read_list, next_signature_list,
}
use secboot.SigDb.Database.{flatten}
use secboot.SigDb.Reading.{read_full-append, read_u32-append, AllSized, read_signatures-flatten}

-- The front of `s` is the list `l`, with entries of `size` bytes, and `rest` follows.
pub record Parses (s : List ℕ) (l : SignatureList) (size : ℕ) (rest : List ℕ) : Type 0 where
  pub list_size_field : List ℕ
  pub header_size_field : List ℕ
  pub size_field : List ℕ
  pub list_size_length : length list_size_field ≡ 4
  pub header_size_length : length header_size_field ≡ 4
  pub size_length : length size_field ≡ 4
  pub type_length : length l.signature_type ≡ 16
  pub header_length : length l.signature_header ≡ le32 header_size_field
  pub entry_size : le32 size_field ≡ size
  pub large : 16 ≤ size
  pub all_sized : AllSized size l.signatures
  pub counted :
      number_of_signatures (le32 list_size_field) (le32 header_size_field) size
      ≡ ok (length l.signatures)
  pub bytes :
      s
      ≡ l.signature_type
        ++ (list_size_field
            ++ (header_size_field
                ++ (size_field ++ (l.signature_header ++ (flatten l.signatures ++ rest)))))

-- The type of a list is read in front of a non-empty rest.
next_signature_list-type :
    (signature_type s : List ℕ)
    → length signature_type ≡ 16
    → next_signature_list (signature_type ++ s)
      ≡ bind_result (read_list signature_type s) (λ next. ok (some next))
unfolding next_signature_list
next_signature_list-type [] s h = absurd (omega arith)
next_signature_list-type (b ∷ signature_type) s h =
    rw (read_full-append 16 (b ∷ signature_type) s h) refl

module _ {s : List ℕ} {l : SignatureList} {size : ℕ} {rest : List ℕ}
    (p : Parses s l size rest) where
  read_list-Parses :
      read_list l.signature_type (
        p.list_size_field
        ++ (p.header_size_field
            ++ (p.size_field ++ (l.signature_header ++ (flatten l.signatures ++ rest)))))
      ≡ ok (l, rest)
  unfolding read_list read_entries
  read_list-Parses =
      rw
        (
          read_u32-append p.list_size_field _ p.list_size_length,
          read_u32-append p.header_size_field
              (p.size_field ++ (l.signature_header ++ (flatten l.signatures ++ rest)))
              p.header_size_length,
          read_u32-append p.size_field (l.signature_header ++ (flatten l.signatures ++ rest))
              p.size_length,
          p.entry_size,
        )
        (rw (large_enough) (
          rw
            (
              read_full-append (le32 p.header_size_field) l.signature_header
                  (flatten l.signatures ++ rest) p.header_length,
              p.counted,
              read_signatures-flatten l.signatures size rest p.all_sized,
            )
            refl))
    where
      large_enough : ltb size 16 ≡ false
      large_enough = let h : 16 ≤ size = p.large in ground arith

  -- The bytes of a list are read back as the list.
  pub next_signature_list-Parses : next_signature_list s ≡ ok (some (l, rest))
  next_signature_list-Parses =
      rw (p.bytes, next_signature_list-type l.signature_type _ p.type_length, read_list-Parses) refl

  -- What follows a list does not matter to it.
  pub Parses-append : (t : List ℕ) → Parses (s ++ t) l size (rest ++ t)
  Parses-append t = record {
    list_size_field = p.list_size_field;
    header_size_field = p.header_size_field;
    size_field = p.size_field;
    list_size_length = p.list_size_length;
    header_size_length = p.header_size_length;
    size_length = p.size_length;
    type_length = p.type_length;
    header_length = p.header_length;
    entry_size = p.entry_size;
    large = p.large;
    all_sized = p.all_sized;
    counted = p.counted;
    bytes = ap (λ (u : List ℕ). u ++ t) p.bytes ∙ simp append_assoc;
  }

  pub length-Parses :
      length s ≡ 28 + length l.signature_header + length (flatten l.signatures) + length rest
  length-Parses = rw p.bytes (
      omega (
        arith,
        length-append l.signature_type (after),
        length-append p.list_size_field (after1),
        length-append p.header_size_field (after2),
        length-append p.size_field (after3),
        length-append l.signature_header (after4),
        length-append (flatten l.signatures) rest,
        p.type_length,
        p.list_size_length,
        p.header_size_length,
        p.size_length,
      ))
    where
      after4 : List ℕ
      after4 = flatten l.signatures ++ rest

      after3 : List ℕ
      after3 = l.signature_header ++ after4

      after2 : List ℕ
      after2 = p.size_field ++ after3

      after1 : List ℕ
      after1 = p.header_size_field ++ after2

      after : List ℕ
      after = p.list_size_field ++ after1
