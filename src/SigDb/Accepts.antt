-- ===== src/SigDb/Accepts.antt =====
-- Whatever `nextSignatureList` returns stands in that relation to the bytes.
use mathlib.Core.Path.{subst}
use secboot.Prelude.{
  ℕ, ◌≤◌, ◌≡◌, refl, ap, sym, ◌∙◌, List, [], ◌∷◌, ◌++◌, some, none, false, Bool-cases, inl, inr,
  ltb, length, arith,
}
use secboot.Exec.{ok, wrap, map_error, bind_result}
use secboot.Exec.Results.{bind_result_ok, map_error_ok, not_ok, ok_injective}
use secboot.SigDb.{
  SignatureList, read_full, read_u32, number_of_signatures, read_signatures, read_entries,
  read_list, next_signature_list,
}
use secboot.SigDb.Database.{flatten}
use secboot.SigDb.Reading.{read_full_ok, Field, read_u32_ok, AllSized, read_signatures_ok}
use secboot.SigDb.Parses.{Parses}

-- What `read_entries` accepts.
record Entries (signature_type : List ℕ) (list_size header_size size : ℕ) (s : List ℕ)
    (l : SignatureList) (rest : List ℕ) : Type 0 where
  same_type : signature_type ≡ l.signature_type
  header_length : length l.signature_header ≡ header_size
  large : 16 ≤ size
  all_sized : AllSized size l.signatures
  counted : number_of_signatures list_size header_size size ≡ ok (length l.signatures)
  bytes : s ≡ l.signature_header ++ (flatten l.signatures ++ rest)

read_entries_ok :
    (signature_type s rest : List ℕ) (list_size header_size size : ℕ) (l : SignatureList)
    → read_entries signature_type list_size header_size size s ≡ ok (l, rest)
    → Entries signature_type list_size header_size size s l rest
unfolding read_entries
read_entries_ok signature_type s rest list_size header_size size l h =
    elim (Bool-cases (ltb size 16)) [ inl e ↦ not_ok (rw e at h) | inr e ↦ behind e (rw e at h) ]
  where
    built :
        (header s' : List ℕ) (count : ℕ) (sigs : List (List ℕ)) (r : List ℕ)
        → ltb size 16 ≡ false
        → read_full header_size s ≡ ok (header, s')
        → number_of_signatures list_size header_size size ≡ ok count
        → read_signatures count size s' ≡ ok (sigs, r)
        → Entries signature_type list_size header_size size s
            (record {
              signature_type = signature_type;
              signature_header = header;
              signatures = sigs;
            })
            r
    built header s' count sigs r e first counted second =
        let (header_length, front) = read_full_ok header_size s header s' first in
        let (number, all, front') = read_signatures_ok count size s' r sigs second in
        record {
          same_type = refl;
          header_length = header_length;
          large = ground arith;
          all_sized = all;
          counted = counted ∙ ap (λ (n : ℕ). ok n) (sym number);
          bytes = front ∙ ap (λ (u : List ℕ). header ++ u) front';
        }

    behind :
        ltb size 16 ≡ false
        → (bind_result
            (map_error
              (wrap "cannot read EFI_SIGNATURE_LIST.SignatureHeader")
              (read_full header_size s))
            λ p. bind_result (number_of_signatures list_size header_size size) λ count.
              bind_result {B = SignatureList × List ℕ} (read_signatures count size p.1) λ q. ok (
                record {
                  signature_type = signature_type;
                  signature_header = p.0;
                  signatures = q.0;
                },
                q.1,
              ))
          ≡ ok (l, rest)
        → Entries signature_type list_size header_size size s l rest
    behind e h =
        let (p, e1, h1) =
          bind_result_ok
            (map_error (wrap "cannot read EFI_SIGNATURE_LIST.SignatureHeader")
              (read_full header_size s))
            _ h in
        let (count, e2, h2) =
          bind_result_ok (number_of_signatures list_size header_size size) _ h1 in
        let (q, e3, h3) = bind_result_ok (read_signatures count size p.1) _ h2 in
        subst
          (λ (o : SignatureList × List ℕ).
            Entries signature_type list_size header_size size s o.0 o.1)
          (ok_injective h3)
          (built p.0 p.1 count q.0 q.1 e (map_error_ok _ (read_full header_size s) e1) e2 e3)

Parses-of_fields :
    {signature_type s s1 s2 s3 rest : List ℕ} {list_size header_size size : ℕ} {l : SignatureList}
    → length signature_type ≡ 16
    → Field list_size s s1
    → Field header_size s1 s2
    → Field size s2 s3
    → Entries signature_type list_size header_size size s3 l rest
    → Parses (signature_type ++ s) l size rest
Parses-of_fields sixteen f1 f2 f3 e = record {
  list_size_field = f1.bytes;
  header_size_field = f2.bytes;
  size_field = f3.bytes;
  list_size_length = f1.size;
  header_size_length = f2.size;
  size_length = f3.size;
  type_length = ap length (sym e.same_type) ∙ sixteen;
  header_length = e.header_length ∙ sym f2.value;
  entry_size = f3.value;
  large = e.large;
  all_sized = e.all_sized;
  counted = rw (f1.value, f2.value) e.counted;
  bytes = rw (f1.front, f2.front, f3.front, e.bytes, e.same_type) refl;
}

read_list_ok :
    (signature_type s rest : List ℕ) (l : SignatureList)
    → length signature_type ≡ 16
    → read_list signature_type s ≡ ok (l, rest)
    → (size : ℕ) × Parses (signature_type ++ s) l size rest
unfolding read_list
read_list_ok signature_type s rest l sixteen h =
    let (p1, e1, h1) =
      bind_result_ok
        (map_error (wrap "cannot read EFI_SIGNATURE_LIST.SignatureListSize") (read_u32 s)) _ h in
    let (p2, e2, h2) =
      bind_result_ok
        (map_error (wrap "cannot read EFI_SIGNATURE_LIST.SignatureHeaderSize") (read_u32 p1.1)) _
        h1 in
    let (p3, e3, h3) =
      bind_result_ok
        (map_error (wrap "cannot read EFI_SIGNATURE_LIST.SignatureSize") (read_u32 p2.1)) _ h2 in
    (
      p3.0,
      Parses-of_fields sixteen (read_u32_ok s p1.1 p1.0 (map_error_ok _ (read_u32 s) e1))
          (read_u32_ok p1.1 p2.1 p2.0 (map_error_ok _ (read_u32 p1.1) e2))
          (read_u32_ok p2.1 p3.1 p3.0 (map_error_ok _ (read_u32 p2.1) e3))
          (read_entries_ok signature_type p3.1 rest p1.0 p2.0 p3.0 l h3),
    )

-- What `nextSignatureList` returns is at the front of the bytes.
pub next_signature_list_ok :
    (s rest : List ℕ) (l : SignatureList)
    → next_signature_list s ≡ ok (some (l, rest))
    → (size : ℕ) × Parses s l size rest
unfolding next_signature_list
next_signature_list_ok [] rest l h = absurd (none_not_some (ok_injective h))
  where
    none_not_some : {A : Type 0} {a : A} → none ≡ some a → ⊥
    none_not_some p = cc
next_signature_list_ok (b ∷ s) rest l h =
    let (p, e1, h1) =
      bind_result_ok
        (map_error (wrap "cannot read EFI_SIGNATURE_LIST.SignatureType") (read_full 16 (b ∷ s))) _
        h in
    let (q, e2, h2) = bind_result_ok (read_list p.0 p.1) _ h1 in
    let (sixteen, front) =
      read_full_ok 16 (b ∷ s) p.0 p.1 (map_error_ok _ (read_full 16 (b ∷ s)) e1) in
    let same : q ≡ (l, rest) = some_injective (ok_injective h2) in
    let (size, parses) =
      read_list_ok p.0 p.1 rest l sixteen (e2 ∙ ap (λ (o : SignatureList × List ℕ). ok o) same) in
    (size, subst (λ (u : List ℕ). Parses u l size rest) (sym front) parses)
  where
    some_injective : {A : Type 0} {a b : A} → some a ≡ some b → a ≡ b
    some_injective p = cc

pub next_signature_list-none : (s : List ℕ) → next_signature_list s ≡ ok none → s ≡ []
unfolding next_signature_list
next_signature_list-none [] h = refl
next_signature_list-none (b ∷ s) h =
    let (p, e1, h1) =
      bind_result_ok
        (map_error (wrap "cannot read EFI_SIGNATURE_LIST.SignatureType") (read_full 16 (b ∷ s))) _
        h in
    let (q, e2, h2) = bind_result_ok (read_list p.0 p.1) _ h1 in
    absurd (some_not_none (ok_injective h2))
  where
    some_not_none : {A : Type 0} {a : A} → some a ≡ none → ⊥
    some_not_none p = cc
