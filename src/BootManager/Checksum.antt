-- ===== src/BootManager/Checksum.antt =====
-- That the digest of a PE image does not depend on its checksum and its certificate table entry.
use mathlib.Core.List.{append_assoc}
use mathlib.Core.Path.{subst}
use secboot.Prelude.{
  ℕ, ◌+◌, ◌≤◌, ◌≡◌, refl, sym, ap, ◌∙◌, List, [], ◌∷◌, ◌++◌, Bool, true, false, some, ◌==◌,
  if◌then◌else◌, length, take, drop, get_elem?, length-append, take-append_left, length-drop, arith,
}
use secboot.Exec.{Error, Result, ok, err, bind_result, map_error}
use secboot.Exec.Results.{bind_value}
use secboot.SigDb.{le32}
use secboot.BootManager.{
  PeImages, read_at, read_section, bytes_between, is_pe_signature, coff_header_offset,
  optional_header_of, header_bytes, with_size, section_bytes, sum_of_bytes_hashed, extra_bytes,
  hashed_bytes,
}
use secboot.BootManager.Ignored.{
  leb-true, drop_front, read_section_piece, AllBehind, sum_of_bytes_hashed_le, bytes_between-same,
  section_bytes-same, extra_bytes-same,
}

-- The place of the PE signature, as the DOS header at the start of an image has it.
abbrev pub signoff : List ℕ → ℕ
signoff a = le32 (take 4 (drop 60 (take 96 a)))

-- The bytes up to the checksum of an image that starts with a DOS header.
pub record IsStart (a : List ℕ) : Type 0 where
  pub long : 96 ≤ length a
  pub is_mz : le32 (take 2 (take 96 a) ++ 0 ∷ 0 ∷ []) ≡ 23117
  pub ends_at_checksum : length a ≡ signoff a + 4 + 20 + 64
  pub is_pe : is_pe_signature (take 4 (drop (signoff a) a)) ≡ true

read_dos_header : (a rest : List ℕ) → IsStart a → read_at (a ++ rest) 0 96 ≡ ok (take 96 a)
unfolding read_at
read_dos_header a rest h =
    rw (leb-true 96 (length (a ++ rest)) (omega (arith, h.long, length-append a rest)))
      (ap ok (take-append_left 96 a rest h.long))

coff_header_offset-start :
    (a rest : List ℕ) → IsStart a → coff_header_offset (a ++ rest) (take 96 a) ≡ ok (signoff a + 4)
unfolding coff_header_offset
coff_header_offset-start a rest h =
    go (le32 (take 2 (take 96 a) ++ 0 ∷ 0 ∷ []) == 23117) _ (rw h.is_mz refl) _
      (ap is_pe_signature sign ∙ h.is_pe) _
  where
    z : List ℕ
    z = 0 ∷ 0 ∷ 0 ∷ 0 ∷ []

    sign : take 4 (drop (signoff a) (a ++ rest) ++ z) ≡ take 4 (drop (signoff a) a)
    sign =
        let e1 = drop_front a rest (signoff a) (omega (arith, h.ends_at_checksum)) in
        let l1 = length-drop (signoff a) a in
        ap (λ t. take 4 (t ++ z)) e1
        ∙ take-append_left 4 (drop (signoff a) a ++ rest) z
            (omega (arith, length-append (drop (signoff a) a) rest, l1, h.ends_at_checksum))
        ∙ take-append_left 4 (drop (signoff a) a) rest (omega (arith, l1, h.ends_at_checksum))

    go :
        (b : Bool) (s : Bool)
        → b ≡ true
        → (x : Error) → s ≡ true
        → (n : ℕ) → (if b then (if s then ok n else err x) else ok 0) ≡ ok n
    go true true e1 x e2 n = refl
    go true false e1 x e2 n = cc
    go false s e1 x e2 n = cc

module _ (images : PeImages) (a b r : List ℕ) (plus : Bool) (limit : ℕ) (sections : List (ℕ × ℕ))
    (size : ℕ) (start : IsStart a) (piece : length b ≡ (if plus then 76 else 60))
    (fits : length a + 4 + length b + 8 ≤ limit)
    (behind : AllBehind
      (length a + 4 + length b + 8)
      (images.sort_sections (with_size sections))) where
  -- The front of the image, up to the end of the certificate table entry.
  abbrev pub front : List ℕ → List ℕ → List ℕ
  front checksum entry = a ++ (checksum ++ (b ++ entry))

  abbrev pub sorted : List (ℕ × ℕ)
  sorted = images.sort_sections (with_size sections)

  unfoldable pub outcome : List ℕ → List ℕ → Result (List ℕ)
  outcome checksum entry =
      bind_result (extra_bytes (front checksum entry ++ r) (sum_of_bytes_hashed limit sorted) size)
        λ extra. ok (
          a
          ++ ((b ++ bytes_between (front checksum entry ++ r) (length a + 4 + length b + 8) limit)
              ++ (section_bytes (front checksum entry ++ r) sorted ++ extra)))

  start_read :
      (checksum entry : List ℕ)
      → read_section (front checksum entry ++ r) limit 0 (signoff a + 4 + 20 + 64) ≡ ok a
  start_read checksum entry =
      ap (λ n. read_section (front checksum entry ++ r) limit 0 n) (sym start.ends_at_checksum)
      ∙ ap (λ t. read_section t limit 0 (length a)) (append_assoc a (checksum ++ (b ++ entry)) r)
      ∙ read_section_piece [] a ((checksum ++ (b ++ entry)) ++ r) limit (omega (arith, start.long))
          (omega (arith, fits))

  front_pieces :
      (checksum entry : List ℕ) → front checksum entry ++ r ≡ (a ++ checksum) ++ (b ++ (entry ++ r))
  front_pieces checksum entry =
      append_assoc a (checksum ++ (b ++ entry)) r
      ∙ ap (λ t. a ++ t)
          (append_assoc checksum (b ++ entry) r ∙ ap (λ t. checksum ++ t) (append_assoc b entry r))
      ∙ sym (append_assoc a checksum (b ++ (entry ++ r)))

  middle_read :
      (checksum entry : List ℕ)
      → length checksum ≡ 4
      → read_section (front checksum entry ++ r) limit (length a + 4) (length b) ≡ ok b
  middle_read checksum entry h =
      ap (λ t. read_section t limit (length a + 4) (length b)) (front_pieces checksum entry)
      ∙ ap (λ n. read_section ((a ++ checksum) ++ (b ++ (entry ++ r))) limit n (length b)) place
      ∙ read_section_piece (a ++ checksum) b (entry ++ r) limit (positive plus piece)
          (omega (arith, place, fits))
    where
      place : length a + 4 ≡ length (a ++ checksum)
      place = omega (arith, length-append a checksum, h)

      positive : (p : Bool) → length b ≡ (if p then 76 else 60) → 1 ≤ length b
      positive true e = omega arith
      positive false e = omega arith

  headers_read :
      (checksum entry : List ℕ) (address : ℕ)
      → length checksum ≡ 4
      → header_bytes (front checksum entry ++ r) limit plus (length a + 4) (some (address, size))
        ≡ ok (
          b ++ bytes_between (front checksum entry ++ r) (length a + 4 + length b + 8) limit,
          size,
        )
  unfolding header_bytes
  headers_read checksum entry address h = rw (← piece, middle_read checksum entry h) refl

  hashed_bytes-outcome :
      (checksum entry : List ℕ) (directories : List (ℕ × ℕ)) (address : ℕ)
      → length checksum ≡ 4
      → get_elem? directories 4 ≡ some (address, size)
      → images.new_file (front checksum entry ++ r)
        ≡ ok (record {
          optional_header = some (record {
            is_pe32_plus = plus;
            size_of_headers = limit;
            data_directory = directories;
          });
          sections = sections;
        })
      → hashed_bytes images (front checksum entry ++ r) ≡ outcome checksum entry
  unfolding hashed_bytes outcome optional_header_of header_bytes
  hashed_bytes-outcome checksum entry directories address h1 h2 h3 =
      bind_value
        (ap (λ t. read_at t 0 96) (append_assoc a (checksum ++ (b ++ entry)) r)
          ∙ read_dos_header a _ start)
        _
      ∙ bind_value
          (ap (λ t. coff_header_offset t (take 96 a)) (append_assoc a (checksum ++ (b ++ entry)) r)
            ∙ coff_header_offset-start a _ start)
          _
      ∙ bind_value (ap (map_error _) h3) _
      ∙ bind_value (ap (map_error _) (start_read checksum entry)) _
      ∙ bind_value
          (ap
              (λ n.
                header_bytes (front checksum entry ++ r) limit plus (n + 4)
                  (get_elem? directories 4))
              (sym start.ends_at_checksum)
            ∙ ap (header_bytes (front checksum entry ++ r) limit plus (length a + 4)) h2
            ∙ headers_read checksum entry address h1)
          _

  -- Of an image whose PE signature stands behind its DOS header, with headers that reach beyond the
  -- certificate table entry and sections behind that entry: what is hashed is the same for any
  -- checksum and any entry, if the parser finds the same size of the certificate table and otherwise
  -- the same headers.
  pub hashed_bytes-ignores :
      (checksum checksum' entry entry' : List ℕ) (directories directories' : List (ℕ × ℕ))
      (address address' : ℕ)
      → length checksum ≡ 4
      → length checksum' ≡ 4
      → length entry ≡ 8
      → length entry' ≡ 8
      → get_elem? directories 4 ≡ some (address, size)
      → get_elem? directories' 4 ≡ some (address', size)
      → images.new_file (front checksum entry ++ r)
        ≡ ok (record {
          optional_header = some (record {
            is_pe32_plus = plus;
            size_of_headers = limit;
            data_directory = directories;
          });
          sections = sections;
        })
      → images.new_file (front checksum' entry' ++ r)
        ≡ ok (record {
          optional_header = some (record {
            is_pe32_plus = plus;
            size_of_headers = limit;
            data_directory = directories';
          });
          sections = sections;
        })
      → hashed_bytes images (front checksum entry ++ r)
        ≡ hashed_bytes images (front checksum' entry' ++ r)
  unfolding outcome
  hashed_bytes-ignores c c' e e' ds ds' x x' c4 c4' e8 e8' h h' k k' =
      hashed_bytes-outcome c e ds x c4 h k
      ∙ same_outcome
      ∙ sym (hashed_bytes-outcome c' e' ds' x' c4' h' k')
    where
      long :
          (y z : List ℕ)
          → length y ≡ 4
          → length z ≡ 8
          → length (front y z) ≡ length a + 4 + length b + 8
      long y z y4 z8 = omega (
        arith,
        length-append a (y ++ (b ++ z)),
        length-append y (b ++ z),
        length-append b z,
        y4,
        z8,
      )

      same : length (front c e) ≡ length (front c' e')
      same = long c e c4 e8 ∙ sym (long c' e' c4' e8')

      behind' : AllBehind (length (front c e)) sorted
      behind' = subst (λ n. AllBehind n sorted) (sym (long c e c4 e8)) behind

      short : length (front c e) ≤ length a + 4 + length b + 8
      short = omega (arith, long c e c4 e8)

      reached : length (front c e) ≤ sum_of_bytes_hashed limit sorted
      reached = omega (arith, short, fits, sum_of_bytes_hashed_le limit sorted)

      same_outcome : outcome c e ≡ outcome c' e'
      same_outcome =
          rw
            (
              extra_bytes-same (front c e) (front c' e') r same (sum_of_bytes_hashed limit sorted)
                  size reached,
              bytes_between-same (front c e) (front c' e') r same (length a + 4 + length b + 8)
                  limit short,
              section_bytes-same (front c e) (front c' e') r same sorted behind',
            )
            refl
