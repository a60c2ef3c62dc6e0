-- ===== src/BootManager/Ignored.antt =====
-- What the digest of a PE image leaves out of its headers.
use secboot.Prelude.{
  ℕ, zero, suc, ◌+◌, ◌-◌, ◌≤◌, ◌≡◌, refl, ap, List, [], ◌∷◌, ◌++◌, true, false, leb, length, take,
  drop, length-append, arith,
}
use secboot.Exec.{ok}
use secboot.BootManager.{
  read_at, read_section, bytes_between, section_bytes, sum_of_bytes_hashed, extra_bytes,
}

-- Bytes behind a front do not depend on the front.
drop_past :
    (front front' r : List ℕ) (o : ℕ)
    → length front ≡ length front'
    → length front ≤ o
    → drop o (front ++ r) ≡ drop o (front' ++ r)
drop_past [] [] r o e h = refl
drop_past [] (y ∷ front') r o e h = absurd (omega (arith, e))
drop_past (x ∷ front) [] r o e h = absurd (omega (arith, e))
drop_past (x ∷ front) (y ∷ front') r zero e h = absurd (omega (arith, h))
drop_past (x ∷ front) (y ∷ front') r (suc o) e h =
    drop_past front front' r o (omega (arith, e)) (omega (arith, h))

pub drop_front : (xs ys : List ℕ) (n : ℕ) → n ≤ length xs → drop n (xs ++ ys) ≡ drop n xs ++ ys
drop_front xs ys zero h = refl
drop_front [] ys (suc n) h = absurd (omega (arith, h))
drop_front (x ∷ xs) ys (suc n) h = drop_front xs ys n (omega (arith, h))

pub drop-length : (xs ys : List ℕ) → drop (length xs) (xs ++ ys) ≡ ys
drop-length [] ys = refl
drop-length (x ∷ xs) ys = drop-length xs ys

take-whole : (xs ys : List ℕ) → take (length xs) (xs ++ ys) ≡ xs
take-whole [] ys = refl
take-whole (x ∷ xs) ys = ap (λ t. x ∷ t) (take-whole xs ys)

pub leb-true : (a b : ℕ) → a ≤ b → leb a b ≡ true
leb-true a b h = ground arith

leb-false : (a b : ℕ) → b + 1 ≤ a → leb a b ≡ false
leb-false a b h = ground arith

-- A piece of an image is read where it stands.
pub read_section_piece :
    (xs piece ys : List ℕ) (limit : ℕ)
    → 1 ≤ length piece
    → length xs + length piece ≤ limit
    → read_section (xs ++ (piece ++ ys)) limit (length xs) (length piece) ≡ ok piece
unfolding read_section read_at
read_section_piece xs piece ys limit h1 h2 =
    rw
      (
        leb-false limit (length xs) (omega (arith, h1, h2)),
        leb-true (length piece) (limit - length xs) (omega (arith, h2)),
        leb-true (length xs + length piece) (length (xs ++ (piece ++ ys)))
            (omega (arith, length-append xs (piece ++ ys), length-append piece ys)),
        drop-length xs (piece ++ ys),
      )
      (ap ok (take-whole piece ys))

-- Sections that start behind the headers.
abbrev pub AllBehind : ℕ → List (ℕ × ℕ) → Type 0
AllBehind h [] = Unit {0}
AllBehind h ((offset, size) ∷ sections) = (h ≤ offset) × AllBehind h sections

pub sum_of_bytes_hashed_le : (n : ℕ) (sections : List (ℕ × ℕ)) → n ≤ sum_of_bytes_hashed n sections
unfolding sum_of_bytes_hashed
sum_of_bytes_hashed_le n [] = omega arith
sum_of_bytes_hashed_le n ((offset, size) ∷ sections) =
    omega (arith, sum_of_bytes_hashed_le (n + size) sections)

-- Two images that differ in fronts of the same length.
module _ (front front' r : List ℕ) (same : length front ≡ length front') where
  pub bytes_between-same :
      (offset limit : ℕ)
      → length front ≤ offset
      → bytes_between (front ++ r) offset limit ≡ bytes_between (front' ++ r) offset limit
  unfolding bytes_between
  bytes_between-same offset limit h =
      ap (λ t. take (limit - offset) t) (drop_past front front' r offset same h)

  pub section_bytes-same :
      (sections : List (ℕ × ℕ))
      → AllBehind (length front) sections
      → section_bytes (front ++ r) sections ≡ section_bytes (front' ++ r) sections
  unfolding section_bytes
  section_bytes-same [] h = refl
  section_bytes-same ((offset, size) ∷ sections) (h1, h2) =
      rw (bytes_between-same offset (offset + size) h1, section_bytes-same sections h2) refl

  pub extra_bytes-same :
      (sum size : ℕ)
      → length front ≤ sum
      → extra_bytes (front ++ r) sum size ≡ extra_bytes (front' ++ r) sum size
  unfolding extra_bytes
  extra_bytes-same sum size h =
      rw (lengths, bytes_between-same sum (length (front' ++ r) - size) h) refl
    where
      lengths : length (front ++ r) ≡ length (front' ++ r)
      lengths = omega (arith, length-append front r, length-append front' r, same)
