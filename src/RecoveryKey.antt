-- ===== src/RecoveryKey.antt =====
-- crypt.go: recovery keys of 16 bytes, printed as eight numbers of five digits.
pub mod Groups
pub mod RoundTrip
pub mod Sound
mod Tests
use secboot.Prelude.{
  ℕ, zero, suc, ◌+◌, ◌-◌, ◌*◌, ◌/◌, ◌%◌, ◌^◌, List, [], ◌∷◌, ◌++◌, Bool, true, false, ◌&&◌, ltb,
  leb, ◌==◌, if◌then◌else◌, length, take, drop,
}
use secboot.Exec.{Result, ok, err, bind_result, message, wrap, map_error}

-- `fmt.Sprintf("%05d", n)` for a `uint16`, as bytes.
unfoldable pub format_group : ℕ → List ℕ
format_group n =
    (48 + n / 10000)
    ∷ (48 + n / 1000 % 10)
    ∷ (48 + n / 100 % 10)
    ∷ (48 + n / 10 % 10)
    ∷ (48 + n % 10)
    ∷ []

-- `RecoveryKey.String`: `binary.LittleEndian.Uint16` of each two bytes, with dashes between.
unfoldable pub recovery_key_string : List ℕ → List ℕ
recovery_key_string (lo ∷ hi ∷ []) = format_group (lo + 256 * hi)
recovery_key_string (lo ∷ hi ∷ rest) = format_group (lo + 256 * hi) ++ 45 ∷ recovery_key_string rest
recovery_key_string _ = []

abbrev pub is_digit : ℕ → Bool
is_digit c = leb 48 c && leb c 57

-- `strconv.ParseUint(s, 10, 64)`, from the value of the digits before.
unfoldable pub parse_digits : ℕ → List ℕ → Result ℕ
parse_digits n [] = ok n
parse_digits n (c ∷ s) =
    let rest = parse_digits (n * 10 + (c - 48)) s in
    if is_digit c then rest else err (message "invalid syntax")

-- `strconv.ParseUint(s, 10, 16)` of at most five bytes, where only the last digit can leave the range.
unfoldable pub parse_uint16 : List ℕ → Result ℕ
parse_uint16 s =
    bind_result (parse_digits 0 s)
      λ n. if ltb n (2 ^ 16) then ok n else err (message "value out of range")

-- A single `-` before the next group is dropped, if it is not the last byte.
unfoldable pub skip_dash : List ℕ → List ℕ
skip_dash (c ∷ d ∷ s) = if c == 45 then d ∷ s else c ∷ d ∷ s
skip_dash s = s

-- The loop of `ParseRecoveryKey`, with the rounds that are left; `binary.LittleEndian.PutUint16`
-- writes the two bytes of each group.
unfoldable pub parse_groups : ℕ → List ℕ → Result (List ℕ)
parse_groups zero s =
    if ltb 0 (length s) then err (message "incorrectly formatted: too many characters") else ok []
parse_groups (suc rounds) s =
    let rest = bind_result (map_error (wrap "incorrectly formatted") (parse_uint16 (take 5 s))) λ x.
      bind_result (parse_groups rounds (skip_dash (drop 5 s)))
        λ out. ok (x % 256 ∷ x / 256 ∷ out) in
    if ltb (length s) 5
    then err (message "incorrectly formatted: insufficient characters")
    else rest

-- `ParseRecoveryKey`
unfoldable pub parse_recovery_key : List ℕ → Result (List ℕ)
parse_recovery_key s = parse_groups 8 s
