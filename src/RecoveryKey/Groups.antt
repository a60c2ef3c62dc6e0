-- ===== src/RecoveryKey/Groups.antt =====
-- One group of five digits.
use secboot.Prelude.{
  ℕ, ◌+◌, ◌*◌, ◌/◌, ◌%◌, ◌^◌, ◌<◌, ◌≡◌, ap, ◌∙◌, List, [], ◌∷◌, true, if◌then◌else◌, arith, ltb,
}
use secboot.Exec.{ok, err, message}
use secboot.RecoveryKey.{format_group, is_digit, parse_digits, parse_uint16}

is_digit-add : (d : ℕ) → d < 10 → is_digit (48 + d) ≡ true
is_digit-add d h = ground arith

-- Reading one printed digit.
parse_digits-cons :
    (n d : ℕ) (s : List ℕ) → d < 10 → parse_digits n ((48 + d) ∷ s) ≡ parse_digits (n * 10 + d) s
unfolding parse_digits
parse_digits-cons n d s h =
    rw (is_digit-add d h) (ap (λ m. parse_digits (n * 10 + m) s) (omega arith))

parse_digits-nil : (m n : ℕ) → m ≡ n → parse_digits m [] ≡ ok n
unfolding parse_digits
parse_digits-nil m n e = ap ok e

pub parse_uint16-format_group : (n : ℕ) → n < 2 ^ 16 → parse_uint16 (format_group n) ≡ ok n
unfolding parse_uint16 format_group
parse_uint16-format_group n h = rw digits (in_range n h)
  where
    in_range :
        (m : ℕ)
        → m < 2 ^ 16
        → (if ltb m (2 ^ 16) then ok m else err (message "value out of range")) ≡ ok m
    in_range m lt = ground arith

    digits : parse_digits 0 (format_group n) ≡ ok n
    digits =
        parse_digits-cons 0 (n / 10000) _ (omega arith)
        ∙ parse_digits-cons (0 * 10 + n / 10000) (n / 1000 % 10) _ (omega arith)
        ∙ parse_digits-cons ((0 * 10 + n / 10000) * 10 + n / 1000 % 10) (n / 100 % 10) _
            (omega arith)
        ∙ parse_digits-cons (((0 * 10 + n / 10000) * 10 + n / 1000 % 10) * 10 + n / 100 % 10)
            (n / 10 % 10) _ (omega arith)
        ∙ parse_digits-cons
            ((((0 * 10 + n / 10000) * 10 + n / 1000 % 10) * 10 + n / 100 % 10) * 10 + n / 10 % 10)
            (n % 10) [] (omega arith)
        ∙ parse_digits-nil
            (((((0 * 10 + n / 10000) * 10 + n / 1000 % 10) * 10 + n / 100 % 10) * 10 + n / 10 % 10)
                * 10
              + n % 10)
            n (omega arith)
