-- ===== src/RecoveryKey/RoundTrip.antt =====
-- Parsing what `RecoveryKey.String` prints.
use mathlib.Core.Path.{ap₂}
use mathlib.Core.List.{append-nil}
use secboot.Prelude.{
  ℕ, zero, suc, ◌+◌, ◌*◌, ◌<◌, ◌≡◌, refl, ap, ap, ◌∙◌, sym, List, [], ◌∷◌, ◌++◌, false, length,
  arith, ltb,
}
use secboot.Exec.{ok}
use secboot.RecoveryKey.{
  format_group, recovery_key_string, parse_uint16, skip_dash, parse_groups, parse_recovery_key,
}
use secboot.RecoveryKey.Groups.{parse_uint16-format_group}

abbrev pub AllBytes : List ℕ → Type 0
AllBytes [] = Unit
AllBytes (b ∷ bytes) = (b < 256) × AllBytes bytes

pub five_or_more : (n : ℕ) → ltb (suc (suc (suc (suc (suc n))))) 5 ≡ false
five_or_more n = ground arith

-- A group in front of what the remaining rounds read.
parse_groups-format :
    (rounds lo hi : ℕ) (s out : List ℕ)
    → lo < 256
    → hi < 256
    → parse_groups rounds (skip_dash s) ≡ ok out
    → parse_groups (suc rounds) (format_group (lo + 256 * hi) ++ s) ≡ ok (lo ∷ hi ∷ out)
unfolding parse_groups format_group
parse_groups-format rounds lo hi s out hlo hhi rest =
    rw (enough, group, rest) (ap ok (ap₂ (λ a b. a ∷ b ∷ out) (omega arith) (omega arith)))
  where
    group : parse_uint16 (format_group (lo + 256 * hi)) ≡ ok (lo + 256 * hi)
    group = parse_uint16-format_group (lo + 256 * hi) (omega arith)

    enough : ltb (length (format_group (lo + 256 * hi) ++ s)) 5 ≡ false
    enough = five_or_more (length s)

-- The dash in front of a group is skipped.
skip_dash-group :
    (n : ℕ) (s : List ℕ) → skip_dash (45 ∷ (format_group n ++ s)) ≡ format_group n ++ s
unfolding skip_dash format_group
skip_dash-group n s = refl

skip_dash-string :
    (lo hi : ℕ) (rest : List ℕ)
    → skip_dash (45 ∷ recovery_key_string (lo ∷ hi ∷ rest)) ≡ recovery_key_string (lo ∷ hi ∷ rest)
unfolding recovery_key_string
skip_dash-string lo hi [] =
    ap (λ l. skip_dash (45 ∷ l)) (sym (append-nil (format_group (lo + 256 * hi))))
    ∙ skip_dash-group (lo + 256 * hi) []
    ∙ append-nil (format_group (lo + 256 * hi))
skip_dash-string lo hi (c ∷ rest) = skip_dash-group (lo + 256 * hi) _

-- The groups of a key of two bytes for each round.
parse_groups-recovery_key_string :
    (rounds : ℕ) (k : List ℕ)
    → length k ≡ 2 * suc rounds
    → AllBytes k
    → parse_groups (suc rounds) (recovery_key_string k) ≡ ok k
unfolding recovery_key_string
parse_groups-recovery_key_string rounds [] len bytes = absurd (omega arith)
parse_groups-recovery_key_string rounds (lo ∷ []) len bytes = absurd (omega arith)
parse_groups-recovery_key_string zero (lo ∷ hi ∷ []) len (hlo, (hhi, _)) =
    ap (parse_groups 1) (sym (append-nil (format_group (lo + 256 * hi))))
    ∙ parse_groups-format 0 lo hi [] [] hlo hhi (unfold parse_groups skip_dash in refl)
parse_groups-recovery_key_string (suc rounds) (lo ∷ hi ∷ []) len bytes = absurd (omega arith)
parse_groups-recovery_key_string zero (lo ∷ hi ∷ c ∷ rest) len bytes = absurd (omega arith)
parse_groups-recovery_key_string (suc rounds) (lo ∷ hi ∷ c ∷ []) len bytes = absurd (omega arith)
parse_groups-recovery_key_string (suc rounds) (lo ∷ hi ∷ c ∷ d ∷ rest) len (hlo, (hhi, more)) =
    parse_groups-format (suc rounds) lo hi (45 ∷ recovery_key_string (c ∷ d ∷ rest)) (c ∷ d ∷ rest)
      hlo hhi
      (ap (parse_groups (suc rounds)) (skip_dash-string c d rest)
        ∙ parse_groups-recovery_key_string rounds (c ∷ d ∷ rest) (omega arith) more)

-- `ParseRecoveryKey` reads back every key of 16 bytes that `RecoveryKey.String` prints.
pub parse_recovery_key-recovery_key_string :
    (k : List ℕ) → length k ≡ 16 → AllBytes k → parse_recovery_key (recovery_key_string k) ≡ ok k
unfolding parse_recovery_key
parse_recovery_key-recovery_key_string k len bytes =
    parse_groups-recovery_key_string 7 k (omega arith) bytes
