-- ===== src/RecoveryKey/Tests.antt =====
-- The key of the documentation of `ParseRecoveryKey`, read and printed.
use Prim.Native.Char.{code}
use secboot.Prelude.{ℕ, String, ◌≡◌, refl, List, [], ◌∷◌, length, arith}
use secboot.Exec.{ok, err, message}
use secboot.RecoveryKey.{
  recovery_key_string, format_group, parse_recovery_key, parse_groups, parse_uint16, parse_digits,
  skip_dash,
}
use secboot.RecoveryKey.RoundTrip.{AllBytes, parse_recovery_key-recovery_key_string}
use secboot.RecoveryKey.Sound.{strip, parse_recovery_key_sound}

abbrev bytes_of_text : String → List ℕ
bytes_of_text String.[] = []
bytes_of_text (String.◌∷◌ c s) = code c ∷ bytes_of_text s

abbrev sample : List ℕ
sample = 225 ∷ 240 ∷ 19 ∷ 2 ∷ 197 ∷ 212 ∷ 55 ∷ 38 ∷ 169 ∷ 184 ∷ 91 ∷ 74 ∷ 141 ∷ 156 ∷ 127 ∷ 110 ∷ []

sample_printed :
    recovery_key_string sample ≡ bytes_of_text "61665-00531-54469-09783-47273-19035-40077-28287"
unfolding recovery_key_string format_group
sample_printed = refl

no_dashes :
    parse_recovery_key (bytes_of_text "6166500531544690978347273190354007728287") ≡ ok sample
unfolding parse_recovery_key parse_groups parse_uint16 parse_digits skip_dash
no_dashes = refl

last_dash :
    parse_recovery_key (bytes_of_text "61665-00531-54469-09783-47273-19035-40077-28287-")
    ≡ err (message "incorrectly formatted: too many characters")
unfolding parse_recovery_key parse_groups parse_uint16 parse_digits skip_dash
last_dash = refl

parse_recovery_key-recovery_key_string_example :
    parse_recovery_key (recovery_key_string sample) ≡ ok sample
parse_recovery_key-recovery_key_string_example =
    parse_recovery_key-recovery_key_string sample refl (omega arith)

parse_recovery_key_sound_example :
    (length sample ≡ 16)
    × AllBytes sample
    × (strip (bytes_of_text "6166500531544690978347273190354007728287")
        ≡ strip (recovery_key_string sample))
parse_recovery_key_sound_example =
    parse_recovery_key_sound (bytes_of_text "6166500531544690978347273190354007728287") sample
      no_dashes
