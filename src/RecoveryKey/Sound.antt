-- ===== src/RecoveryKey/Sound.antt =====
-- What `ParseRecoveryKey` accepts: the printed form of the key that it returns, up to dashes.
use mathlib.Core.Path.{ap₂, subst}
use mathlib.Core.List.{append-nil}
use secboot.Prelude.{
  ℕ, zero, suc, ◌+◌, ◌-◌, ◌*◌, ◌/◌, ◌%◌, ◌^◌, ◌<◌, ◌≤◌, ◌≡◌, refl, ap, ◌∙◌, sym, List, [], ◌∷◌,
  ◌++◌, false, Bool-cases, inl, inr, ◌==◌, if◌then◌else◌, length, arith, ltb,
}
use secboot.Exec.Results.{bind_result_ok, map_error_ok}
use secboot.Exec.{Error, ok, err, bind_result, message, map_error, wrap}
use secboot.RecoveryKey.{
  format_group, recovery_key_string, parse_digits, parse_uint16, skip_dash, parse_groups,
  parse_recovery_key,
}
use secboot.RecoveryKey.RoundTrip.{AllBytes, five_or_more}

parse_digits-cons_ok :
    (n c m : ℕ) (s : List ℕ)
    → parse_digits n (c ∷ s) ≡ ok m
    → (48 ≤ c) × (c ≤ 57) × (parse_digits (n * 10 + (c - 48)) s ≡ ok m)
unfolding parse_digits
parse_digits-cons_ok n c m s h = ground arith

parse_digits-nil_ok : (n m : ℕ) → parse_digits n [] ≡ ok m → n ≡ m
unfolding parse_digits
parse_digits-nil_ok n m h = ground arith

in_range :
    (n m : ℕ)
    → (if ltb n (2 ^ 16) then ok n else err (message "value out of range")) ≡ ok m
    → (n ≡ m) × (n < 2 ^ 16)
in_range n m h = ground arith

-- Five bytes that are read as a number are its printed form.
parse_uint16_ok :
    (a b c d e n : ℕ)
    → parse_uint16 (a ∷ b ∷ c ∷ d ∷ e ∷ []) ≡ ok n
    → (n < 2 ^ 16) × (a ∷ b ∷ c ∷ d ∷ e ∷ [] ≡ format_group n)
unfolding parse_uint16 format_group
parse_uint16_ok a b c d e n h =
    let (m, runs, fits) = bind_result_ok (parse_digits 0 (a ∷ b ∷ c ∷ d ∷ e ∷ [])) _ h in
    let (same, small) = in_range m n fits in
    let (la, ha, ra) = parse_digits-cons_ok 0 a m _ runs in
    let (lb, hb, rb) = parse_digits-cons_ok _ b m _ ra in
    let (lc, hc, rc) = parse_digits-cons_ok _ c m _ rb in
    let (ld, hd, rd) = parse_digits-cons_ok _ d m _ rc in
    let (le', he, re) = parse_digits-cons_ok _ e m _ rd in
    let value : ((((0 * 10 + (a - 48)) * 10 + (b - 48)) * 10 + (c - 48)) * 10 + (d - 48)) * 10
          + (e - 48)
        ≡ n =
      parse_digits-nil_ok _ m re ∙ same in
    (
      omega arith,
      ap₂ ◌∷◌ (omega arith) (
          ap₂ ◌∷◌ (omega arith)
            (ap₂ ◌∷◌ (omega arith) (ap₂ ◌∷◌ (omega arith) (ap₂ ◌∷◌ (omega arith) refl)))),
    )

-- The text without its dashes.
abbrev pub strip : List ℕ → List ℕ
strip [] = []
strip (c ∷ s) = if c == 45 then strip s else c ∷ strip s

digit-ne-dash : (d : ℕ) → ((48 + d) == 45) ≡ false
digit-ne-dash d = ground arith

strip-format_group : (n : ℕ) (s : List ℕ) → strip (format_group n ++ s) ≡ format_group n ++ strip s
unfolding format_group
strip-format_group n s =
    rw
      (
        digit-ne-dash (n / 10000),
        digit-ne-dash (n / 1000 % 10),
        digit-ne-dash (n / 100 % 10),
        digit-ne-dash (n / 10 % 10),
        digit-ne-dash (n % 10),
      )
      refl

strip-skip_dash : (s : List ℕ) → strip (skip_dash s) ≡ strip s
unfolding skip_dash
strip-skip_dash [] = refl
strip-skip_dash (c ∷ []) = refl
strip-skip_dash (c ∷ d ∷ s) = elim (Bool-cases (c == 45)) [
  | inl e ↦ rw e refl
  | inr e ↦ rw e (rw e refl)
]

strip-recovery_key_string :
    (lo hi : ℕ) (rest : List ℕ)
    → strip (recovery_key_string (lo ∷ hi ∷ rest))
      ≡ format_group (lo + 256 * hi) ++ strip (recovery_key_string rest)
unfolding recovery_key_string
strip-recovery_key_string lo hi [] =
    ap strip (sym (append-nil (format_group (lo + 256 * hi))))
    ∙ strip-format_group (lo + 256 * hi) []
strip-recovery_key_string lo hi (c ∷ rest) = strip-format_group (lo + 256 * hi) _

-- What a round reads is a group in front of the rest.
Parsed : ℕ → List ℕ → List ℕ → Type 0
Parsed rounds s k = (length k ≡ 2 * rounds) × AllBytes k × (strip s ≡ strip (recovery_key_string k))

end_ok :
    (s k : List ℕ)
    → (if ltb 0 (length s)
        then err (message "incorrectly formatted: too many characters")
        else ok [])
      ≡ ok k
    → (s ≡ []) × (k ≡ [])
end_ok [] k h = (refl, ground arith)
end_ok (c ∷ s) k h = ground arith

not_ok {ℓ} : {A : Type ℓ} (e : Error) (a : A) → err e ≡ ok a → ⊥
not_ok e a h = cc

bytes_of :
    (x : ℕ) → x < 2 ^ 16 → (x % 256 < 256) × (x / 256 < 256) × (x % 256 + 256 * (x / 256) ≡ x)
bytes_of x h = omega arith

-- One round, in front of a parse of the rest.
group_ok :
    (rounds a b c d e : ℕ) (t k : List ℕ)
    → bind_result
        (map_error (wrap "incorrectly formatted") (parse_uint16 (a ∷ b ∷ c ∷ d ∷ e ∷ [])))
        (λ x. bind_result (parse_groups rounds (skip_dash t)) λ out. ok (x % 256 ∷ x / 256 ∷ out))
      ≡ ok k
    → ((out : List ℕ)
        → parse_groups rounds (skip_dash t) ≡ ok out
        → Parsed rounds (skip_dash t) out)
    → Parsed (suc rounds) (a ∷ b ∷ c ∷ d ∷ e ∷ t) k
unfolding Parsed
group_ok rounds a b c d e t k h ih =
    let (x, group, more) = bind_result_ok _ _ h in
    let (out, rest, last) = bind_result_ok (parse_groups rounds (skip_dash t)) _ more in
    let (len, bytes, stripped) = ih out rest in
    let (small, printed) =
      parse_uint16_ok a b c d e x (map_error_ok (wrap "incorrectly formatted") _ group) in
    let (lo, hi, value) = bytes_of x small in
    let key : (x % 256) ∷ (x / 256) ∷ out ≡ k = ground arith in
    subst (Parsed (suc rounds) (a ∷ b ∷ c ∷ d ∷ e ∷ t)) key (
      omega arith,
      (lo, (hi, bytes)),
      ap (λ l. strip (l ++ t)) printed
          ∙ strip-format_group x t
          ∙ ap (λ l. format_group x ++ l) (sym (strip-skip_dash t) ∙ stripped)
          ∙ ap (λ y. format_group y ++ strip (recovery_key_string out)) (sym value)
          ∙ sym (strip-recovery_key_string (x % 256) (x / 256) out),
    )

parse_groups_ok : (rounds : ℕ) (s k : List ℕ) → parse_groups rounds s ≡ ok k → Parsed rounds s k
unfolding parse_groups
parse_groups_ok zero s k h =
    let (p, q) = end_ok s k h in
    unfold Parsed recovery_key_string in
    (
      ap length q ∙ omega arith,
      subst AllBytes (sym q) tt,
      ap strip p ∙ ap (λ l. strip (recovery_key_string l)) (sym q),
    )
parse_groups_ok (suc rounds) [] k h = absurd (not_ok _ k h)
parse_groups_ok (suc rounds) (a ∷ []) k h = absurd (not_ok _ k h)
parse_groups_ok (suc rounds) (a ∷ b ∷ []) k h = absurd (not_ok _ k h)
parse_groups_ok (suc rounds) (a ∷ b ∷ c ∷ []) k h = absurd (not_ok _ k h)
parse_groups_ok (suc rounds) (a ∷ b ∷ c ∷ d ∷ []) k h = absurd (not_ok _ k h)
parse_groups_ok (suc rounds) (a ∷ b ∷ c ∷ d ∷ e ∷ t) k h =
    group_ok rounds a b c d e t k (rw five_or_more at h)
      (λ out. parse_groups_ok rounds (skip_dash t) out)

-- A text that `ParseRecoveryKey` accepts is, up to dashes, what `RecoveryKey.String` prints for the
-- result, and that is a key of 16 bytes.
pub parse_recovery_key_sound :
    (s k : List ℕ)
    → parse_recovery_key s ≡ ok k
    → (length k ≡ 16) × AllBytes k × (strip s ≡ strip (recovery_key_string k))
unfolding parse_recovery_key Parsed
parse_recovery_key_sound s k h = parse_groups_ok 8 s k h
