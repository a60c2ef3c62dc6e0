-- ===== src/Profile/Paths.antt =====
-- How many combinations of PCR values a profile gives: one for each way through its branch points.
use secboot.Prelude.{
  ℕ, suc, ◌+◌, ◌*◌, ◌<◌, ◌≡◌, refl, ap, ◌∙◌, List, [], ◌∷◌, map, Bool, length, length-append, arith,
}
use secboot.Exec.{Exec, Result, ok, err, panic, out_of_fuel, continue, ◌>>=◌}
use secboot.Tpm.{PcrValues, PcrFunctions, no_values}
use secboot.Profile.{
  Instr, add_pcr_value, add_pcr_value_from_tpm, extend_pcr, add_profile_or, PcrProtectionProfile,
  nil, cons, Profiles, no_profiles, profile, extend_value, PcrReader, read_value,
}
use secboot.Profile.Meaning.{run, run_instr, run_profiles}
use secboot.Profile.Compute.{compute_pcr_values}
use secboot.Profile.Refines.{compute_pcr_values-eq-run}

unfoldable mutual
  pub paths : PcrProtectionProfile → ℕ
  paths nil = 1
  paths (cons i p) = paths_instr i * paths p

  pub paths_instr : Instr → ℕ
  paths_instr (add_profile_or no_profiles) = 1
  paths_instr (add_profile_or (profile p rest)) = paths_profiles (profile p rest)
  paths_instr _ = 1

  pub paths_profiles : Profiles → ℕ
  paths_profiles no_profiles = 0
  paths_profiles (profile p rest) = paths p + paths_profiles rest

mutual
  unfolding paths

  paths_pos : (p : PcrProtectionProfile) → 0 < paths p
  paths_pos nil = omega arith
  paths_pos (cons i p) = grind (arith, paths_instr_pos i, paths_pos p)

  paths_instr_pos : (i : Instr) → 0 < paths_instr i
  paths_instr_pos (add_profile_or no_profiles) = omega arith
  paths_instr_pos (add_profile_or (profile p rest)) = omega (arith, paths_pos p)
  paths_instr_pos (add_pcr_value alg pcr value) = omega arith
  paths_instr_pos (add_pcr_value_from_tpm alg pcr) = omega arith
  paths_instr_pos (extend_pcr alg pcr value) = omega arith

length-map :
    (g : PcrValues → PcrValues) (values : List PcrValues) → length (map g values) ≡ length values
length-map g [] = refl
length-map g (v ∷ values) = ap suc (length-map g values)

-- A successful action has `P` of its value.
abbrev pub Yields : {S A : Type 0} → (A → Type 0) → Result A × S → Type 0
Yields P (ok a, s) = P a
Yields P (err e, s) = Unit
Yields P (panic, s) = Unit
Yields P (out_of_fuel, s) = Unit

pub Yields-any : {S A : Type 0} (o : Result A × S) → Yields (λ _. Unit) o
Yields-any (ok a, s) = tt
Yields-any (err e, s) = tt
Yields-any (panic, s) = tt
Yields-any (out_of_fuel, s) = tt

module _ {S A B : Type 0} (P : A → Type 0) (Q : B → Type 0) where
  pub Yields-bind :
      (m : Exec S A) (k : A → Exec S B) (s : S)
      → Yields P (m s)
      → ((a : A) (s' : S) → P a → Yields Q (k a s'))
      → Yields Q ((m >>= k) s)
  Yields-bind m k s h next = go (m s).0 (m s).1 h
    where
      go : (r : Result A) (s' : S) → Yields P (r, s') → Yields Q (continue k r s')
      go (ok a) s' h' = next a s' h'
      go (err e) s' h' = tt
      go panic s' h' = tt
      go out_of_fuel s' h' = tt

module _ {S A : Type 0} {P Q : A → Type 0} where
  pub Yields-map : (o : Result A × S) → ((a : A) → P a → Q a) → Yields P o → Yields Q o
  Yields-map (ok a, s) g h = g a h
  Yields-map (err e, s) g h = tt
  Yields-map (panic, s) g h = tt
  Yields-map (out_of_fuel, s) g h = tt

product_of : (a b n m : ℕ) → n ≡ a * m → b * n ≡ (a * b) * m
product_of a b n m h = omega (arith, ap (λ (t : ℕ). b * t) h)

module _ (f : PcrFunctions) (r : PcrReader) (has_tpm : Bool) where
  mutual
    unfolding run paths

    length-run :
        (p : PcrProtectionProfile) (values : List PcrValues) (s : r.State)
        → Yields (λ result. length result ≡ paths p * length values) (run f r has_tpm p values s)
    length-run nil values s = omega arith
    length-run (cons i p) values s =
        Yields-bind (λ changed. length changed ≡ paths_instr i * length values)
          (λ result. length result ≡ paths (cons i p) * length values)
          (run_instr f r has_tpm i values) (run f r has_tpm p) s (length-run_instr i values s)
          λ changed s' h.
            Yields-map (run f r has_tpm p changed s')
              (λ result e.
                e ∙ product_of (paths_instr i) (paths p) (length changed) (length values) h)
              (length-run p changed s')

    length-run_instr :
        (i : Instr) (values : List PcrValues) (s : r.State)
        → Yields
            (λ result. length result ≡ paths_instr i * length values)
            (run_instr f r has_tpm i values s)
    length-run_instr (add_pcr_value alg pcr value) values s =
        omega (arith, length-map (λ v. f.set_value v alg pcr value) values)
    length-run_instr (add_pcr_value_from_tpm alg pcr) values s =
        Yields-bind (λ _. Unit) (λ result. length result ≡ 1 * length values)
          (read_value f r has_tpm alg pcr) _ s (Yields-any _)
          λ value s' _. omega (arith, length-map (λ v. f.set_value v alg pcr value) values)
    length-run_instr (extend_pcr alg pcr value) values s =
        omega (arith, length-map (extend_value f alg pcr value) values)
    length-run_instr (add_profile_or no_profiles) values s = omega arith
    length-run_instr (add_profile_or (profile p rest)) values s =
        length-run_profiles (profile p rest) values s

    length-run_profiles :
        (ps : Profiles) (values : List PcrValues) (s : r.State)
        → Yields
            (λ result. length result ≡ paths_profiles ps * length values)
            (run_profiles f r has_tpm ps values s)
    length-run_profiles no_profiles values s = omega arith
    length-run_profiles (profile p rest) values s =
        Yields-bind (λ first. length first ≡ paths p * length values)
          (λ result. length result ≡ paths_profiles (profile p rest) * length values)
          (run f r has_tpm p values) _ s (length-run p values s)
          λ first s' h.
            Yields-bind (λ others. length others ≡ paths_profiles rest * length values)
              (λ result. length result ≡ paths_profiles (profile p rest) * length values)
              (run_profiles f r has_tpm rest values) _ s' (length-run_profiles rest values s')
              λ others s'' h'. grind (arith, length-append first others)

  -- A profile gives one combination of PCR values for each way through its branch points, so
  -- there is at least one, whenever the computation succeeds.
  pub length-compute_pcr_values :
      (p : PcrProtectionProfile) (s : r.State)
      → Yields
          (λ values. (length values ≡ paths p) × (0 < length values))
          (compute_pcr_values f r has_tpm p s)
  length-compute_pcr_values p s = rw compute_pcr_values-eq-run (
      Yields-map (run f r has_tpm p (no_values ∷ []) s)
        (λ values e. (omega (arith, e), omega (arith, e, paths_pos p)))
        (length-run p (no_values ∷ []) s))
