-- ===== src/Profile/Variants.antt =====
-- A profile with a branch for each of several digests, by the values that it computes.
use secboot.Prelude.{ℕ, ◌≡◌, refl, ap, ◌∙◌, List, [], ◌∷◌, ◌++◌, map, Bool, ==_iff, length}
use secboot.Exec.{Exec, Result, ok, err, panic, out_of_fuel, pure, continue, ◌>>=◌}
use secboot.Tpm.{Alg, Digest, PcrValues, PcrFunctions}
use secboot.Profile.{
  extend_pcr, add_profile_or, PcrProtectionProfile, nil, cons, Profiles, no_profiles, profile,
  extend_value, PcrReader, append_instr, with_extend_pcr, with_profile_or,
}
use secboot.Profile.Meaning.{run, run_instr, run_profiles}
use secboot.Profile.Compute.{compute_pcr_values}
use secboot.Profile.Build.{compute-append_instr}

-- A method that changes the profile of the caller.
abbrev pub on_profile :
    (PcrProtectionProfile → Result PcrProtectionProfile) → Exec PcrProtectionProfile (Unit {0})
on_profile f p = elim (f p) [
  | ok p' ↦ (ok tt, p')
  | err e ↦ (err e, p)
  | panic ↦ (panic, p)
  | out_of_fuel ↦ (out_of_fuel, p)
]

pub on_profile_ok :
    (f : PcrProtectionProfile → Result PcrProtectionProfile) (p p' : PcrProtectionProfile)
    → f p ≡ ok p'
    → on_profile f p ≡ (ok tt, p')
on_profile_ok f p p' e =
    ap
      (λ (r : Result PcrProtectionProfile).
        elim r as (λ _. Result (Unit {0}) × PcrProtectionProfile) [
          | ok q ↦ (ok tt, q)
          | err x ↦ (err x, p)
          | panic ↦ (panic, p)
          | out_of_fuel ↦ (out_of_fuel, p)
        ])
      e

-- An action that succeeds, and the rest.
pub then_ok :
    {S A B : Type 0} (m : Exec S A) (k : A → Exec S B) (s s' : S) (a : A)
    → m s ≡ (ok a, s')
    → (m >>= k) s ≡ k a s'
then_ok m k s s' a e = ap (λ (o : Result _ × _). continue k o.0 o.1) e

module _ (f : PcrFunctions) (alg : Alg) (pcr : ℕ) where
  -- The profile of one branch.
  unfoldable pub extension : Digest → Result PcrProtectionProfile
  extension digest = with_extend_pcr f nil alg pcr digest

  -- The branches for some digests.
  unfoldable pub variants : List Digest → Profiles
  variants [] = no_profiles
  variants (d ∷ digests) = profile (cons (extend_pcr alg pcr d) nil) (variants digests)

  -- A digest of the algorithm's size can be added.
  pub with_extend_pcr-fits :
      (p : PcrProtectionProfile) (d : Digest)
      → length d ≡ f.size alg
      → with_extend_pcr f p alg pcr d ≡ ok (append_instr p (extend_pcr alg pcr d))
  unfolding with_extend_pcr
  with_extend_pcr-fits p d h = rw ((==_iff (length d) (f.size alg)).1 h) refl

  pub extension-fits :
      (d : Digest) → length d ≡ f.size alg → extension d ≡ ok (cons (extend_pcr alg pcr d) nil)
  unfolding extension append_instr
  extension-fits d h = with_extend_pcr-fits nil d h

  -- Every value extended by each digest in turn.
  unfoldable pub each_extended : List Digest → List PcrValues → List PcrValues
  each_extended [] values = []
  each_extended (d ∷ digests) values =
      map (extend_value f alg pcr d) values ++ each_extended digests values

  module _ (r : PcrReader) (has_tpm : Bool) where
    run_profiles-variants :
        (digests : List Digest) (values : List PcrValues) (s : r.State)
        → run_profiles f r has_tpm (variants digests) values s
          ≡ (ok (each_extended digests values), s)
    unfolding variants each_extended run
    run_profiles-variants [] values s = refl
    run_profiles-variants (d ∷ digests) values s = rw (run_profiles-variants digests values s) refl

    run_instr-variants :
        (d : Digest) (digests : List Digest) (values : List PcrValues) (s : r.State)
        → run_instr f r has_tpm (add_profile_or (variants (d ∷ digests))) values s
          ≡ (ok (each_extended (d ∷ digests) values), s)
    unfolding variants run
    run_instr-variants d digests values s = run_profiles-variants (d ∷ digests) values s

    -- After `AddProfileOR` with a branch for each digest, the values are those computed before,
    -- extended by each digest in turn.
    pub compute-variants :
        (p : PcrProtectionProfile) (d : Digest) (digests : List Digest) (s : r.State)
        → compute_pcr_values f r has_tpm (with_profile_or p (variants (d ∷ digests))) s
          ≡ (compute_pcr_values f r has_tpm p >>= λ values.
                pure (each_extended (d ∷ digests) values))
              s
    unfolding with_profile_or
    compute-variants p d digests s =
        compute-append_instr f r has_tpm p (add_profile_or (variants (d ∷ digests))) s
        ∙ go (compute_pcr_values f r has_tpm p s)
      where
        go :
            (o : Result (List PcrValues) × r.State)
            → continue (run_instr f r has_tpm (add_profile_or (variants (d ∷ digests)))) o.0 o.1
              ≡ continue (λ values. pure (each_extended (d ∷ digests) values)) o.0 o.1
        go (ok values, s') = run_instr-variants d digests values s'
        go (err e, s') = refl
        go (panic, s') = refl
        go (out_of_fuel, s') = refl

    pub compute-extend_pcr :
        (p : PcrProtectionProfile) (d : Digest) (s : r.State)
        → compute_pcr_values f r has_tpm (append_instr p (extend_pcr alg pcr d)) s
          ≡ (compute_pcr_values f r has_tpm p >>= λ values.
                pure (map (extend_value f alg pcr d) values))
              s
    unfolding run
    compute-extend_pcr p d s = compute-append_instr f r has_tpm p (extend_pcr alg pcr d) s

    -- One extension, and then a branch for each of at least one digest.
    pub compute-extended_variants :
        (p : PcrProtectionProfile) (e d : Digest) (digests : List Digest) (s : r.State)
        → compute_pcr_values f r has_tpm
            (with_profile_or (append_instr p (extend_pcr alg pcr e)) (variants (d ∷ digests)))
            s
          ≡ (compute_pcr_values f r has_tpm p >>= λ values.
                pure (each_extended (d ∷ digests) (map (extend_value f alg pcr e) values)))
              s
    compute-extended_variants p e d digests s =
        compute-variants (append_instr p (extend_pcr alg pcr e)) d digests s
        ∙ ap
            (λ (o : Result (List PcrValues) × r.State).
              continue (λ values. pure (each_extended (d ∷ digests) values)) o.0 o.1)
            (compute-extend_pcr p e s)
        ∙ go (compute_pcr_values f r has_tpm p s)
      where
        go :
            (o : Result (List PcrValues) × r.State)
            → (continue (λ values. pure (map (extend_value f alg pcr e) values)) o.0 >>= λ values.
                  pure (each_extended (d ∷ digests) values))
                o.1
              ≡ continue
                  (λ values.
                    pure (each_extended (d ∷ digests) (map (extend_value f alg pcr e) values)))
                  o.0
                  o.1
        go (ok values, s') = refl
        go (err x, s') = refl
        go (panic, s') = refl
        go (out_of_fuel, s') = refl
