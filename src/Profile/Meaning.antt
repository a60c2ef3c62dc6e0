-- ===== src/Profile/Meaning.antt =====
-- What a profile means: the list of PCR values, one for each choice of sub-profiles, by recursion
-- on the profile.
use secboot.Prelude.{List, [], ◌++◌, map, Bool}
use secboot.Exec.{Exec, pure, ◌>>=◌}
use secboot.Tpm.{PcrValues, PcrFunctions}
use secboot.Profile.{
  Instr, add_pcr_value, add_pcr_value_from_tpm, extend_pcr, add_profile_or, PcrProtectionProfile,
  nil, cons, Profiles, no_profiles, profile, extend_value, PcrReader, read_value,
}

module _ (f : PcrFunctions) (r : PcrReader) (has_tpm : Bool) where
  unfoldable mutual
    pub run : PcrProtectionProfile → List PcrValues → Exec r.State (List PcrValues)
    run nil values = pure values
    run (cons i p) values = do changed ← run_instr i values; run p changed

    pub run_instr : Instr → List PcrValues → Exec r.State (List PcrValues)
    run_instr (add_pcr_value alg pcr value) values =
        pure (map (λ v. f.set_value v alg pcr value) values)
    run_instr (add_pcr_value_from_tpm alg pcr) values = do
      value ← read_value f r has_tpm alg pcr
      pure (map (λ v. f.set_value v alg pcr value) values)
    run_instr (extend_pcr alg pcr value) values = pure (map (extend_value f alg pcr value) values)
    run_instr (add_profile_or no_profiles) values = pure values
    run_instr (add_profile_or (profile p rest)) values = run_profiles (profile p rest) values

    pub run_profiles : Profiles → List PcrValues → Exec r.State (List PcrValues)
    run_profiles no_profiles values = pure []
    run_profiles (profile p rest) values = do
      first ← run p values
      others ← run_profiles rest values
      pure (first ++ others)
