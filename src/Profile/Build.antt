-- ===== src/Profile/Build.antt =====
-- The methods that build a profile, by what they add to the values that it computes.
use secboot.Prelude.{
  ℕ, ◌+◌, ◌≤◌, ◌≡◌, ◌≢◌, sym, ap, ◌∙◌, List, [], ◌∷◌, ◌++◌, map, Bool, length, some, arith,
  Bool-cases, inl, inr, ◌⊎◌, length-append,
}
use mathlib.Core.Path.{subst}
use secboot.Exec.{Result, ok, pure, continue, ◌>>=◌}
use secboot.Tpm.{Alg, Digest, PcrValues, PcrFunctions, no_values, value_of}
use secboot.Profile.{
  Instr, add_pcr_value, add_profile_or, PcrProtectionProfile, nil, cons, Profiles, profile,
  PcrReader, append_instr, with_pcr_value, with_profile_or,
}
use secboot.Profile.Meaning.{run, run_instr, run_profiles}
use secboot.Profile.Compute.{compute_pcr_values, unique_digests, found_in}
use secboot.Profile.Refines.{compute_pcr_values-eq-run, bind_assoc, bind_congr, bind-pure}
use secboot.Profile.Paths.{Yields, Yields-any, Yields-bind}

module _ (f : PcrFunctions) (r : PcrReader) (has_tpm : Bool) where
  run-append_instr :
      (p : PcrProtectionProfile) (i : Instr) (values : List PcrValues) (s : r.State)
      → run f r has_tpm (append_instr p i) values s
        ≡ (run f r has_tpm p values >>= run_instr f r has_tpm i) s
  unfolding run append_instr
  run-append_instr nil i values s = bind-pure (run_instr f r has_tpm i values) s
  run-append_instr (cons j p) i values s =
      bind_congr (run_instr f r has_tpm j values) s (λ changed s'. run-append_instr p i changed s')
      ∙ sym (bind_assoc (run_instr f r has_tpm j values) (run f r has_tpm p) _ s)

  -- The values of a profile with one more instruction.
  pub compute-append_instr :
      (p : PcrProtectionProfile) (i : Instr) (s : r.State)
      → compute_pcr_values f r has_tpm (append_instr p i) s
        ≡ (compute_pcr_values f r has_tpm p >>= run_instr f r has_tpm i) s
  compute-append_instr p i s =
      compute_pcr_values-eq-run f r has_tpm (append_instr p i) s
      ∙ run-append_instr p i (no_values ∷ []) s
      ∙ ap (λ (o : Result (List PcrValues) × r.State). continue (run_instr f r has_tpm i) o.0 o.1)
          (sym (compute_pcr_values-eq-run f r has_tpm p s))

  -- `AddProfileOR` with at least one sub-profile: each starts from the values computed so far, and
  -- the results follow one another.
  pub compute-with_profile_or :
      (p q : PcrProtectionProfile) (rest : Profiles) (s : r.State)
      → compute_pcr_values f r has_tpm (with_profile_or p (profile q rest)) s
        ≡ (compute_pcr_values f r has_tpm p >>= λ values. run f r has_tpm q values >>= λ first.
              run_profiles f r has_tpm rest values >>= λ others. pure (first ++ others))
            s
  unfolding with_profile_or run
  compute-with_profile_or p q rest s = compute-append_instr p (add_profile_or (profile q rest)) s

-- `PCRValues.SetValue` replaces one entry of the map.
pub record SetsOneValue (f : PcrFunctions) : Type 0 where
  pub sets :
      (v : PcrValues) (alg : Alg) (pcr : ℕ) (d : Digest)
      → value_of (f.set_value v alg pcr d) alg pcr ≡ some d
  pub keeps :
      (v : PcrValues) (alg : Alg) (pcr : ℕ) (d : Digest) (alg' : Alg) (pcr' : ℕ)
      → (alg' ≢ alg) ⊎ (pcr' ≢ pcr)
      → value_of (f.set_value v alg pcr d) alg' pcr' ≡ value_of v alg' pcr'

abbrev pub AllHave : Alg → ℕ → Digest → List PcrValues → Type 0
AllHave alg pcr d [] = Unit
AllHave alg pcr d (v ∷ values) = (value_of v alg pcr ≡ some d) × AllHave alg pcr d values

AllHave-set_value :
    (f : PcrFunctions)
    → SetsOneValue f
    → (alg : Alg) (pcr : ℕ) (d : Digest) (values : List PcrValues)
    → AllHave alg pcr d (map (λ v. f.set_value v alg pcr d) values)
AllHave-set_value f h alg pcr d [] = tt
AllHave-set_value f h alg pcr d (v ∷ values) =
    (h.sets v alg pcr d, AllHave-set_value f h alg pcr d values)

with_pcr_value_ok :
    (f : PcrFunctions) (p : PcrProtectionProfile) (alg : Alg) (pcr : ℕ) (d : Digest)
    {p' : PcrProtectionProfile}
    → with_pcr_value f p alg pcr d ≡ ok p'
    → append_instr p (add_pcr_value alg pcr d) ≡ p'
unfolding with_pcr_value
with_pcr_value_ok f p alg pcr d h = ground arith

-- After `AddPCRValue`, every combination has the value, whatever was set or extended before.
pub with_pcr_value_replaces :
    (f : PcrFunctions) (r : PcrReader) (has_tpm : Bool) (laws : SetsOneValue f)
    (p p' : PcrProtectionProfile) (alg : Alg) (pcr : ℕ) (d : Digest) (s : r.State)
    → with_pcr_value f p alg pcr d ≡ ok p'
    → Yields (AllHave alg pcr d) (compute_pcr_values f r has_tpm p' s)
unfolding run
with_pcr_value_replaces f r has_tpm laws p p' alg pcr d s h =
    subst (λ q. Yields (AllHave alg pcr d) (compute_pcr_values f r has_tpm q s))
      (with_pcr_value_ok f p alg pcr d h)
      (subst (Yields (AllHave alg pcr d))
        (sym (compute-append_instr f r has_tpm p (add_pcr_value alg pcr d) s))
        (Yields-bind (λ _. Unit) (AllHave alg pcr d) (compute_pcr_values f r has_tpm p) _ s
          (Yields-any _) λ values s' _. AllHave-set_value f laws alg pcr d values))

pub length-unique_digests :
    (unique digests : List Digest)
    → (length (unique_digests unique digests) ≤ length unique + length digests)
      × (length unique ≤ length (unique_digests unique digests))
unfolding unique_digests
length-unique_digests unique [] = omega arith
length-unique_digests unique (d ∷ digests) = elim (Bool-cases (found_in d unique)) [
  | inl e ↦ rw e (omega (arith, length-unique_digests unique digests))
  | inr e ↦ rw e (
      omega (
        arith,
        length-unique_digests (unique ++ d ∷ []) digests,
        length-append {0} unique (d ∷ []),
      ))
]
