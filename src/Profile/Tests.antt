-- ===== src/Profile/Tests.antt =====
-- Runs of profiles over toy PCR functions and a toy TPM, whose PCRs count their reads.
use secboot.Prelude.{
  ℕ, ◌+◌, ◌<◌, ◌≡◌, refl, ◌∙◌, List, [], ◌∷◌, ◌++◌, map, true, false, ◌==◌, if◌then◌else◌, length,
  some, none, arith, ◌≢◌, ◌⊎◌,
}
use secboot.Exec.{Result, ok, err, pure, message, ◌>>=◌}
use secboot.Tpm.{
  Alg, Digest, PcrSelectionList, PcrValues, PcrFunctions, no_values, value_of, value_or_empty,
}
use secboot.Profile.{
  add_pcr_value, add_pcr_value_from_tpm, extend_pcr, add_profile_or, PcrProtectionProfile, nil,
  cons, no_profiles, profile, extend_value, put_value, PcrReader, read_value, with_pcr_value,
  with_profile_or, append_instr, compute_loop, next, next_from, handle, handle_branches, branches,
  set_top, append_values, descend_in_to_profiles,
}
use secboot.Profile.Values.{value_of-put_value}
use secboot.Profile.Meaning.{run, run_profiles}
use secboot.Profile.Compute.{
  compute_pcr_values, compute_pcr_digests, digests_of_values, branch_digests, unique_digests,
  found_in, rounds,
}
use secboot.Profile.Refines.{compute_pcr_values-eq-run}
use secboot.Profile.Paths.{Yields, paths, length-compute_pcr_values}
use secboot.Profile.Digests.{AreDigestsOf, digests_of_values_ok}
use secboot.Profile.Build.{AllHave, with_pcr_value_replaces, compute-with_profile_or}
use secboot.Profile.Results.{IsPlain, ManyDigests, compute_pcr_digests_many}

-- The only PCR that the toy functions know is PCR 7 of algorithm 4.
abbrev toy_selection : PcrValues → PcrSelectionList
toy_selection v = elim (value_of v 4 7) [ none ↦ [] | some _ ↦ (4, 7 ∷ []) ∷ [] ]

abbrev toy : PcrFunctions
toy = record {
  size = λ _. 1;
  hash = λ _ bytes. bytes;
  set_value = put_value;
  selection_list = toy_selection;
  selection_equal = λ a b. length a == length b;
  compute_pcr_digest_simple = λ _ v. (toy_selection v, value_or_empty v 4 7);
}

abbrev reader : PcrReader
reader = record { State = ℕ; pcr_read = λ _ n. (ok (put_value no_values 4 7 (n ∷ [])), n + 1) }

-- Two branches, the second with a branch point of its own, then an extension of all of them.
abbrev sample : PcrProtectionProfile
sample =
    cons
      (add_profile_or (
        profile (cons (add_pcr_value 4 7 (1 ∷ [])) nil) (
          profile
            (cons (add_pcr_value_from_tpm 4 7) (
              cons
                (add_profile_or (
                  profile (cons (extend_pcr 4 7 (2 ∷ [])) nil)
                    (profile (cons (extend_pcr 4 7 (3 ∷ [])) nil) no_profiles)))
                nil))
            no_profiles)))
      (cons (extend_pcr 4 7 (9 ∷ [])) nil)

sample-paths : paths sample ≡ 3
unfolding paths
sample-paths = refl

abbrev values_at_7 : Result (List PcrValues) → List Digest
values_at_7 (ok values) = map (λ v. value_or_empty v 4 7) values
values_at_7 _ = []

sample_values :
    values_at_7 (compute_pcr_values toy reader true sample 5).0
    ≡ (1 ∷ 9 ∷ []) ∷ (5 ∷ 2 ∷ 9 ∷ []) ∷ (5 ∷ 3 ∷ 9 ∷ []) ∷ []
unfolding compute_pcr_values compute_loop next next_from handle handle_branches branches set_top
    append_values descend_in_to_profiles rounds extend_value put_value read_value
sample_values = refl

sample_no_tpm :
    (compute_pcr_values toy reader false sample 5).0
    ≡ err (message "cannot read current value of PCR: no TPM context")
unfolding compute_pcr_values compute_loop next next_from handle handle_branches branches set_top
    append_values descend_in_to_profiles rounds extend_value put_value read_value
sample_no_tpm = refl

compute_pcr_values-eq-run_example :
    compute_pcr_values toy reader true sample 5 ≡ run toy reader true sample (no_values ∷ []) 5
compute_pcr_values-eq-run_example = compute_pcr_values-eq-run toy reader true sample 5

length-compute_pcr_values_example :
    Yields
      (λ values. (length values ≡ paths sample) × (0 < length values))
      (compute_pcr_values toy reader true sample 5)
length-compute_pcr_values_example = length-compute_pcr_values toy reader true sample 5

sample-IsPlain : IsPlain (compute_pcr_values toy reader true sample 5).0
unfolding compute_pcr_values compute_loop next next_from handle handle_branches branches set_top
    append_values descend_in_to_profiles rounds extend_value put_value read_value
sample-IsPlain = tt

compute_pcr_digests_many_example :
    ManyDigests (paths sample) (compute_pcr_digests toy reader true sample 11 5).0
compute_pcr_digests_many_example =
    compute_pcr_digests_many toy reader true sample 11 5 sample-IsPlain

abbrev at_7 : Digest → PcrValues
at_7 d = λ a. if a == 4 then some (λ q. if q == 7 then some d else none) else none

abbrev three : List PcrValues
three = at_7 (1 ∷ []) ∷ at_7 (2 ∷ []) ∷ at_7 (1 ∷ []) ∷ []

three_digests : digests_of_values toy 11 three ≡ ok ((4, 7 ∷ []) ∷ [], (1 ∷ []) ∷ (2 ∷ []) ∷ [])
unfolding digests_of_values branch_digests unique_digests found_in
three_digests = refl

digests_of_values_ok_example :
    AreDigestsOf toy 11
      (at_7 (1 ∷ []))
      (at_7 (2 ∷ []) ∷ at_7 (1 ∷ []) ∷ [])
      ((4, 7 ∷ []) ∷ [])
      ((1 ∷ []) ∷ (2 ∷ []) ∷ [])
digests_of_values_ok_example =
    digests_of_values_ok toy 11 (at_7 (1 ∷ [])) (at_7 (2 ∷ []) ∷ at_7 (1 ∷ []) ∷ []) three_digests

abbrev other : PcrProtectionProfile
other = cons (add_pcr_value_from_tpm 4 7) nil

put_value_self :
    (v : PcrValues) (alg : Alg) (pcr : ℕ) (d : Digest)
    → value_of (put_value v alg pcr d) alg pcr ≡ some d
put_value_self v alg pcr d = value_of-put_value v alg pcr d alg pcr ∙ ground arith

put_value_ne :
    (v : PcrValues) (alg : Alg) (pcr : ℕ) (d : Digest) (alg' : Alg) (pcr' : ℕ)
    → (alg' ≢ alg) ⊎ (pcr' ≢ pcr)
    → value_of (put_value v alg pcr d) alg' pcr' ≡ value_of v alg' pcr'
put_value_ne v alg pcr d alg' pcr' h = value_of-put_value v alg pcr d alg' pcr' ∙ ground arith

with_pcr_value_runs :
    with_pcr_value toy other 4 7 (6 ∷ []) ≡ ok (append_instr other (add_pcr_value 4 7 (6 ∷ [])))
unfolding with_pcr_value
with_pcr_value_runs = refl

with_pcr_value_replaces_example :
    Yields
      (AllHave 4 7 (6 ∷ []))
      (compute_pcr_values toy reader true (append_instr other (add_pcr_value 4 7 (6 ∷ []))) 5)
with_pcr_value_replaces_example =
    with_pcr_value_replaces toy reader true (record { sets = put_value_self; keeps = put_value_ne })
      other (append_instr other (add_pcr_value 4 7 (6 ∷ []))) 4 7 (6 ∷ []) 5 with_pcr_value_runs

compute-with_profile_or_example :
    compute_pcr_values toy reader true (with_profile_or other (profile sample no_profiles)) 5
    ≡ (compute_pcr_values toy reader true other >>= λ values.
          run toy reader true sample values >>= λ first.
          run_profiles toy reader true no_profiles values >>= λ others. pure (first ++ others))
        5
compute-with_profile_or_example = compute-with_profile_or toy reader true other sample no_profiles 5
