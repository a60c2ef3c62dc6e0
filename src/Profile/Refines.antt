-- ===== src/Profile/Refines.antt =====
-- The traversal with its iterator and its stack of contexts computes what the profile means.
use secboot.Prelude.{
  ℕ, zero, suc, ◌≡◌, refl, sym, ap, ◌∙◌, List, [], ◌∷◌, ◌++◌, Bool, none, some, length, arith, ◌+◌,
}
use mathlib.Core.List.{append-nil, append_assoc}
use secboot.Exec.{Exec, Result, ok, err, panic, out_of_fuel, pure, continue, ◌>>=◌}
use secboot.Tpm.{PcrValues, PcrFunctions, no_values}
use secboot.Profile.{
  Instr, add_pcr_value, add_pcr_value_from_tpm, extend_pcr, add_profile_or, PcrProtectionProfile,
  nil, cons, Profiles, no_profiles, profile, count, Iterator, next, next_from,
  descend_in_to_profiles, ComputeContext, ContextStack, branches, handle_branches, append_values,
  set_top, PcrReader, read_value, handle, compute_loop,
}
use secboot.Profile.Compute.{rounds, rounds_instr, rounds_profiles, compute_pcr_values}
use secboot.Profile.Meaning.{run, run_instr, run_profiles}

module _ {S A B C : Type 0} where
  pub bind_assoc :
      (m : Exec S A) (f : A → Exec S B) (g : B → Exec S C) (s : S)
      → ((m >>= f) >>= g) s ≡ (m >>= λ a. f a >>= g) s
  bind_assoc m f g s = go (m s).0 (m s).1
    where
      go :
          (r : Result A) (s' : S)
          → ((λ (_ : S). continue f r s') >>= g) s ≡ continue (λ a. f a >>= g) r s'
      go (ok a) s' = refl
      go (err e) s' = refl
      go panic s' = refl
      go out_of_fuel s' = refl

module _ {S A : Type 0} where
  pub bind-pure : (m : Exec S A) (s : S) → (m >>= pure) s ≡ m s
  bind-pure m s = go (m s).0 (m s).1
    where
      go : (r : Result A) (s' : S) → continue pure r s' ≡ (r, s')
      go (ok a) s' = refl
      go (err e) s' = refl
      go panic s' = refl
      go out_of_fuel s' = refl

module _ {S A B : Type 0} where
  pub bind_congr :
      (m : Exec S A) {f g : A → Exec S B} (s : S)
      → ((a : A) (s' : S) → f a s' ≡ g a s')
      → (m >>= f) s ≡ (m >>= g) s
  bind_congr m s p = λ i. continue (λ a s'. p a s' i) (m s).0 (m s).1

length-branches :
    (n parent : ℕ) (values : List PcrValues) (rest : ContextStack)
    → length (branches n parent values ++ rest) ≡ n + length rest
unfolding branches
length-branches zero parent values rest = omega arith
length-branches (suc n) parent values rest = omega (arith, length-branches n parent values rest)

-- The values of a branch go to the context below its siblings.
append_values-branches :
    (n : ℕ) (branch values : List PcrValues) (c : ComputeContext) (rest : ContextStack)
    → append_values (length rest) values (branches n (length rest) branch ++ c ∷ rest)
      ≡ branches n (length rest) branch ++ record c { values = c.values ++ values } ∷ rest
unfolding append_values branches
append_values-branches zero branch values c rest = ground arith
append_values-branches (suc n) branch values c rest = ground (
  arith,
  length-branches n (length rest) branch (c ∷ rest),
  append_values-branches n branch values c rest,
)

module _ (f : PcrFunctions) (r : PcrReader) (has_tpm : Bool) where
  -- An empty branch point takes no round of the loop.
  skip_empty :
      (k : ℕ) (p : PcrProtectionProfile) (iter : Iterator) (contexts : ContextStack) (s : r.State)
      → compute_loop f r has_tpm k (cons (add_profile_or no_profiles) p ∷ iter) contexts s
        ≡ compute_loop f r has_tpm k (p ∷ iter) contexts s
  unfolding compute_loop next next_from
  skip_empty zero p iter contexts s = refl
  skip_empty (suc k) p iter contexts s = refl

  mutual
    unfolding compute_loop next next_from handle handle_branches rounds run set_top
        descend_in_to_profiles branches

    -- The loop over the rest of one profile changes the values at the top of the stack as the
    -- profile's meaning does, and goes on.
    pub loop-run :
        (p : PcrProtectionProfile) (k : ℕ) (iter : Iterator) (c : ComputeContext)
        (rest : ContextStack) (s : r.State)
        → compute_loop f r has_tpm (rounds p k) (p ∷ iter) (c ∷ rest) s
          ≡ (run f r has_tpm p c.values >>= λ values.
                compute_loop f r has_tpm k (nil ∷ iter) (record c { values = values } ∷ rest))
              s
    loop-run nil k iter c rest s = refl
    loop-run (cons i p) k iter c rest s =
        loop-run_instr i p (rounds p k) iter c rest s
        ∙ bind_congr (run_instr f r has_tpm i c.values) s
            (λ changed s'. loop-run p k iter (record c { values = changed }) rest s')
        ∙ sym (bind_assoc (run_instr f r has_tpm i c.values) (run f r has_tpm p) _ s)

    loop-run_instr :
        (i : Instr) (p : PcrProtectionProfile) (k : ℕ) (iter : Iterator) (c : ComputeContext)
        (rest : ContextStack) (s : r.State)
        → compute_loop f r has_tpm (rounds_instr i k) (cons i p ∷ iter) (c ∷ rest) s
          ≡ (run_instr f r has_tpm i c.values >>= λ values.
                compute_loop f r has_tpm k (p ∷ iter) (record c { values = values } ∷ rest))
              s
    loop-run_instr (add_pcr_value alg pcr value) p k iter c rest s = refl
    loop-run_instr (add_pcr_value_from_tpm alg pcr) p k iter c rest s =
        sym (bind_assoc (read_value f r has_tpm alg pcr) _ _ s)
    loop-run_instr (extend_pcr alg pcr value) p k iter c rest s = refl
    loop-run_instr (add_profile_or no_profiles) p k iter c rest s = skip_empty k p iter (c ∷ rest) s
    loop-run_instr (add_profile_or (profile q qs)) p k iter c rest s =
        loop-run_profiles (profile q qs) k (p ∷ iter) c.values (record c { values = [] }) rest s

    loop-run_profiles :
        (ps : Profiles) (k : ℕ) (iter : Iterator) (branch : List PcrValues) (c : ComputeContext)
        (rest : ContextStack) (s : r.State)
        → compute_loop f r has_tpm
            (rounds_profiles ps k)
            (descend_in_to_profiles ps iter)
            (branches (count ps) (length rest) branch ++ c ∷ rest)
            s
          ≡ (run_profiles f r has_tpm ps branch >>= λ values.
                compute_loop f r has_tpm k iter (record c { values = c.values ++ values } ∷ rest))
              s
    loop-run_profiles no_profiles k iter branch c rest s =
        ap (λ values. compute_loop f r has_tpm k iter (record c { values = values } ∷ rest) s)
          (sym (append-nil c.values))
    loop-run_profiles (profile p ps) k iter branch c rest s =
        loop-run p (suc (rounds_profiles ps k)) (descend_in_to_profiles ps iter)
          (record { parent = some (length rest); values = branch })
          (branches (count ps) (length rest) branch ++ c ∷ rest) s
        ∙ bind_congr (run f r has_tpm p branch) s (λ first s'.
          ap
            (λ contexts.
              compute_loop f r has_tpm (rounds_profiles ps k) (descend_in_to_profiles ps iter)
                contexts s')
            (append_values-branches (count ps) branch first c rest)
          ∙ loop-run_profiles ps k iter branch (record c { values = c.values ++ first }) rest s'
          ∙ bind_congr (run_profiles f r has_tpm ps branch) s' (λ others s''.
            ap (λ values. compute_loop f r has_tpm k iter (record c { values = values } ∷ rest) s'')
              (append_assoc c.values first others))
          ∙ sym (bind_assoc (run_profiles f r has_tpm ps branch) _ _ s'))
        ∙ sym (bind_assoc (run f r has_tpm p branch) _ _ s)

  -- `computePCRValues` ends, and gives the values, or the error, that the profile means.
  pub compute_pcr_values-eq-run :
      (p : PcrProtectionProfile) (s : r.State)
      → compute_pcr_values f r has_tpm p s ≡ run f r has_tpm p (no_values ∷ []) s
  unfolding compute_pcr_values compute_loop next next_from handle
  compute_pcr_values-eq-run p s =
      loop-run p (suc zero) [] (record { parent = none; values = no_values ∷ [] }) [] s
      ∙ bind-pure (run f r has_tpm p (no_values ∷ [])) s
