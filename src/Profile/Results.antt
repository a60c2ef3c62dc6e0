-- ===== src/Profile/Results.antt =====
-- `computePCRDigests` as its callers see it: how many digests it returns, and that its
-- `values[0]` is always there.
use secboot.Prelude.{
  ℕ, suc, ◌<◌, ◌≤◌, ◌≡◌, refl, sym, ap, List, [], ◌∷◌, map, Bool, length, arith, Bool-cases, inl,
  inr,
}
use mathlib.Core.Path.{subst}
use secboot.Exec.{Result, ok, err, panic, out_of_fuel, continue, lift, bind_result}
use secboot.Tpm.{Alg, Digest, PcrSelectionList, PcrValues, PcrFunctions}
use secboot.Profile.{PcrProtectionProfile, PcrReader}
use secboot.Profile.Compute.{
  compute_pcr_values, compute_pcr_digests, digests_of_values, branch_digests, unique_digests,
  found_in,
}
use secboot.Profile.Paths.{Yields, paths, length-compute_pcr_values}
use secboot.Profile.Unique.{AllDistinct, unique_digests-AllDistinct}
use secboot.Profile.Digests.{branch_digests_ok, branch_digest}
use secboot.Profile.Build.{length-unique_digests}

length-map_digest :
    (f : PcrFunctions) (alg : Alg) (values : List PcrValues)
    → length (map (branch_digest f alg) values) ≡ length values
length-map_digest f alg [] = refl
length-map_digest f alg (v ∷ values) = ap suc (length-map_digest f alg values)

unique_digests_pos :
    (d : Digest) (digests : List Digest) → 0 < length (unique_digests [] (d ∷ digests))
unfolding unique_digests found_in
unique_digests_pos d digests = omega (arith, length-unique_digests (d ∷ []) digests)

-- At least one digest, at most one for each branch, none twice.
abbrev pub IsDigestList : ℕ → List Digest → Type 0
IsDigestList n digests = (0 < length digests) × (length digests ≤ n) × AllDistinct digests

unique_digests-IsDigestList :
    (d : Digest) (digests : List Digest)
    → IsDigestList (suc (length digests)) (unique_digests [] (d ∷ digests))
unique_digests-IsDigestList d digests = (
  unique_digests_pos d digests,
  omega (arith, length-unique_digests [] (d ∷ digests)),
  unique_digests-AllDistinct [] (d ∷ digests) tt,
)

-- The digests of some values, as many as `n` or fewer.
abbrev pub ManyDigests : ℕ → Result (PcrSelectionList × List Digest) → Type 0
ManyDigests n (ok (pcrs, digests)) = IsDigestList n digests
ManyDigests n (err e) = Unit
ManyDigests n panic = ⊥
ManyDigests n out_of_fuel = ⊥

-- A value or an error.
abbrev pub IsPlain {ℓ} : {A : Type ℓ} → Result A → Type 0
IsPlain (ok a) = Unit
IsPlain (err e) = Unit
IsPlain panic = ⊥
IsPlain out_of_fuel = ⊥

IsPlain-bind {ℓ κ} :
    {A : Type ℓ} {B : Type κ} (m : Result A) (k : A → B)
    → IsPlain m
    → IsPlain (bind_result m λ a. ok (k a))
IsPlain-bind (ok a) k h = tt
IsPlain-bind (err e) k h = tt
IsPlain-bind panic k h = h
IsPlain-bind out_of_fuel k h = h

branch_digests-IsPlain :
    (f : PcrFunctions) (alg : Alg) (pcrs : PcrSelectionList) (values : List PcrValues)
    → IsPlain (branch_digests f alg pcrs values)
unfolding branch_digests
branch_digests-IsPlain f alg pcrs [] = tt
branch_digests-IsPlain f alg pcrs (v ∷ values) =
    elim (Bool-cases (f.selection_equal (f.compute_pcr_digest_simple alg v).0 pcrs)) [
      | inl e ↦ rw e (
          IsPlain-bind (branch_digests f alg pcrs values) (λ ds. branch_digest f alg v ∷ ds)
            (branch_digests-IsPlain f alg pcrs values))
      | inr e ↦ rw e tt
    ]

unique_of_branches :
    (pcrs : PcrSelectionList) (d : Digest) (digests : List Digest) (m : Result (List Digest))
    → IsPlain m
    → ((ds : List Digest) → m ≡ ok ds → ds ≡ d ∷ digests)
    → ManyDigests (suc (length digests)) (bind_result m λ ds. ok (pcrs, unique_digests [] ds))
unique_of_branches pcrs d digests (ok ds) h e =
    subst (λ l. IsDigestList (suc (length digests)) (unique_digests [] l)) (sym (e ds refl))
      (unique_digests-IsDigestList d digests)
unique_of_branches pcrs d digests (err e') h e = tt
unique_of_branches pcrs d digests panic h e = h
unique_of_branches pcrs d digests out_of_fuel h e = h

digests_of_values_many :
    (f : PcrFunctions) (alg : Alg) (v : PcrValues) (values : List PcrValues)
    → ManyDigests (length (v ∷ values)) (digests_of_values f alg (v ∷ values))
unfolding digests_of_values
digests_of_values_many f alg v values =
    subst (λ n. ManyDigests (suc n) (digests_of_values f alg (v ∷ values)))
      (length-map_digest f alg values)
      (unique_of_branches (f.selection_list v) (branch_digest f alg v)
        (map (branch_digest f alg) values) (branch_digests f alg (f.selection_list v) (v ∷ values))
        (branch_digests-IsPlain f alg (f.selection_list v) (v ∷ values))
        λ ds e. (branch_digests_ok f alg (f.selection_list v) (v ∷ values) e).0)

module _ (f : PcrFunctions) (r : PcrReader) (has_tpm : Bool) (p : PcrProtectionProfile)
    (alg : Alg) where
  of_values :
      (values : List PcrValues) (s : r.State)
      → (length values ≡ paths p) × (0 < length values)
      → ManyDigests (paths p) (digests_of_values f alg values)
  of_values [] s h = absurd (omega arith)
  of_values (v ∷ values) s h =
      subst (λ n. ManyDigests n (digests_of_values f alg (v ∷ values))) h.0
        (digests_of_values_many f alg v values)

  -- Whatever the profile, the first step of `computePCRDigests` decides whether the call panics or
  -- goes on forever: once there are values, it returns an error, or at least one digest, at most
  -- one for each way through the branch points, and none twice.
  pub compute_pcr_digests_many :
      (s : r.State)
      → IsPlain (compute_pcr_values f r has_tpm p s).0
      → ManyDigests (paths p) (compute_pcr_digests f r has_tpm p alg s).0
  unfolding compute_pcr_digests
  compute_pcr_digests_many s h =
      go (compute_pcr_values f r has_tpm p s) h (length-compute_pcr_values f r has_tpm p s)
    where
      go :
          (o : Result (List PcrValues) × r.State)
          → IsPlain o.0
          → Yields (λ values. (length values ≡ paths p) × (0 < length values)) o
          → ManyDigests
              (paths p)
              (continue (λ values. lift (digests_of_values f alg values)) o.0 o.1).0
      go (ok values, s') plain h' = of_values values s' h'
      go (err e, s') plain h' = tt
      go (panic, s') plain h' = plain
      go (out_of_fuel, s') plain h' = plain
