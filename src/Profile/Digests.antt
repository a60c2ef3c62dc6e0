-- ===== src/Profile/Digests.antt =====
-- The results of `computePCRDigests`.
use secboot.Prelude.{◌≡◌, ◌↔◌, sym, ap, ◌∙◌, List, [], ◌∷◌, map, true, Bool-cases, inl, inr, arith}
use mathlib.Core.Path.{subst}
use secboot.Exec.Results.{bind_result_ok}
use secboot.Exec.{Error, Result, ok, err}
use secboot.Tpm.{Alg, Digest, PcrSelectionList, PcrValues, PcrFunctions}
use secboot.Profile.Compute.{branch_digests, unique_digests, digests_of_values}
use secboot.Profile.Unique.{
  In, AllDistinct, unique_digests-AllDistinct, unique_digests_sound, unique_digests_complete,
}

abbrev pub branch_digest : PcrFunctions → Alg → PcrValues → Digest
branch_digest f alg v = (f.compute_pcr_digest_simple alg v).1

-- Each branch selects PCRs that compare equal to `pcrs`.
abbrev pub AllSelect : PcrFunctions → Alg → PcrSelectionList → List PcrValues → Type 0
AllSelect f alg pcrs [] = Unit
AllSelect f alg pcrs (v ∷ values) =
    (f.selection_equal (f.compute_pcr_digest_simple alg v).0 pcrs ≡ true)
    × AllSelect f alg pcrs values

pub branch_digests_ok :
    (f : PcrFunctions) (alg : Alg) (pcrs : PcrSelectionList) (values : List PcrValues)
    {digests : List Digest}
    → branch_digests f alg pcrs values ≡ ok digests
    → (digests ≡ map (branch_digest f alg) values) × AllSelect f alg pcrs values
unfolding branch_digests
branch_digests_ok f alg pcrs [] h = (ground arith, tt)
branch_digests_ok f alg pcrs (v ∷ values) {digests} h =
    elim (Bool-cases (f.selection_equal (f.compute_pcr_digest_simple alg v).0 pcrs)) [
      | inl e ↦
          let (rest, runs, same) =
            bind_result_ok (branch_digests f alg pcrs values)
              (λ ds. ok (branch_digest f alg v ∷ ds)) (rw e at h) in
          let (eq, all) = branch_digests_ok f alg pcrs values runs in
          (sym (ok_injective same) ∙ ap (λ l. branch_digest f alg v ∷ l) eq, (e, all))
      | inr e ↦ absurd (not_ok (rw e at h))
    ]
  where
    ok_injective : {x y : List Digest} → ok x ≡ ok y → x ≡ y
    ok_injective p = cc

    not_ok : {e : Error} {x : List Digest} → err e ≡ ok x → ⊥
    not_ok p = cc

-- What `computePCRDigests` promises of a selection and a list of digests.
pub record AreDigestsOf (f : PcrFunctions) (alg : Alg) (v : PcrValues) (values : List PcrValues)
    (pcrs : PcrSelectionList) (digests : List Digest) : Type 0 where
  pub first : pcrs ≡ f.selection_list v
  pub same_pcrs : AllSelect f alg pcrs (v ∷ values)
  pub distinct : AllDistinct digests
  pub of_branches : (x : Digest) → In x digests ↔ In x (map (branch_digest f alg) (v ∷ values))

-- A call returns a selection and digests only if every branch selects the PCRs of the first one;
-- then the digests are those of the branches, each once.
pub digests_of_values_ok :
    (f : PcrFunctions) (alg : Alg) (v : PcrValues) (values : List PcrValues)
    {pcrs : PcrSelectionList} {digests : List Digest}
    → digests_of_values f alg (v ∷ values) ≡ ok (pcrs, digests)
    → AreDigestsOf f alg v values pcrs digests
unfolding digests_of_values
digests_of_values_ok f alg v values {pcrs} {digests} h =
    let (all, runs, same) =
      bind_result_ok (branch_digests f alg (f.selection_list v) (v ∷ values))
        (λ ds. ok (f.selection_list v, unique_digests [] ds)) h in
    let (eq, select) = branch_digests_ok f alg (f.selection_list v) (v ∷ values) runs in
    let p : f.selection_list v ≡ pcrs = first_part same in
    let q : unique_digests [] all ≡ digests = second_part same in
    record {
      first = sym p;
      same_pcrs = subst (λ s. AllSelect f alg s (v ∷ values)) p select;
      distinct = subst AllDistinct q (unique_digests-AllDistinct [] all tt);
      of_branches = λ x. (
        λ m. subst (In x) eq (elim (unique_digests_sound [] all x (subst (In x) (sym q) m)) [
          | inl none' ↦ absurd none'
          | inr b ↦ b
        ]),
        λ m. subst (In x) q (unique_digests_complete [] all x (inr (subst (In x) (sym eq) m))),
      );
    }
  where
    first_part :
        {a c : PcrSelectionList} {b d : List Digest}
        → ◌≡◌ {A = Result (PcrSelectionList × List Digest)} (ok (a, b)) (ok (c, d))
        → a ≡ c
    first_part e = ground arith

    second_part :
        {a c : PcrSelectionList} {b d : List Digest}
        → ◌≡◌ {A = Result (PcrSelectionList × List Digest)} (ok (a, b)) (ok (c, d))
        → b ≡ d
    second_part e = ground arith
