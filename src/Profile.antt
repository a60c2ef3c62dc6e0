-- ===== src/Profile.antt =====
-- pcr_profile.go: profiles of PCR values, and the computation of the values that they allow.
pub mod Meaning
pub mod Compute
pub mod Refines
pub mod Unique
pub mod Paths
pub mod Digests
pub mod Build
pub mod Results
pub mod Values
pub mod Variants
mod Tests
use secboot.Prelude.{
  ℕ, zero, suc, ◌+◌, List, [], ◌∷◌, ◌++◌, map, Option, none, some, Bool, ◌==◌, if◌then◌else◌,
  length,
}
use secboot.Exec.{
  Exec, Result, Error, ok, err, panic, out_of_fuel, message, wrap, pure, raise, lift, or_wrap,
  ◌>>=◌,
}
use secboot.Tpm.{
  Alg, Digest, PcrSelectionList, PcrValues, PcrFunctions, no_values, value_of, value_or_empty,
}

-- The stored instructions; the pseudo instruction for the end of a branch is `Next.end_profile`.
-- A `*PCRProtectionProfile` is its instructions at the time of the computation.
mutual
  pub data Instr : Type 0 where
    add_pcr_value : Alg → ℕ → Digest → Instr
    add_pcr_value_from_tpm : Alg → ℕ → Instr
    extend_pcr : Alg → ℕ → Digest → Instr
    add_profile_or : Profiles → Instr

  pub data PcrProtectionProfile : Type 0 where
    nil : PcrProtectionProfile
    cons : Instr → PcrProtectionProfile → PcrProtectionProfile

  pub data Profiles : Type 0 where
    no_profiles : Profiles
    profile : PcrProtectionProfile → Profiles → Profiles

-- `append(p.instrs, instr)`
unfoldable pub append_instr : PcrProtectionProfile → Instr → PcrProtectionProfile
append_instr nil instr = cons instr nil
append_instr (cons i p) instr = cons i (append_instr p instr)

module _ (f : PcrFunctions) where
  -- `AddPCRValue`
  unfoldable pub with_pcr_value :
      PcrProtectionProfile → Alg → ℕ → Digest → Result PcrProtectionProfile
  with_pcr_value p alg pcr value =
      if length value == f.size alg
      then ok (append_instr p (add_pcr_value alg pcr value))
      else panic

  -- `ExtendPCR`
  unfoldable pub with_extend_pcr :
      PcrProtectionProfile → Alg → ℕ → Digest → Result PcrProtectionProfile
  with_extend_pcr p alg pcr value =
      if length value == f.size alg then ok (append_instr p (extend_pcr alg pcr value)) else panic

-- `AddPCRValueFromTPM`
unfoldable pub with_pcr_value_from_tpm : PcrProtectionProfile → Alg → ℕ → PcrProtectionProfile
with_pcr_value_from_tpm p alg pcr = append_instr p (add_pcr_value_from_tpm alg pcr)

-- `AddProfileOR`
unfoldable pub with_profile_or : PcrProtectionProfile → Profiles → PcrProtectionProfile
with_profile_or p profiles = append_instr p (add_profile_or profiles)

-- `len(i.profiles)`
abbrev pub count : Profiles → ℕ
count no_profiles = 0
count (profile p rest) = suc (count rest)

-- The iterator: the instructions left of each profile that is being traversed.
abbrev pub Iterator : Type 0
Iterator = List PcrProtectionProfile

unfoldable pub descend_in_to_profiles : Profiles → Iterator → Iterator
descend_in_to_profiles no_profiles iter = iter
descend_in_to_profiles (profile p rest) iter = p ∷ descend_in_to_profiles rest iter

pub data Next : Type 0 where
  instr : Instr → Next
  end_profile : Next

-- The loop of `next`, over the instructions of the first profile.
unfoldable pub next_from : PcrProtectionProfile → Iterator → Next × Iterator
next_from nil iter = (end_profile, iter)
next_from (cons (add_profile_or no_profiles) p) iter = next_from p iter
next_from (cons (add_profile_or (profile q rest)) p) iter =
    (instr (add_profile_or (profile q rest)), descend_in_to_profiles (profile q rest) (p ∷ iter))
next_from (cons i p) iter = (instr i, p ∷ iter)

-- `none` is the panic on an iterator that has run out.
unfoldable pub next : Iterator → Option (Next × Iterator)
next [] = none
next (p ∷ iter) = some (next_from p iter)

-- `v[alg][pcr] = h.Sum(nil)`, where missing maps are made.
unfoldable pub put_value : PcrValues → Alg → ℕ → Digest → PcrValues
put_value v alg pcr d a =
    if a == alg then some (λ q. if q == pcr then some d else value_of v alg q) else v a

abbrev pub or_zeros : Option Digest → List ℕ → Digest
or_zeros none zeros = zeros
or_zeros (some d) zeros = d

abbrev pub zeros : ℕ → List ℕ
zeros zero = []
zeros (suc n) = 0 ∷ zeros n

module _ (f : PcrFunctions) where
  -- `extendValue`, on the values of one branch.
  unfoldable pub extend_value : Alg → ℕ → Digest → PcrValues → PcrValues
  extend_value alg pcr value v =
      put_value v alg pcr (f.hash alg (or_zeros (value_of v alg pcr) (zeros (f.size alg)) ++ value))

-- The parent is known by the number of contexts below it on the stack.
pub record ComputeContext : Type 0 where
  pub parent : Option ℕ
  pub values : List PcrValues

abbrev pub ContextStack : Type 0
ContextStack = List ComputeContext

-- The `n` new contexts of `handleBranches`, each with a copy of the values.
unfoldable pub branches : ℕ → ℕ → List PcrValues → ContextStack
branches zero parent values = []
branches (suc n) parent values =
    record { parent = some parent; values = values } ∷ branches n parent values

unfoldable pub handle_branches : ℕ → ContextStack → ContextStack
handle_branches n [] = []
handle_branches n (c ∷ contexts) =
    branches n (length contexts) c.values ++ record c { values = [] } ∷ contexts

-- `c.parent.values = append(c.parent.values, values...)`
unfoldable pub append_values : ℕ → List PcrValues → ContextStack → ContextStack
append_values parent values [] = []
append_values parent values (c ∷ contexts) =
    if length contexts == parent
    then record c { values = c.values ++ values } ∷ contexts
    else c ∷ append_values parent values contexts

-- Changes the values at the top of the stack.
unfoldable pub set_top : (PcrValues → PcrValues) → ContextStack → ContextStack
set_top g [] = []
set_top g (c ∷ contexts) = record c { values = map g c.values } ∷ contexts

-- The TPM, as far as `computePCRValues` uses it.
pub record PcrReader : Type 1 where
  pub State : Type 0
  pub pcr_read : PcrSelectionList → Exec State PcrValues

module _ (f : PcrFunctions) (r : PcrReader) (has_tpm : Bool) where
  -- The current value of a PCR; `has_tpm` is false if the TPM context is nil.
  unfoldable pub read_value : Alg → ℕ → Exec r.State Digest
  read_value alg pcr =
      if has_tpm
      then (do
        v ← or_wrap (r.pcr_read ((alg, pcr ∷ []) ∷ [])) "cannot read current value of PCR"
        pure (value_or_empty v alg pcr))
      else raise (message "cannot read current value of PCR: no TPM context")

  -- The body of the loop of `computePCRValues`; `again` is the rest of the loop.
  unfoldable pub handle :
      Next
      → ContextStack
      → (ContextStack → Exec r.State (List PcrValues))
      → Exec r.State (List PcrValues)
  handle _ [] again = lift panic
  handle (instr (add_pcr_value alg pcr value)) contexts again =
      again (set_top (λ v. f.set_value v alg pcr value) contexts)
  handle (instr (add_pcr_value_from_tpm alg pcr)) contexts again = do
    value ← read_value alg pcr
    again (set_top (λ v. f.set_value v alg pcr value) contexts)
  handle (instr (extend_pcr alg pcr value)) contexts again =
      again (set_top (extend_value f alg pcr value) contexts)
  handle (instr (add_profile_or profiles)) contexts again =
      again (handle_branches (count profiles) contexts)
  handle end_profile (c ∷ contexts) again = elim c.parent [
    | none ↦ pure c.values
    | some parent ↦ again (append_values parent c.values contexts)
  ]

  abbrev pub handle_next :
      Option (Next × Iterator)
      → ContextStack
      → (Iterator → ContextStack → Exec r.State (List PcrValues))
      → Exec r.State (List PcrValues)
  handle_next none contexts again = lift panic
  handle_next (some (i, iter)) contexts again = handle i contexts (again iter)

  -- The loop of `computePCRValues`.
  unfoldable pub compute_loop : ℕ → Iterator → ContextStack → Exec r.State (List PcrValues)
  compute_loop zero iter contexts = lift out_of_fuel
  compute_loop (suc fuel) iter contexts =
      handle_next (next iter) contexts λ iter' contexts'. compute_loop fuel iter' contexts'
