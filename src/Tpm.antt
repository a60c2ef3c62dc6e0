-- ===== src/Tpm.antt =====
-- What the code uses of the go-tpm2 package. The package is not part of the repository, so its
-- types and functions are parameters, and what it documents is stated as hypotheses.
use secboot.Prelude.{ℕ, Bool, List, [], Option, none, some}
use secboot.Exec.{Exec}

-- `tpm2.HashAlgorithmId`, `tpm2.Digest`, `tpm2.Name`
abbrev pub Alg : Type 0
Alg = ℕ

abbrev pub Digest : Type 0
Digest = List ℕ

abbrev pub Name : Type 0
Name = List ℕ

-- `tpm2.PCRSelectionList`
abbrev pub PcrSelectionList : Type 0
PcrSelectionList = List (Alg × List ℕ)

-- `tpm2.TrialAuthPolicy`, for the algorithms that `tpm2.ComputeAuthPolicy` accepts.
pub record TrialPolicies : Type 1 where
  pub Trial : Type 0
  pub compute_auth_policy : Alg → Trial
  pub policy_or : Trial → List Digest → Trial
  pub get_digest : Trial → Digest

-- The commands on a policy session that the OR assertions use, as they change the TPM's state.
pub record PolicySession : Type 1 where
  pub State : Type 0
  pub policy_get_digest : Exec State Digest
  pub policy_or : List Digest → Exec State Unit

-- `tpm2.PCRValues`, a map from algorithms to maps from PCR indices to digests.
abbrev pub PcrValues : Type 0
PcrValues = Alg → Option (ℕ → Option Digest)

-- `make(tpm2.PCRValues)`
abbrev pub no_values : PcrValues
no_values alg = none

-- `v[alg][pcr]`, where a missing map is empty.
abbrev pub in_bank : Option (ℕ → Option Digest) → ℕ → Option Digest
in_bank none pcr = none
in_bank (some bank) pcr = bank pcr

abbrev pub value_of : PcrValues → Alg → ℕ → Option Digest
value_of v alg pcr = in_bank (v alg) pcr

-- `v[alg][pcr]` as an expression: a missing digest is empty.
abbrev pub value_or_empty : PcrValues → Alg → ℕ → Digest
value_or_empty v alg pcr = elim (value_of v alg pcr) [ none ↦ [] | some d ↦ d ]

-- What the code calls on algorithms, PCR values and selections.
pub record PcrFunctions : Type 0 where
  pub size : Alg → ℕ
  pub hash : Alg → List ℕ → Digest
  pub set_value : PcrValues → Alg → ℕ → Digest → PcrValues
  pub selection_list : PcrValues → PcrSelectionList
  pub selection_equal : PcrSelectionList → PcrSelectionList → Bool
  pub compute_pcr_digest_simple : Alg → PcrValues → PcrSelectionList × Digest
