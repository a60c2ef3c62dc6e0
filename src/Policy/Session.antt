-- ===== src/Policy/Session.antt =====
-- policy.go: the data of a policy session, the TPM that it runs on, and what is made of its errors.
pub mod Execute
pub mod Handles
pub mod Balance
pub mod Tests
use secboot.Prelude.{
  ℕ, zero, suc, ◌/◌, ◌%◌, ◌^◌, List, [], ◌∷◌, ◌++◌, Bool, true, false, not, ◌&&◌, ◌||◌, Option,
  none, some, ◌==◌, if◌then◌else◌, ltb, length,
}
use secboot.Exec.{
  Error, Exec, Result, panic, message, wrap, static_policy_data_error, dynamic_policy_data_error,
  in_chain, of_class, pure, raise, lift, or_else, or_wrap, with_release, ◌>>=◌, ◌>>◌,
}
use secboot.Tpm.{Alg, Digest, Name, PcrSelectionList, PolicySession}
use secboot.Policy.Or.{PolicyOrDataTree}

-- The comparisons of TPM2_PolicyNV that are used.
pub data NvOp : Type 0 where
  op_unsigned_le op_eq : NvOp

-- The session that is to satisfy the policy, and the rest of the TPM beside it.
pub record PolicyTpm : Type 1 where
  pub session : PolicySession
  pub Context : Type 0
  pub Public : Type 0
  pub Signature : Type 0
  pub Ticket : Type 0
  pub context_name : Context → Name
  pub public_name_alg : Public → Alg
  pub supported : Alg → Bool
  pub hash : Alg → List ℕ → Digest
  pub sha256 : List ℕ → Digest
  pub handle_null : ℕ
  pub is_nv_index : ℕ → Bool
  pub policy_pcr : PcrSelectionList → Exec session.State Unit
  pub create_context : ℕ → Exec session.State Context
  pub read_name_alg : Context → Exec session.State Alg
  pub start_policy_session : Alg → Exec session.State Context
  pub flush_context : Context → session.State → session.State
  pub policy_command_code_nv : Context → Exec session.State Unit
  pub policy_or_in : Context → List Digest → Exec session.State Unit
  pub policy_nv : Context → List ℕ → NvOp → Option Context → Exec session.State Unit
  pub load_external : Public → Exec session.State Context
  pub verify_signature : Context → Digest → Signature → Exec session.State Ticket
  pub policy_authorize : Digest → List ℕ → Name → Ticket → Exec session.State Unit
  pub policy_secret : Context → List ℕ → Exec session.State Unit
  pub policy_auth_value : Exec session.State Unit
  pub is_get_digest_error : ℕ → Bool
  pub is_or_value_error : ℕ → Bool
  pub is_unavailable : ℕ → ℕ → Bool
  pub is_nv_policy_error : ℕ → Bool
  pub is_nv_policy_fail : ℕ → Bool
  pub is_load_external_error : ℕ → Bool
  pub is_verify_error : ℕ → Bool
  pub is_authorize_value_error : ℕ → Bool

-- `binary.BigEndian.PutUint64` and `PutUint32`, by the number of bytes.
unfoldable pub big_endian : ℕ → ℕ → List ℕ
big_endian zero n = []
big_endian (suc k) n = n / 256 ^ k % 256 ∷ big_endian k n

-- `lockNVHandle`
abbrev pub lock_nv_handle : ℕ
lock_nv_handle = 25170176

-- The bytes of `AUTH-PCR-POLICY`.
abbrev pub auth_pcr_policy : List ℕ
auth_pcr_policy = 65 ∷ 85 ∷ 84 ∷ 72 ∷ 45 ∷ 80 ∷ 67 ∷ 82 ∷ 45 ∷ 80 ∷ 79 ∷ 76 ∷ 73 ∷ 67 ∷ 89 ∷ []

module _ (t : PolicyTpm) where
  open t use {session, Context, Public}

  pub record StaticPolicyData : Type 0 where
    pub auth_public_key : Public
    pub pcr_policy_counter_handle : ℕ
    pub v0_pin_index_auth_policies : List Digest

  pub record DynamicPolicyData : Type 0 where
    pub pcr_selection : PcrSelectionList
    pub pcr_or_data : PolicyOrDataTree
    pub policy_count : ℕ
    pub authorized_policy : Digest
    pub authorized_policy_signature : t.Signature

  unfoldable pub compute_pcr_policy_ref_from_counter_name : Name → List ℕ
  compute_pcr_policy_ref_from_counter_name name =
      t.sha256 (auth_pcr_policy ++ (if length name == 0 then big_endian 4 t.handle_null else name))

  unfoldable pub compute_pcr_policy_ref_from_counter_context : Option Context → List ℕ
  compute_pcr_policy_ref_from_counter_context none = compute_pcr_policy_ref_from_counter_name []
  compute_pcr_policy_ref_from_counter_context (some context) =
      compute_pcr_policy_ref_from_counter_name (t.context_name context)

  -- `pcrPolicyRef`, which stays nil for version 0.
  unfoldable pub policy_ref : ℕ → Option Context → List ℕ
  policy_ref version counter =
      if version == 0 then [] else compute_pcr_policy_ref_from_counter_context counter

  unfoldable pub or_assertions_error : Error → Error
  or_assertions_error e =
      if in_chain (of_class t.is_get_digest_error) e
      then wrap "cannot execute OR assertions" e
      else if in_chain (of_class t.is_or_value_error) e
      then dynamic_policy_data_error (message "cannot complete OR assertions: invalid data")
      else dynamic_policy_data_error (wrap "cannot complete OR assertions" e)

  unfoldable pub counter_error : ℕ → Error → Error
  counter_error handle e =
      if in_chain (of_class (t.is_unavailable handle)) e
      then static_policy_data_error (message "no PCR policy counter found")
      else wrap "cannot obtain context for PCR policy counter" e

  unfoldable pub revocation_or_error : Error → Error
  revocation_or_error e =
      if in_chain (of_class t.is_or_value_error) e
      then static_policy_data_error
          (message "authorization policy metadata for PCR policy counter is invalid")
      else wrap "cannot execute assertion for PCR policy revocation check" e

  unfoldable pub revocation_error : Error → Error
  revocation_error e =
      if in_chain (of_class t.is_nv_policy_error) e
      then dynamic_policy_data_error (message "the PCR policy has been revoked")
      else if in_chain (of_class t.is_nv_policy_fail) e
      then static_policy_data_error
          (message "invalid PCR policy counter or associated authorization policy metadata")
      else wrap "PCR policy revocation check failed" e

  unfoldable pub load_external_error : Error → Error
  load_external_error e =
      if in_chain (of_class t.is_load_external_error) e
      then static_policy_data_error
          (message "public area of dynamic authorization policy signing key is invalid")
      else wrap "cannot load public area for dynamic authorization policy signing key" e

  unfoldable pub verify_error : Error → Error
  verify_error e =
      if in_chain (of_class t.is_verify_error) e
      then dynamic_policy_data_error (message "cannot verify PCR policy signature")
      else wrap "cannot verify PCR policy signature" e

  unfoldable pub authorize_error : Error → Error
  authorize_error e =
      if in_chain (of_class t.is_authorize_value_error) e
      then dynamic_policy_data_error (message "the PCR policy is invalid")
      else wrap "PCR policy check failed" e
