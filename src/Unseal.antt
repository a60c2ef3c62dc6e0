-- ===== src/Unseal.antt =====
-- unseal.go: recovering a key from a sealed key object, and keydata.go's loading of the object.
pub mod Handles
pub mod Reasons
pub mod Runs
pub mod Blame
mod Tests
use secboot.Prelude.{
  ℕ, String, List, [], ◌∷◌, Bool, true, false, Option, none, some, ◌==◌, if◌then◌else◌,
}
use secboot.Exec.{
  Error, Exec, Result, ok, err, panic, out_of_fuel, external, wrap, message, invalid_key_file_error,
  err_tpm_provisioning, err_tpm_lockout, err_pin_fail, static_policy_data_error,
  dynamic_policy_data_error, key_file_error, in_chain, of_class, pure, raise, lift, attempt,
  or_wrap, with_release, map_error, ◌>>=◌, ◌>>◌,
}
use secboot.Tpm.{Alg}
use secboot.Policy.Session.{PolicyTpm, StaticPolicyData, DynamicPolicyData}
use secboot.Policy.Session.Execute.{execute_policy_session}

-- The fields of `keyData` that unsealing reads itself, with the name algorithm of its public area;
-- the rest by a number.
pub record KeyData (p : PolicyTpm) : Type 0 where
  pub version : ℕ
  pub key_name_alg : Alg
  pub static_policy_data : StaticPolicyData p
  pub dynamic_policy_data : DynamicPolicyData p
  pub contents : ℕ

-- The TPM, as unsealing uses it, and go-tpm2's classes of the TPM's errors. `policy` is the TPM as a
-- policy session sees it, and `use_session` makes a session the one that its commands act on.
pub record UnsealTpm : Type 1 where
  pub policy : PolicyTpm
  pub use_session : policy.Context → policy.session.State → policy.session.State
  pub get_permanent_properties : Exec policy.session.State (List ℕ)
  pub in_lockout : ℕ → Bool
  pub create_srk_context : Exec policy.session.State policy.Context
  pub load_object : policy.Context → KeyData policy → Exec policy.session.State policy.Context
  pub is_primary_key_with_srk_template : policy.Context → Exec policy.session.State Bool
  pub unseal : policy.Context → policy.Context → List ℕ → Exec policy.session.State (List ℕ)
  pub unmarshal_sealed_data : List ℕ → Result (List ℕ × List ℕ)
  pub is_load_parameter_error : ℕ → Bool
  pub is_load_sensitive_error : ℕ → Bool
  pub is_srk_unavailable : ℕ → Bool
  pub is_lock_index_unavailable : ℕ → Bool
  pub is_policy_secret_auth_fail : ℕ → Bool
  pub is_unseal_policy_fail : ℕ → Bool
  pub is_unseal_auth_fail : ℕ → Bool
  pub error_text : Error → String

unfoldable pub is_key_file : Error → Bool
is_key_file (key_file_error e) = true
is_key_file e = false

unfoldable pub is_static_policy_data : Error → Bool
is_static_policy_data (static_policy_data_error e) = true
is_static_policy_data e = false

unfoldable pub is_dynamic_policy_data : Error → Bool
is_dynamic_policy_data (dynamic_policy_data_error e) = true
is_dynamic_policy_data e = false

module _ (t : UnsealTpm) where
  unfoldable pub load_error : Error → Error
  load_error e =
      if in_chain (of_class t.is_load_parameter_error) e
      then key_file_error (
          message
            "cannot load sealed key object in to TPM: bad sealed key object or TPM owner changed")
      else if in_chain (of_class t.is_load_sensitive_error) e
      then key_file_error (
          message
            "cannot load sealed key object in to TPM: bad sealed key object or TPM owner changed")
      else wrap "cannot load sealed key object in to TPM" e

  -- What the sealed key object's `load` makes of the outcome of TPM2_Load.
  unfoldable pub loaded_object :
      Result t.policy.Context → Exec t.policy.session.State t.policy.Context
  loaded_object r = lift (map_error load_error r)

  unfoldable pub load : KeyData t.policy → Exec t.policy.session.State t.policy.Context
  load d = do
    srk ← or_wrap t.create_srk_context "cannot create context for SRK"
    outcome ← attempt (t.load_object srk d)
    loaded_object outcome

  unfoldable pub srk_checked :
      Error → Result t.policy.Context → Exec t.policy.session.State (List ℕ × List ℕ)
  srk_checked e (ok srk) = do
    is_srk ←
        or_wrap (t.is_primary_key_with_srk_template srk)
          "cannot determine if object is a primary key in the storage hierarchy"
    if is_srk then raise (invalid_key_file_error (t.error_text e)) else raise err_tpm_provisioning
  srk_checked e (err e2) =
      if in_chain (of_class t.is_srk_unavailable) e2
      then raise err_tpm_provisioning
      else raise (wrap "cannot create context for SRK" e2)
  srk_checked e panic = lift panic
  srk_checked e out_of_fuel = lift out_of_fuel

  -- The `switch` on the error of `load`.
  unfoldable pub load_failed : Error → Exec t.policy.session.State (List ℕ × List ℕ)
  load_failed e =
      if in_chain is_key_file e
      then attempt t.create_srk_context >>= srk_checked e
      else if in_chain (of_class t.is_srk_unavailable) e
      then raise err_tpm_provisioning
      else raise e

  unfoldable pub policy_error : Error → Error
  policy_error e =
      if in_chain is_dynamic_policy_data e
      then invalid_key_file_error (t.error_text e)
      else if in_chain is_static_policy_data e
      then invalid_key_file_error (t.error_text e)
      else if in_chain (of_class t.is_policy_secret_auth_fail) e
      then err_pin_fail
      else if in_chain (of_class t.is_lock_index_unavailable) e
      then invalid_key_file_error "required legacy lock NV index is not present"
      else e

  unfoldable pub unseal_error : Error → Error
  unseal_error e =
      if in_chain (of_class t.is_unseal_policy_fail) e
      then invalid_key_file_error "the authorization policy check failed during unsealing"
      else if in_chain (of_class t.is_unseal_auth_fail) e
      then err_pin_fail
      else wrap "cannot unseal key" e

  unfoldable pub unpack : ℕ → List ℕ → Result (List ℕ × List ℕ)
  unpack version contents =
      if version == 0
      then ok (contents, [])
      else map_error (λ e. invalid_key_file_error (t.error_text e))
          (t.unmarshal_sealed_data contents)

  -- The call of `executePolicySession`, on a session.
  unfoldable pub policy_assertions :
      KeyData t.policy → List ℕ → t.policy.Context → Exec t.policy.session.State Unit
  policy_assertions d pin session s =
      execute_policy_session t.policy d.version d.static_policy_data d.dynamic_policy_data pin
        (t.use_session session s)

  unfoldable pub assert_and_unseal :
      KeyData t.policy
      → List ℕ
      → t.policy.Context
      → t.policy.Context
      → Exec t.policy.session.State (List ℕ × List ℕ)
  assert_and_unseal d pin key session = do
    asserted ← attempt (policy_assertions d pin session)
    lift (
        map_error (λ e. policy_error (wrap "cannot complete authorization policy assertions" e))
          asserted)
    unsealed ← attempt (t.unseal key session pin)
    contents ← lift (map_error unseal_error unsealed)
    lift (unpack d.version contents)

  unfoldable pub in_session :
      KeyData t.policy → List ℕ → t.policy.Context → Exec t.policy.session.State (List ℕ × List ℕ)
  in_session d pin key = do
    session ← or_wrap (t.policy.start_policy_session d.key_name_alg) "cannot start policy session"
    with_release (t.policy.flush_context session) (assert_and_unseal d pin key session)

  unfoldable pub after_load :
      KeyData t.policy
      → List ℕ
      → Result t.policy.Context
      → Exec t.policy.session.State (List ℕ × List ℕ)
  after_load d pin (ok key) = with_release (t.policy.flush_context key) (in_session d pin key)
  after_load d pin (err e) = load_failed e
  after_load d pin panic = lift panic
  after_load d pin out_of_fuel = lift out_of_fuel

  -- `props[0]`, which panics for an empty list, and the test of its lockout bit.
  unfoldable pub check_lockout : List ℕ → Exec t.policy.session.State Unit
  check_lockout [] = lift panic
  check_lockout (value ∷ more) = if t.in_lockout value then raise err_tpm_lockout else pure tt

  unfoldable pub unseal_from_tpm :
      KeyData t.policy → List ℕ → Exec t.policy.session.State (List ℕ × List ℕ)
  unseal_from_tpm d pin = do
    properties ← or_wrap t.get_permanent_properties "cannot fetch properties from TPM"
    check_lockout properties
    loaded ← attempt (load d)
    after_load d pin loaded
