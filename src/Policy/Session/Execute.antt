-- ===== src/Policy/Session/Execute.antt =====
-- policy.go: `executePolicySession`, which satisfies the policy of a sealed key object.
use secboot.Prelude.{ℕ, List, [], ◌++◌, not, ◌&&◌, ◌||◌, Option, none, some, ◌==◌, if◌then◌else◌}
use secboot.Exec.{
  Exec, panic, message, static_policy_data_error, raise, lift, or_else, or_wrap, with_release,
  ◌>>=◌, ◌>>◌,
}
use secboot.Tpm.{Alg}
use secboot.Policy.Or.Execute.{execute_policy_or_assertions}
use secboot.Policy.Session.{
  PolicyTpm, op_unsigned_le, op_eq, big_endian, lock_nv_handle, StaticPolicyData, DynamicPolicyData,
  policy_ref, or_assertions_error, counter_error, revocation_or_error, revocation_error,
  load_external_error, verify_error, authorize_error,
}

module _ (t : PolicyTpm) where
  open t use {session, Context}

  -- The assertion of the PIN by the counter, which is nil only if the caller passed no counter.
  unfoldable pub policy_secret_assertion : Option Context → List ℕ → Exec session.State Unit
  policy_secret_assertion none pin = lift panic
  policy_secret_assertion (some counter) pin =
      or_wrap (t.policy_secret counter pin) "cannot execute PolicySecret assertion"

  -- The assertions after TPM2_PolicyAuthorize.
  unfoldable pub last_assertions : ℕ → Option Context → List ℕ → Exec session.State Unit
  last_assertions version counter pin =
      if version == 0
      then (do
        policy_secret_assertion counter pin
        index ← or_wrap (t.create_context lock_nv_handle) "cannot obtain context for lock NV index"
        or_wrap (t.policy_nv index [] op_eq none) "policy lock check failed")
      else or_wrap t.policy_auth_value "cannot execute PolicyAuthValue assertion"

  module _ (version : ℕ) (static_input : StaticPolicyData t) (dynamic_input : DynamicPolicyData t)
      (pin : List ℕ) where
    unfoldable pub authorize_with : Option Context → Context → Exec session.State Unit
    authorize_with counter key = do
      ticket ←
          or_else
            (t.verify_signature key
              (t.hash (t.public_name_alg static_input.auth_public_key)
                (dynamic_input.authorized_policy ++ policy_ref t version counter))
              dynamic_input.authorized_policy_signature)
            (verify_error t)
      or_else
          (t.policy_authorize dynamic_input.authorized_policy (policy_ref t version counter)
            (t.context_name key) ticket)
          (authorize_error t)
      last_assertions version counter pin

    -- From the check of `authPublicKey` on.
    unfoldable pub authorize : Option Context → Exec session.State Unit
    authorize counter =
        if t.supported (t.public_name_alg static_input.auth_public_key)
        then (do
          key ← or_else (t.load_external static_input.auth_public_key) (load_external_error t)
          with_release (t.flush_context key) (authorize_with counter key))
        else raise (
            static_policy_data_error (
              message
                "public area of dynamic authorization policy signing key has an unsupported name algorithm"))

    unfoldable pub check_revocation : Context → Option Context → Exec session.State Unit
    check_revocation counter revocation_check_session = do
      or_else
          (t.policy_nv counter (big_endian 8 dynamic_input.policy_count) op_unsigned_le
            revocation_check_session)
          (revocation_error t)
      authorize (some counter)

    -- The rest of the call, during which the session of the revocation check of version 0 is open.
    unfoldable pub in_revocation_session : Context → Context → Exec session.State Unit
    in_revocation_session counter revocation_check_session = do
      or_wrap (t.policy_command_code_nv revocation_check_session)
          "cannot execute assertion for PCR policy revocation check"
      or_else (t.policy_or_in revocation_check_session static_input.v0_pin_index_auth_policies)
          (revocation_or_error t)
      check_revocation counter (some revocation_check_session)

    unfoldable pub with_name_alg : Context → Alg → Exec session.State Unit
    with_name_alg counter alg =
        if t.supported alg
        then (do
          s ←
              or_wrap (t.start_policy_session alg)
                "cannot create session for PCR policy revocation check"
          with_release (t.flush_context s) (in_revocation_session counter s))
        else raise (
            static_policy_data_error
              (message "PCR policy counter has an unsupported name algorithm"))

    unfoldable pub with_counter : Context → Exec session.State Unit
    with_counter counter =
        if version == 0
        then or_wrap (t.read_name_alg counter) "cannot read public area for PCR policy counter"
          >>= with_name_alg counter
        else check_revocation counter none

    -- From the check of the handle of the PCR policy counter on.
    unfoldable pub from_handle : ℕ → Exec session.State Unit
    from_handle handle =
        if (not (handle == t.handle_null) || version == 0) && not (t.is_nv_index handle)
        then raise (static_policy_data_error (message "invalid handle for PCR policy counter"))
        else if not (handle == t.handle_null)
        then or_else (t.create_context handle) (counter_error t handle) >>= with_counter
        else authorize none

    unfoldable pub execute_policy_session : Exec session.State Unit
    execute_policy_session = do
      or_wrap (t.policy_pcr dynamic_input.pcr_selection) "cannot execute PCR assertion"
      or_else (execute_policy_or_assertions session dynamic_input.pcr_or_data)
          (or_assertions_error t)
      from_handle static_input.pcr_policy_counter_handle
