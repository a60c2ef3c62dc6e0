-- ===== src/Unseal/Reasons.antt =====
-- How the errors of `UnsealFromTPM` come out as the reason for a recovery key.
use secboot.Prelude.{
  String, Bool, true, false, ◌||◌, ◌≡◌, refl, if◌then◌else◌, Bool-cases, inl, inr, ◌∙◌,
}
use secboot.Exec.{Error, wrap, invalid_key_file_error, err_pin_fail, in_chain}
use secboot.Activation.{
  RecoveryKeyUsageReason, invalid_key_file, passphrase_fail, reason_for, is_exec_error,
  is_tpm_provisioning,
}
use secboot.Exec.{of_class}
use secboot.Unseal.{
  UnsealTpm, is_dynamic_policy_data, is_static_policy_data, policy_error, unseal_error,
}

-- Wrapping hides no reason.
reason_for-wrap : (text : String) (e : Error) → reason_for (wrap text e) ≡ reason_for e
unfolding reason_for is_exec_error in_chain
reason_for-wrap text e = refl

invalid_key_file_reason :
    (text : String) → reason_for (invalid_key_file_error text) ≡ invalid_key_file
unfolding reason_for is_exec_error in_chain
invalid_key_file_reason text = refl

pin_fail_reason : reason_for err_pin_fail ≡ passphrase_fail
unfolding reason_for is_exec_error in_chain
pin_fail_reason = refl

module _ (t : UnsealTpm) where
  -- What failed policy assertions are to blame on, by the class of their error: the key file for bad
  -- policy data and for a missing lock index, the passphrase for a refused authorization.
  unfoldable pub policy_blame : Error → RecoveryKeyUsageReason
  policy_blame e =
      if in_chain is_dynamic_policy_data e || in_chain is_static_policy_data e
      then invalid_key_file
      else if in_chain (of_class t.is_policy_secret_auth_fail) e
      then passphrase_fail
      else if in_chain (of_class t.is_lock_index_unavailable) e
      then invalid_key_file
      else reason_for e

  unfoldable pub unseal_blame : Error → RecoveryKeyUsageReason
  unseal_blame e =
      if in_chain (of_class t.is_unseal_policy_fail) e
      then invalid_key_file
      else if in_chain (of_class t.is_unseal_auth_fail) e
      then passphrase_fail
      else reason_for e

  -- Neither error makes activation provision the TPM.
  pub policy_error-not_provisioning :
      (text : String) (e : Error) → is_tpm_provisioning (policy_error t (wrap text e)) ≡ false
  unfolding policy_error
  policy_error-not_provisioning text e =
      go (in_chain is_dynamic_policy_data (wrap text e))
        (in_chain is_static_policy_data (wrap text e))
        (in_chain (of_class t.is_policy_secret_auth_fail) (wrap text e))
        (in_chain (of_class t.is_lock_index_unavailable) (wrap text e))
    where
      go :
          (a b c d : Bool)
          → is_tpm_provisioning (
              if a
              then invalid_key_file_error (t.error_text (wrap text e))
              else if b
              then invalid_key_file_error (t.error_text (wrap text e))
              else if c
              then err_pin_fail
              else if d
              then invalid_key_file_error "required legacy lock NV index is not present"
              else wrap text e)
            ≡ false
      go true b c d = refl
      go false true c d = refl
      go false false true d = refl
      go false false false true = refl
      go false false false false = refl

  pub unseal_error-not_provisioning : (e : Error) → is_tpm_provisioning (unseal_error t e) ≡ false
  unfolding unseal_error
  unseal_error-not_provisioning e =
      go (in_chain (of_class t.is_unseal_policy_fail) e)
        (in_chain (of_class t.is_unseal_auth_fail) e)
    where
      go :
          (a b : Bool)
          → is_tpm_provisioning (
              if a
              then invalid_key_file_error "the authorization policy check failed during unsealing"
              else if b
              then err_pin_fail
              else wrap "cannot unseal key" e)
            ≡ false
      go true b = refl
      go false true = refl
      go false false = refl

  pub reason_for-policy_error :
      (text text' : String) (e : Error)
      → reason_for (wrap text (policy_error t (wrap text' e))) ≡ policy_blame e
  unfolding policy_error policy_blame in_chain is_dynamic_policy_data is_static_policy_data of_class
  reason_for-policy_error text text' e =
      reason_for-wrap text (policy_error t (wrap text' e))
      ∙ go (in_chain is_dynamic_policy_data e) (in_chain is_static_policy_data e)
          (in_chain (of_class t.is_policy_secret_auth_fail) e)
          (in_chain (of_class t.is_lock_index_unavailable) e)
    where
      go :
          (a b c d : Bool)
          → reason_for (
              if a
              then invalid_key_file_error (t.error_text (wrap text' e))
              else if b
              then invalid_key_file_error (t.error_text (wrap text' e))
              else if c
              then err_pin_fail
              else if d
              then invalid_key_file_error "required legacy lock NV index is not present"
              else wrap text' e)
            ≡ (if a || b
                then invalid_key_file
                else if c
                then passphrase_fail
                else if d
                then invalid_key_file
                else reason_for e)
      go true b c d = invalid_key_file_reason _
      go false true c d = invalid_key_file_reason _
      go false false true d = pin_fail_reason
      go false false false true = invalid_key_file_reason _
      go false false false false = reason_for-wrap text' e

  pub reason_for-unseal_error :
      (text : String) (e : Error) → reason_for (wrap text (unseal_error t e)) ≡ unseal_blame e
  unfolding unseal_error unseal_blame
  reason_for-unseal_error text e =
      reason_for-wrap text (unseal_error t e)
      ∙ elim (Bool-cases (in_chain (of_class t.is_unseal_policy_fail) e)) [
        | inl e1 ↦ rw e1 (invalid_key_file_reason _)
        | inr e1 ↦ rw e1 (elim (Bool-cases (in_chain (of_class t.is_unseal_auth_fail) e)) [
          | inl e2 ↦ rw e2 pin_fail_reason
          | inr e2 ↦ rw e2 (reason_for-wrap "cannot unseal key" e)
        ])
      ]
