-- ===== src/Unseal/Blame.antt =====
-- From a failure in the TPM to the reason that activation gives for the recovery key.
use secboot.Prelude.{ℕ, String, List, ◌≡◌, ap, ◌∙◌, Option}
use secboot.Exec.{Error, ok, err, wrap}
use secboot.Activation.{SealedKeyObject, Platform, reason_for}
use secboot.Activation.TpmKey.{get_pin, activate_with_tpm_key}
use secboot.Activation.Fails.{activate_with_tpm_key-unseal_fails}
use secboot.Unseal.{
  KeyData, UnsealTpm, policy_assertions, policy_error, unseal_error, unseal_from_tpm,
}
use secboot.Unseal.Runs.{Reaches, unseal_from_tpm-policy_fails, unseal_from_tpm-unseal_fails}
use secboot.Unseal.Reasons.{
  policy_blame, unseal_blame, policy_error-not_provisioning, unseal_error-not_provisioning,
  reason_for-policy_error, reason_for-unseal_error,
}

-- A call of `activateWithTPMKey` with one try, up to the call of `UnsealFromTPM`, whose outcome is
-- that of the TPM in state `ts`.
module _ (p : Platform) (t : UnsealTpm) (k : SealedKeyObject) (d : KeyData t.policy) (pin : List ℕ)
    (volume path key_path prefix : String) (reader : Option ℕ) (options : List String)
    (s s1 s2 : p.State) (read : p.read_sealed_key_object key_path s ≡ (ok k, s1))
    (typed : get_pin p k.auth_mode_2f path reader s1 ≡ (ok pin, s2)) (ts : t.policy.session.State)
    (same : (p.unseal_from_tpm k pin s2).0 ≡ (unseal_from_tpm t d pin ts).0)
    (key session : t.policy.Context) (ts1 ts2 : t.policy.session.State)
    (reaches : Reaches t d ts key session ts1) where
  -- When the sealed key is read, the PIN, if there is one, is typed, and the object is loaded and the
  -- session started, but `executePolicySession` fails: `activateWithTPMKey` with one try fails with an
  -- error whose reason for the recovery key is the blame of the assertions' error.
  pub activate_with_tpm_key-policy_blame :
      (e : Error)
      → policy_assertions t d pin session ts1 ≡ (err e, ts2)
      → (e' : Error) × ((activate_with_tpm_key p volume path key_path reader 1 options prefix s).0
          ≡ err e')
        × (reason_for e' ≡ policy_blame t e)
  activate_with_tpm_key-policy_blame e failed =
      let text : String = "cannot complete authorization policy assertions" in
      (
        wrap "cannot unseal key" (policy_error t (wrap text e)),
        activate_with_tpm_key-unseal_fails p k pin volume path key_path prefix reader options s s1
            s2 (p.unseal_from_tpm k pin s2).1 (policy_error t (wrap text e)) read typed
            (ap (λ r. (r, (p.unseal_from_tpm k pin s2).1))
              (same ∙ unseal_from_tpm-policy_fails t d pin key session ts ts1 ts2 e reaches failed))
            (policy_error-not_provisioning t text e),
        reason_for-policy_error t "cannot unseal key" text e,
      )

  -- When the sealed key is read, the PIN, if there is one, is typed, and the policy assertions succeed
  -- in the session, but TPM2_Unseal fails: `activateWithTPMKey` with one try fails with an error whose
  -- reason for the recovery key is the blame of the TPM's error.
  pub activate_with_tpm_key-unseal_blame :
      (ts3 : t.policy.session.State) (e : Error)
      → policy_assertions t d pin session ts1 ≡ (ok tt, ts2)
      → t.unseal key session pin ts2 ≡ (err e, ts3)
      → (e' : Error) × ((activate_with_tpm_key p volume path key_path reader 1 options prefix s).0
          ≡ err e')
        × (reason_for e' ≡ unseal_blame t e)
  activate_with_tpm_key-unseal_blame ts3 e asserted failed = (
    wrap "cannot unseal key" (unseal_error t e),
    activate_with_tpm_key-unseal_fails p k pin volume path key_path prefix reader options s s1 s2
        (p.unseal_from_tpm k pin s2).1 (unseal_error t e) read typed
        (ap (λ r. (r, (p.unseal_from_tpm k pin s2).1))
          (same
            ∙ unseal_from_tpm-unseal_fails t d pin key session ts ts1 ts2 ts3 e reaches asserted
                failed))
        (unseal_error-not_provisioning t e),
    reason_for-unseal_error t "cannot unseal key" e,
  )
