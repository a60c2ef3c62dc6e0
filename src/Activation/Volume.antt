-- ===== src/Activation/Volume.antt =====
-- crypt.go: the flows that activate a volume, over what they ask of the rest of the system.
use secboot.Prelude.{ℕ, String, List, Bool, true, false, Option, none}
use secboot.Exec.{
  Error, Exec, Result, ok, err, panic, out_of_fuel, message, pure, raise, lift, attempt, ◌>>=◌,
}
use secboot.Activation.{requested, ℤ, pos, negsuc, Platform, reason_for, make_activate_options}
use secboot.Activation.Recovery.{activate_with_recovery_key}
use secboot.Activation.TpmKey.{activate_with_tpm_key}

-- The fields of `ActivateVolumeOptions`.
pub record ActivateVolumeOptions : Type 0 where
  pub passphrase_tries : ℤ
  pub recovery_key_tries : ℤ
  pub activate_options : List String
  pub keyring_prefix : String

-- How `ActivateVolumeWithTPMSealedKey` ends: its flag, and the error beside it.
pub data Activated : Type 0 where
  with_tpm_key : Activated
  refused : Error → Activated
  with_recovery_key : Error → Activated
  not_activated : Error → Error → Activated

unfoldable pub success_flag : Activated → Bool
success_flag with_tpm_key = true
success_flag (refused e) = false
success_flag (with_recovery_key e) = true
success_flag (not_activated e r) = false

module _ (p : Platform) where
  -- The fallback of `ActivateVolumeWithTPMSealedKey`.
  unfoldable pub fall_back : Error → Result {0} Unit → Exec p.State Activated
  fall_back e (ok _) = pure (with_recovery_key e)
  fall_back e (err r) = pure (not_activated e r)
  fall_back e panic = lift panic
  fall_back e out_of_fuel = lift out_of_fuel

  unfoldable pub after_tpm_key :
      (Error → Exec p.State Unit) → Result {0} Unit → Exec p.State Activated
  after_tpm_key recover (ok _) = pure with_tpm_key
  after_tpm_key recover (err e) = do outcome ← attempt (recover e); fall_back e outcome
  after_tpm_key recover panic = lift panic
  after_tpm_key recover out_of_fuel = lift out_of_fuel

  unfoldable pub activate_checked :
      String
      → String
      → String
      → Option ℕ
      → ℕ
      → ℕ
      → String
      → Result (List String)
      → Exec p.State Activated
  activate_checked volume_name source_device_path key_path reader tries recovery prefix
        (ok options) =
      do
        outcome ← attempt (
            activate_with_tpm_key p volume_name source_device_path key_path reader tries options
              prefix)
        after_tpm_key
            (λ e.
              activate_with_recovery_key p volume_name source_device_path none recovery
                (reason_for e) options prefix)
            outcome
  activate_checked volume_name source_device_path key_path reader tries recovery prefix (err e) =
      pure (refused e)
  activate_checked volume_name source_device_path key_path reader tries recovery prefix panic =
      lift panic
  activate_checked volume_name source_device_path key_path reader tries recovery prefix
        out_of_fuel =
      lift out_of_fuel

  -- `ActivateVolumeWithTPMSealedKey`, given `PassphraseTries` and `RecoveryKeyTries`.
  unfoldable pub activate_sealed :
      String → String → String → Option ℕ → ActivateVolumeOptions → ℤ → ℤ → Exec p.State Activated
  activate_sealed volume_name source_device_path key_path reader o (negsuc n) recovery =
      pure (refused (message "invalid PassphraseTries"))
  activate_sealed volume_name source_device_path key_path reader o (pos n) (negsuc m) =
      pure (refused (message "invalid RecoveryKeyTries"))
  activate_sealed volume_name source_device_path key_path reader o (pos n) (pos m) =
      activate_checked volume_name source_device_path key_path reader n m o.keyring_prefix
        (make_activate_options o.activate_options)

  unfoldable pub activate_volume_with_tpm_sealed_key :
      String → String → String → Option ℕ → ActivateVolumeOptions → Exec p.State Activated
  activate_volume_with_tpm_sealed_key volume_name source_device_path key_path reader o =
      activate_sealed volume_name source_device_path key_path reader o o.passphrase_tries
        o.recovery_key_tries

  -- `ActivateVolumeWithRecoveryKey`, given `RecoveryKeyTries`.
  unfoldable pub activate_recovery :
      String → String → Option ℕ → ActivateVolumeOptions → ℤ → Exec p.State Unit
  activate_recovery volume_name source_device_path reader o (negsuc n) =
      raise (message "invalid RecoveryKeyTries")
  activate_recovery volume_name source_device_path reader o (pos n) = do
    options ← lift (make_activate_options o.activate_options)
    activate_with_recovery_key p volume_name source_device_path reader n requested options
        o.keyring_prefix

  unfoldable pub activate_volume_with_recovery_key :
      String → String → Option ℕ → ActivateVolumeOptions → Exec p.State Unit
  activate_volume_with_recovery_key volume_name source_device_path reader o =
      activate_recovery volume_name source_device_path reader o o.recovery_key_tries
