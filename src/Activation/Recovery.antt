-- ===== src/Activation/Recovery.antt =====
-- crypt.go: activating a volume with the recovery key.
use secboot.Prelude.{
  ℕ, zero, suc, String, List, Bool, false, Option, none, some, ◌==◌, if◌then◌else◌,
}
use secboot.Exec.{
  Error, Exec, Result, ok, err, panic, out_of_fuel, message, wrap, external, in_chain, pure, raise,
  lift, attempt, or_wrap, ◌>>=◌,
}
use secboot.RecoveryKey.{parse_recovery_key}
use secboot.Activation.{
  RecoveryKeyUsageReason, KeyDescription, type_recovery, Platform, get_password,
  keyring_prefix_or_default,
}

module _ (p : Platform) where
  unfoldable pub is_exit : Error → Bool
  is_exit (external n) = p.is_exit_error n
  is_exit e = false

  unfoldable pub succeed_with : KeyDescription → List ℕ → Exec p.State (Option Error)
  succeed_with description key s = (ok none, p.add_key description key s)

  -- What follows `activate` in a try with the recovery key: no error, or one that another try may cure.
  unfoldable pub after_activate :
      KeyDescription → List ℕ → Result {0} Unit → Exec p.State (Option Error)
  after_activate description key (ok _) = succeed_with description key
  after_activate description key (err e) =
      let e' = wrap "cannot activate volume" e in
      if in_chain is_exit e' then pure (some e') else raise e'
  after_activate description key panic = lift panic
  after_activate description key out_of_fuel = lift out_of_fuel

  unfoldable pub recovery_try :
      String → String → List String → KeyDescription → Result (List ℕ) → Exec p.State (Option Error)
  recovery_try volume_name source_device_path options description (ok key) = do
    outcome ← attempt (p.activate volume_name source_device_path key options)
    after_activate description key outcome
  recovery_try volume_name source_device_path options description (err e) =
      pure (some (wrap "cannot decode recovery key" e))
  recovery_try volume_name source_device_path options description panic = lift panic
  recovery_try volume_name source_device_path options description out_of_fuel = lift out_of_fuel

  -- `continue` with the last error, or `break`.
  unfoldable pub next_try : (Option Error → Exec p.State Unit) → Option Error → Exec p.State Unit
  next_try again none = pure tt
  next_try again (some e) = again (some e)

  unfoldable pub return_last : Option Error → Exec p.State Unit
  return_last none = pure tt
  return_last (some e) = raise e

  -- The loop of `activateWithRecoveryKey`, with the tries that are left and `lastErr`.
  unfoldable pub recovery_tries :
      String
      → String
      → List String
      → KeyDescription
      → Option ℕ
      → ℕ
      → Option Error
      → Exec p.State Unit
  recovery_tries volume_name source_device_path options description reader zero last =
      return_last last
  recovery_tries volume_name source_device_path options description reader (suc tries) last = do
    passphrase ←
        or_wrap (get_password p source_device_path "recovery key" reader)
          "cannot obtain recovery key"
    outcome ←
        recovery_try volume_name source_device_path options description
          (parse_recovery_key passphrase)
    next_try (recovery_tries volume_name source_device_path options description none tries) outcome

  unfoldable pub activate_with_recovery_key :
      String
      → String
      → Option ℕ
      → ℕ
      → RecoveryKeyUsageReason
      → List String
      → String
      → Exec p.State Unit
  activate_with_recovery_key volume_name source_device_path reader tries reason options prefix =
      if tries == 0
      then raise (message "no recovery key tries permitted")
      else recovery_tries volume_name source_device_path options
          (type_recovery (keyring_prefix_or_default prefix) source_device_path reason) reader tries
          none
