-- ===== src/Activation/TpmKey.antt =====
-- crypt.go: activating a volume with the key that the TPM unseals.
use secboot.Prelude.{
  ℕ, zero, suc, String, List, [], Bool, true, false, not, Option, none, if◌then◌else◌,
}
use secboot.Exec.{
  Exec, Result, ok, err, wrap, requires_pin_err, map_error, pure, lift, attempt, or_wrap, ◌>>=◌,
  ◌>>◌,
}
use secboot.Activation.{
  AuthMode, auth_mode_none, auth_mode_pin, SealedKeyObject, KeyDescription, type_tpm, Platform,
  is_pin_fail, is_tpm_provisioning, is_requires_lockout, get_password, keyring_prefix_or_default,
}

-- The test that ends the loop of `activateWithTPMKey`: `err != nil && (err != ErrPINFail || mode != AuthModePIN)`.
unfoldable pub ends_tries : {A : Type 0} → AuthMode → Result A → Bool
ends_tries mode (ok a) = false
ends_tries auth_mode_pin (err e) = not (is_pin_fail e)
ends_tries auth_mode_none (err e) = true
ends_tries mode r = true

unfoldable pub provisioned : Result {0} Unit → Bool
provisioned (ok _) = true
provisioned (err e) = is_requires_lockout e
provisioned r = false

unfoldable pub is_provisioning_failure : {A : Type 0} → Result A → Bool
is_provisioning_failure (err e) = is_tpm_provisioning e
is_provisioning_failure r = false

unfoldable pub next_reader : AuthMode → Option ℕ → Option ℕ
next_reader auth_mode_none reader = reader
next_reader auth_mode_pin reader = none

-- `activateWithTPMKey` from its `switch` on: the tries it allows.
unfoldable pub tries_allowed : AuthMode → ℕ → Result ℕ
tries_allowed auth_mode_pin zero = err requires_pin_err
tries_allowed auth_mode_none zero = ok 1
tries_allowed mode (suc tries) = ok (suc tries)

module _ (p : Platform) where
  unfoldable pub add_tpm_key : KeyDescription → List ℕ → Exec p.State Unit
  add_tpm_key description key s = (ok tt, p.add_key description key s)

  unfoldable pub unseal_key_from_tpm : SealedKeyObject → List ℕ → Exec p.State (List ℕ × List ℕ)
  unseal_key_from_tpm k pin = do
    first ← attempt (p.unseal_from_tpm k pin)
    if is_provisioning_failure first
        then (do
          p_err ← attempt p.ensure_provisioned
          if provisioned p_err then p.unseal_from_tpm k pin else lift first)
        else lift first

  unfoldable pub get_pin : AuthMode → String → Option ℕ → Exec p.State (List ℕ)
  get_pin auth_mode_none source_device_path reader = pure []
  get_pin auth_mode_pin source_device_path reader =
      or_wrap (get_password p source_device_path "PIN" reader) "cannot obtain PIN"

  -- The loop of `activateWithTPMKey`: `last` is what `sealedKey`, `authPrivateKey` and `err` hold.
  unfoldable pub unseal_tries :
      String
      → SealedKeyObject
      → Option ℕ
      → ℕ
      → Result (List ℕ × List ℕ)
      → Exec p.State (Result (List ℕ × List ℕ))
  unseal_tries source_device_path k reader zero last = pure last
  unseal_tries source_device_path k reader (suc tries) last =
      let again = unseal_tries source_device_path k (next_reader k.auth_mode_2f reader) tries in
      do
        pin ← get_pin k.auth_mode_2f source_device_path reader
        outcome ← attempt (unseal_key_from_tpm k pin)
        if ends_tries k.auth_mode_2f outcome then pure outcome else again outcome

  unfoldable pub activate_with_tpm_key :
      String → String → String → Option ℕ → ℕ → List String → String → Exec p.State Unit
  activate_with_tpm_key volume_name source_device_path key_path reader tries options prefix = do
    k ← or_wrap (p.read_sealed_key_object key_path) "cannot read sealed key object"
    allowed ← lift (tries_allowed k.auth_mode_2f tries)
    outcome ← unseal_tries source_device_path k reader allowed (ok ([], []))
    keys ← lift (map_error (wrap "cannot unseal key") outcome)
    or_wrap (p.activate volume_name source_device_path keys.0 options) "cannot activate volume"
    add_tpm_key (type_tpm (keyring_prefix_or_default prefix) source_device_path) keys.1
