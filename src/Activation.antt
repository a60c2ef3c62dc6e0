-- ===== src/Activation.antt =====
-- crypt.go: activating an encrypted volume with a key that the TPM unseals, or with a recovery key.
pub mod Recovery
pub mod TpmKey
pub mod Volume
pub mod Active
pub mod Attached
pub mod Outcome
pub mod Options
pub mod Tries
pub mod Accepts
pub mod Fails
mod Tests
use text.Mathlib.Text.{◌==◌ as str_eq, starts_with}
use secboot.Prelude.{
  ℕ, zero, suc, String, List, [], ◌∷◌, ◌++◌, Bool, true, false, not, ◌&&◌, ◌||◌, Option, none, some,
  ◌==◌, if◌then◌else◌, bytes_equal,
}
use secboot.Exec.{
  Error, Exec, Result, ok, err, panic, out_of_fuel, message, wrap, exec_error,
  invalid_key_file_error, err_tpm_provisioning, err_tpm_provisioning_requires_lockout,
  err_tpm_lockout, err_pin_fail, requires_pin_err, static_policy_data_error,
  dynamic_policy_data_error, key_file_error, in_chain, pure, raise, lift, attempt, or_wrap, ◌>>=◌,
  ◌>>◌, bind_result, map_error,
}
use secboot.RecoveryKey.{parse_recovery_key}

-- `RecoveryKeyUsageReason`
pub data RecoveryKeyUsageReason : Type 0 where
  unexpected_error requested tpm_lockout tpm_provisioning_error : RecoveryKeyUsageReason
  invalid_key_file passphrase_fail : RecoveryKeyUsageReason

pub data AuthMode : Type 0 where
  auth_mode_none auth_mode_pin : AuthMode

-- What is read from a key data file: `AuthMode2F`, and the rest by a number.
pub record SealedKeyObject : Type 0 where
  pub auth_mode_2f : AuthMode
  pub key_data : ℕ

-- The description of a key in the user keyring, by the parts that are printed into it.
pub data KeyDescription : Type 0 where
  type_tpm : String → String → KeyDescription
  type_recovery : String → String → RecoveryKeyUsageReason → KeyDescription

-- What `scanner.Scan()` on a reader gives.
pub data Scan : Type 0 where
  line : List ℕ → Scan
  failed : Error → Scan
  at_end : Scan

-- `int`
pub data ℤ : Type 0 where
  pos : ℕ → ℤ
  negsuc : ℕ → ℤ

-- What the flows of crypt.go rest on: the terminal, systemd-cryptsetup, the kernel's keyring, the
-- key data file and the TPM.
pub record Platform : Type 1 where
  pub State : Type 0
  pub scan : ℕ → Exec State Scan
  pub ask_password : String → String → Exec State (List ℕ)
  pub activate : String → String → List ℕ → List String → Exec State Unit
  pub add_key : KeyDescription → List ℕ → State → State
  pub is_exit_error : ℕ → Bool
  pub read_sealed_key_object : String → Exec State SealedKeyObject
  pub unseal_from_tpm : SealedKeyObject → List ℕ → Exec State (List ℕ × List ℕ)
  pub ensure_provisioned : Exec State Unit

abbrev pub is_tpm_provisioning : Error → Bool
is_tpm_provisioning err_tpm_provisioning = true
is_tpm_provisioning _ = false

abbrev pub is_requires_lockout : Error → Bool
is_requires_lockout err_tpm_provisioning_requires_lockout = true
is_requires_lockout _ = false

abbrev pub is_tpm_lockout : Error → Bool
is_tpm_lockout err_tpm_lockout = true
is_tpm_lockout _ = false

abbrev pub is_pin_fail : Error → Bool
is_pin_fail err_pin_fail = true
is_pin_fail _ = false

abbrev pub is_requires_pin : Error → Bool
is_requires_pin requires_pin_err = true
is_requires_pin _ = false

abbrev pub is_invalid_key_file : Error → Bool
is_invalid_key_file (invalid_key_file_error text) = true
is_invalid_key_file _ = false

-- `isExecError`: the first `execError` in the chain decides.
unfoldable pub is_exec_error : String → Error → Bool
is_exec_error path (exec_error path' e) = str_eq path' path
is_exec_error path (wrap text e) = is_exec_error path e
is_exec_error path (static_policy_data_error e) = is_exec_error path e
is_exec_error path (dynamic_policy_data_error e) = is_exec_error path e
is_exec_error path (key_file_error e) = is_exec_error path e
is_exec_error path e = false

abbrev pub systemd_cryptsetup_path : String
systemd_cryptsetup_path = "/lib/systemd/systemd-cryptsetup"

-- The `switch` of `ActivateVolumeWithTPMSealedKey`.
unfoldable pub reason_for : Error → RecoveryKeyUsageReason
reason_for e =
    if in_chain is_tpm_lockout e
    then tpm_lockout
    else if in_chain is_tpm_provisioning e
    then tpm_provisioning_error
    else if in_chain is_invalid_key_file e
    then invalid_key_file
    else if in_chain is_requires_pin e
    then passphrase_fail
    else if in_chain is_pin_fail e
    then passphrase_fail
    else if is_exec_error systemd_cryptsetup_path e
    then invalid_key_file
    else unexpected_error

unfoldable pub keyring_prefix_or_default : String → String
keyring_prefix_or_default prefix = if str_eq prefix "" then "secboot" else prefix

-- `makeActivateOptions`
unfoldable pub make_activate_options : List String → Result (List String)
make_activate_options [] = ok ("tries=1" ∷ [])
make_activate_options (o ∷ options) =
    let rest = bind_result (make_activate_options options) λ out. ok (o ∷ out) in
    if starts_with o "tries="
    then err (message "cannot specify the tries= option for systemd-cryptsetup")
    else rest

module _ (p : Platform) where
  unfoldable pub after_scan : String → String → Scan → Exec p.State (List ℕ)
  after_scan source_device_path description (line text) = pure text
  after_scan source_device_path description (failed e) = raise (wrap "cannot obtain from scanner" e)
  after_scan source_device_path description at_end = p.ask_password source_device_path description

  unfoldable pub get_password : String → String → Option ℕ → Exec p.State (List ℕ)
  get_password source_device_path description none = p.ask_password source_device_path description
  get_password source_device_path description (some reader) = do
    scan ← p.scan reader
    after_scan source_device_path description scan
