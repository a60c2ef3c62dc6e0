-- ===== src/SecureBoot/Log.antt =====
-- secureboot_policy.go: the checks of `AddEFISecureBootPolicyProfile` on the event log.
use text.Mathlib.Text.{◌==◌ as str_eq}
use secboot.Prelude.{
  ℕ, String, List, [], ◌∷◌, Bool, false, ◌&&◌, ◌==◌, ltb, if◌then◌else◌, bytes_equal,
}
use secboot.Exec.{Result, ok, err, panic, message}
use secboot.Exec.Results.{◌>>=◌, ◌>>◌}
use secboot.SecureBoot.{EfiGuids, boot_manager_code_pcr, secure_boot_pcr}
use secboot.SecureBoot.Events.{
  EventData, efi_variable_data, invalid_data, other_data, Event, is_action, is_driver_config,
  is_authority,
}

-- `data[0] == 0x00`, which panics on empty data.
unfoldable pub first_is_zero : List ℕ → Result Bool
first_is_zero [] = panic
first_is_zero (b ∷ bytes) = ok (b == 0)

unfoldable pub is_text : String → EventData → Bool
is_text text (other_data s) = str_eq s text
is_text text d = false

module _ (g : EfiGuids) where
  -- The secure boot configuration; a value that is neither a variable nor an error panics.
  unfoldable pub check_driver_config : ℕ → EventData → Result (Unit {0})
  check_driver_config index (invalid_data e) =
      err (message "secure boot policy event has invalid event data")
  check_driver_config index (other_data s) = panic
  check_driver_config index (efi_variable_data guid name contents) =
      if bytes_equal guid g.efi_global_variable_guid && str_eq name "SecureBoot"
      then (if ltb 0 index
          then err (
              message
                "cannot compute secure boot policy profile: secure boot configuration was modified after the initial configuration was measured, without performing a reboot")
          else (do
            disabled ← first_is_zero contents
            (if disabled
                then err (
                    message
                      "cannot compute secure boot policy profile: the current boot was performed with secure boot disabled in firmware")
                else ok tt)))
      else ok tt

  unfoldable pub check_authority : EventData → Result (Unit {0})
  check_authority (invalid_data e) = err (message "secure boot policy event has invalid event data")
  check_authority (other_data s) = panic
  check_authority (efi_variable_data guid name contents) =
      if bytes_equal guid g.shim_guid && str_eq name "MokSBState"
      then err (
          message
            "cannot compute secure boot policy profile: the current boot was performed with validation disabled in Shim")
      else ok tt

  unfoldable pub check_event : Event → Result (Unit {0})
  check_event e =
      if e.pcr_index == boot_manager_code_pcr
      then (if is_action e.event_type
            && is_text "Returning from EFI Application from Boot Option" e.event_data
          then err (
              message
                "cannot compute secure boot policy profile: the current boot was preceeded by a boot attempt to an EFI application that returned to the boot manager, without a reboot in between")
          else ok tt)
      else if e.pcr_index == secure_boot_pcr
      then (if is_driver_config e.event_type
          then check_driver_config e.index e.event_data
          else if is_authority e.event_type
          then check_authority e.event_data
          else ok tt)
      else ok tt

  unfoldable pub check_events : List Event → Result (Unit {0})
  check_events [] = ok tt
  check_events (e ∷ events) = do check_event e; check_events events
