-- ===== src/SecureBoot/Events.antt =====
-- secureboot_policy.go: the TCG event log. The checks on it, the verification of the first image
-- of the operating system, and the events before it.
use text.Mathlib.Text.{◌==◌ as str_eq}
use secboot.Prelude.{
  ℕ, String, List, [], ◌∷◌, Bool, true, false, not, ◌&&◌, Option, none, some, ◌==◌, if◌then◌else◌,
  bytes_equal,
}
use secboot.Exec.{Error, Result, ok, err, message}
use secboot.Tpm.{Alg, Digest}
use secboot.SecureBoot.{Guid, EfiGuids, boot_manager_code_pcr, secure_boot_pcr}

pub data EventType : Type 0 where
  separator efi_action efi_boot_services_application : EventType
  efi_variable_driver_config efi_variable_authority other_event : EventType

-- The decoded data of an event: a variable, a decoding error, or something else by its text.
pub data EventData : Type 0 where
  efi_variable_data : Guid → String → List ℕ → EventData
  invalid_data : Error → EventData
  other_data : String → EventData

-- An event of the log; `address` tells events apart as their pointers do.
pub record Event : Type 0 where
  pub address : ℕ
  pub index : ℕ
  pub pcr_index : ℕ
  pub event_type : EventType
  pub digests : Alg → Digest
  pub event_data : EventData

unfoldable pub is_separator : EventType → Bool
is_separator separator = true
is_separator t = false

unfoldable pub is_application : EventType → Bool
is_application efi_boot_services_application = true
is_application t = false

unfoldable pub is_driver_config : EventType → Bool
is_driver_config efi_variable_driver_config = true
is_driver_config t = false

unfoldable pub is_authority : EventType → Bool
is_authority efi_variable_authority = true
is_authority t = false

unfoldable pub is_action : EventType → Bool
is_action efi_action = true
is_action t = false

pub record SecureBootVerificationEvent : Type 0 where
  pub event : Event
  pub measured_in_pre_os : Bool

-- The branch for a load of an image by the boot manager after the separators.
unfoldable pub launched : Option SecureBootVerificationEvent → Result SecureBootVerificationEvent
launched none =
    err (message "boot manager image load event occurred without a preceding verification event")
launched (some e) = ok e

unfoldable pub ends_pre_os : Event → Bool
ends_pre_os e = is_separator e.event_type && not (e.pcr_index == secure_boot_pcr)

unfoldable pub is_os_load : Bool → Event → Bool
is_os_load pre_os e =
    e.pcr_index == boot_manager_code_pcr && (is_application e.event_type && not pre_os)

-- `isVerificationEvent`
unfoldable pub is_verification_event : Event → Bool
is_verification_event e = e.pcr_index == secure_boot_pcr && is_authority e.event_type

-- The loop of `identifyInitialOSLaunchVerificationEvent`, with `preOS` and the last event.
unfoldable pub identify_from :
    Bool → Option SecureBootVerificationEvent → List Event → Result SecureBootVerificationEvent
identify_from pre_os last [] = err (message "boot manager image load event not found")
identify_from pre_os last (e ∷ events) = elim (ends_pre_os e) [
  | true ↦ identify_from false last events
  | false ↦ elim (is_os_load pre_os e) [
    | true ↦ launched last
    | false ↦
        identify_from pre_os
          (if is_verification_event e
            then some (record { event = e; measured_in_pre_os = pre_os })
            else last)
          events
  ]
]

unfoldable pub identify_initial_os_launch_verification_event :
    List Event → Result SecureBootVerificationEvent
identify_initial_os_launch_verification_event events = identify_from true none events

unfoldable pub is_variable : Guid → String → EventData → Bool
is_variable guid name (efi_variable_data guid' name' contents) =
    bytes_equal guid' guid && str_eq name' name
is_variable guid name d = false

unfoldable pub is_secure_boot_config_measurement_event : Event → Guid → String → Bool
is_secure_boot_config_measurement_event e guid name =
    e.pcr_index == secure_boot_pcr
    && (is_driver_config e.event_type && is_variable guid name e.event_data)

-- `isKEKMeasurementEvent`, `isDbMeasurementEvent`, `isDbxMeasurementEvent`
unfoldable pub is_kek_measurement_event : EfiGuids → Event → Bool
is_kek_measurement_event g e =
    is_secure_boot_config_measurement_event e g.efi_global_variable_guid "KEK"

unfoldable pub is_db_measurement_event : EfiGuids → Event → Bool
is_db_measurement_event g e =
    is_secure_boot_config_measurement_event e g.efi_image_security_database_guid "db"

unfoldable pub is_dbx_measurement_event : EfiGuids → Event → Bool
is_dbx_measurement_event g e =
    is_secure_boot_config_measurement_event e g.efi_image_security_database_guid "dbx"
