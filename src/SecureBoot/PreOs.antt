-- ===== src/SecureBoot/PreOs.antt =====
-- secureboot_policy.go: the events before the operating system, with updates of the databases.
use text.Mathlib.Text.{◌==◌ as str_eq}
use secboot.Prelude.{
  ℕ, String, List, [], ◌∷◌, true, false, Option, none, some, ◌==◌, ltb, if◌then◌else◌, length, drop,
}
use secboot.Exec.{Result, ok, err, message, wrap, map_error}
use secboot.Exec.Results.{◌>>=◌}
use secboot.SigDb.Database.{decode_secure_boot_db, SigDbUpdateQuirkMode, compute_db_update}
use secboot.SecureBoot.{
  Guid, EfiGuids, secure_boot_pcr, SecureBootPolicyGenBranch, Measuring, extend_measurement,
  extend_firmware_verification_measurement, compute_and_extend_variable_measurement,
}
use secboot.SecureBoot.Events.{
  Event, SecureBootVerificationEvent, is_kek_measurement_event, is_db_measurement_event,
  is_dbx_measurement_event, is_verification_event,
}

pub record SecureBootDbUpdate : Type 0 where
  pub db : String
  pub path : String

-- The files that are read: the variables in efivarfs, where one may be missing, and the updates.
pub record EfiFiles : Type 0 where
  pub read_variable : String → Result (Option (List ℕ))
  pub read_update : String → Result (List ℕ)

-- The contents of a variable behind its four bytes of attributes.
unfoldable pub variable_contents : Option (List ℕ) → Result (List ℕ)
variable_contents none = ok []
variable_contents (some []) = ok []
variable_contents (some (b ∷ bytes)) =
    if ltb (length (b ∷ bytes)) 4
    then err (message "current variable data is too short")
    else ok (drop 4 (b ∷ bytes))

module _ (m : Measuring) (g : EfiGuids) (files : EfiFiles) where
  unfoldable pub apply_updates :
      String → SigDbUpdateQuirkMode → List SecureBootDbUpdate → List ℕ → Result (List ℕ)
  apply_updates name quirk [] db = ok db
  apply_updates name quirk (u ∷ updates) db = elim (str_eq u.db name) [
    | false ↦ apply_updates name quirk updates db
    | true ↦ (do
      update ← map_error (wrap "cannot open signature DB update") (files.read_update u.path)
      db' ←
          map_error (wrap "cannot compute signature DB update")
            (compute_db_update g.efi_cert_type_pkcs7_guid db update quirk)
      apply_updates name quirk updates db')
  ]

  unfoldable pub process_signature_db_measurement_event :
      Guid
      → String
      → String
      → List SecureBootDbUpdate
      → SigDbUpdateQuirkMode
      → SecureBootPolicyGenBranch
      → Result (List ℕ × SecureBootPolicyGenBranch)
  process_signature_db_measurement_event guid name filename updates quirk b = do
    file ← map_error (wrap "cannot read current variable") (files.read_variable filename)
    current ← variable_contents file
    db ← apply_updates name quirk updates current
    b' ←
        map_error (wrap "cannot compute and extend measurement")
          (compute_and_extend_variable_measurement m b guid name db)
    ok (db, b')

  unfoldable pub process_kek_measurement_event :
      List SecureBootDbUpdate
      → SigDbUpdateQuirkMode
      → SecureBootPolicyGenBranch
      → Result SecureBootPolicyGenBranch
  process_kek_measurement_event updates quirk b = do
    (db, b') ←
        process_signature_db_measurement_event g.efi_global_variable_guid "KEK"
          "KEK-8be4df61-93ca-11d2-aa0d-00e098032b8c" updates quirk b
    ok b'

  unfoldable pub process_db_measurement_event :
      List SecureBootDbUpdate
      → SigDbUpdateQuirkMode
      → SecureBootPolicyGenBranch
      → Result SecureBootPolicyGenBranch
  process_db_measurement_event updates quirk b = do
    (db, b') ←
        process_signature_db_measurement_event g.efi_image_security_database_guid "db"
          "db-d719b2cb-3d3a-4596-a3bc-dad00e67656f" updates quirk b
    sigs ← map_error (wrap "cannot decode DB contents") (decode_secure_boot_db db)
    ok (record b' {
      db_set = record (b'.db_set) {
        uefi_db = some (record {
          variable_name = g.efi_image_security_database_guid;
          unicode_name = "db";
          signatures = sigs;
        });
      };
    })

  unfoldable pub process_dbx_measurement_event :
      List SecureBootDbUpdate
      → SigDbUpdateQuirkMode
      → SecureBootPolicyGenBranch
      → Result SecureBootPolicyGenBranch
  process_dbx_measurement_event updates quirk b = do
    (db, b') ←
        process_signature_db_measurement_event g.efi_image_security_database_guid "dbx"
          "dbx-d719b2cb-3d3a-4596-a3bc-dad00e67656f" updates quirk b
    ok b'

  -- One event before the operating system; other events change nothing.
  unfoldable pub process_event :
      List SecureBootDbUpdate
      → SigDbUpdateQuirkMode
      → Event
      → SecureBootPolicyGenBranch
      → Result SecureBootPolicyGenBranch
  process_event updates quirk e b =
      if is_kek_measurement_event g e
      then map_error (wrap "cannot process KEK measurement event")
          (process_kek_measurement_event updates quirk b)
      else if is_db_measurement_event g e
      then map_error (wrap "cannot process db measurement event")
          (process_db_measurement_event updates quirk b)
      else if is_dbx_measurement_event g e
      then map_error (wrap "cannot process dbx measurement event")
          (process_dbx_measurement_event updates quirk b)
      else if is_verification_event e
      then extend_firmware_verification_measurement m b (e.digests m.alg)
      else if e.pcr_index == secure_boot_pcr
      then extend_measurement m b (e.digests m.alg)
      else ok b

  -- `processPreOSEvents`: the loop ends at the event of the first image of the operating system.
  unfoldable pub process_pre_os_events :
      List Event
      → SecureBootVerificationEvent
      → List SecureBootDbUpdate
      → SigDbUpdateQuirkMode
      → SecureBootPolicyGenBranch
      → Result SecureBootPolicyGenBranch
  process_pre_os_events [] initial updates quirk b = ok b
  process_pre_os_events (e ∷ events) initial updates quirk b =
      elim (e.address == initial.event.address) [
        | true ↦
            if initial.measured_in_pre_os
            then extend_firmware_verification_measurement m b (initial.event.digests m.alg)
            else ok b
        | false ↦ (do
          b' ← process_event updates quirk e b
          process_pre_os_events events initial updates quirk b')
      ]
