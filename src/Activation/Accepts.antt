-- ===== src/Activation/Accepts.antt =====
-- Activation with a recovery key that was printed by `RecoveryKey.String`.
use secboot.Prelude.{ℕ, suc, String, List, false, ◌≡◌, ◌∙◌, Option, none, length, ◌==◌, arith}
use secboot.Exec.{ok, attempt, or_wrap}
use secboot.Exec.Steps.{bind-ok, or_wrap-ok, attempt-ok}
use secboot.RecoveryKey.{recovery_key_string}
use secboot.RecoveryKey.RoundTrip.{AllBytes, parse_recovery_key-recovery_key_string}
use secboot.Activation.{
  RecoveryKeyUsageReason, KeyDescription, type_recovery, Platform, get_password,
  keyring_prefix_or_default,
}
use secboot.Activation.Recovery.{
  succeed_with, after_activate, recovery_try, next_try, recovery_tries, activate_with_recovery_key,
}

suc-nonzero : (n : ℕ) → (suc n == 0) ≡ false
suc-nonzero n = ground arith

module _ (p : Platform) where
  recovery_try-accepts :
      (volume_name source_device_path : String) (options : List String)
      (description : KeyDescription) (key : List ℕ) (s1 s2 : p.State)
      → p.activate volume_name source_device_path key options s1 ≡ (ok tt, s2)
      → recovery_try p volume_name source_device_path options description (ok key) s1
        ≡ (ok none, p.add_key description key s2)
  unfolding recovery_try after_activate succeed_with
  recovery_try-accepts volume_name source_device_path options description key s1 s2 accepted =
      bind-ok (attempt (p.activate volume_name source_device_path key options)) _ s1
        (attempt-ok (p.activate volume_name source_device_path key options) s1 accepted)

  -- When what is typed or read first is the printed form of a recovery key, and systemd-cryptsetup
  -- accepts that key, the volume is activated with exactly the key's bytes at the first try, however
  -- many are allowed, and they are what is left in the user keyring, with the reason.
  pub activate_with_recovery_key-accepts :
      (volume_name source_device_path : String) (reader : Option ℕ) (tries : ℕ)
      (reason : RecoveryKeyUsageReason) (options : List String) (prefix : String) (key : List ℕ)
      (s s1 s2 : p.State)
      → length key ≡ 16
      → AllBytes key
      → get_password p source_device_path "recovery key" reader s
        ≡ (ok (recovery_key_string key), s1)
      → p.activate volume_name source_device_path key options s1 ≡ (ok tt, s2)
      → activate_with_recovery_key p volume_name source_device_path reader
          (suc tries)
          reason
          options
          prefix
          s
        ≡ (
          ok tt,
          p.add_key
              (type_recovery (keyring_prefix_or_default prefix) source_device_path reason)
              key
              s2,
        )
  unfolding activate_with_recovery_key recovery_tries next_try
  activate_with_recovery_key-accepts volume_name source_device_path reader tries reason options
        prefix key s s1 s2 sized bytes typed accepted =
      rw (suc-nonzero tries) (
        bind-ok
          (or_wrap (get_password p source_device_path "recovery key" reader)
            "cannot obtain recovery key")
          _ s
          (or_wrap-ok (get_password p source_device_path "recovery key" reader)
            "cannot obtain recovery key" s typed)
        ∙ rw (parse_recovery_key-recovery_key_string key sized bytes) (
            bind-ok
              (recovery_try p volume_name source_device_path options
                (type_recovery (keyring_prefix_or_default prefix) source_device_path reason)
                (ok key))
              _ s1
              (recovery_try-accepts volume_name source_device_path options _ key s1 s2 accepted)))
