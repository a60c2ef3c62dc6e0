-- ===== src/Activation/Tests.antt =====
-- A machine with one volume, a TPM that wants a PIN and a user who answers from a list.
use secboot.Prelude.{
  ℕ, List, [], ◌∷◌, ◌++◌, Bool, true, false, ◌≡◌, refl, none, if◌then◌else◌, bytes_equal, arith,
}
use secboot.Exec.{Exec, Result, ok, err, external, wrap, exec_error, err_pin_fail}
use secboot.Exec.Posts.{good_end, Post}
use secboot.RecoveryKey.{recovery_key_string}
use secboot.Activation.{
  auth_mode_pin, SealedKeyObject, at_end, Platform, get_password, requested, make_activate_options,
  systemd_cryptsetup_path, pos,
}
use secboot.Activation.Recovery.{activate_with_recovery_key}
use secboot.Activation.TpmKey.{activate_with_tpm_key}
use secboot.Activation.Volume.{
  ActivateVolumeOptions, activate_volume_with_tpm_sealed_key, success_flag,
}
use secboot.Activation.Active.{Tracks}
use secboot.Activation.Outcome.{activate_volume_with_tpm_sealed_key-success_flag}
use secboot.Activation.Tries.{activate_with_tpm_key-asks_again}
use secboot.Activation.Options.{has_tries_option, tries_refused, make_activate_options_lem}
use secboot.Activation.Accepts.{activate_with_recovery_key-accepts}

record Machine : Type 0 where
  pub is_active : Bool
  pub answers : List (List ℕ)
  pub keyring : List (List ℕ)

abbrev volume_key : List ℕ
volume_key = 1 ∷ 2 ∷ 3 ∷ 4 ∷ 5 ∷ 6 ∷ 7 ∷ 8 ∷ 9 ∷ 10 ∷ 11 ∷ 12 ∷ 13 ∷ 14 ∷ 15 ∷ 255 ∷ []

abbrev opened : Machine → Machine
opened m = record { is_active = true; answers = m.answers; keyring = m.keyring }

abbrev attach : Bool → Exec Machine Unit
attach true m = (ok tt, opened m)
attach false m = (err (exec_error systemd_cryptsetup_path (external 1)), m)

abbrev answer : List (List ℕ) → Machine → Result (List ℕ) × Machine
answer [] m = (err (external 2), m)
answer (a ∷ more) m =
    (ok a, record { is_active = m.is_active; answers = more; keyring = m.keyring })

abbrev unseal : Bool → Result (List ℕ × List ℕ)
unseal true = ok (volume_key, 7 ∷ [])
unseal false = err err_pin_fail

abbrev key_object : SealedKeyObject
key_object = record { auth_mode_2f = auth_mode_pin; key_data = 5 }

abbrev machine : Platform
machine = record {
  State = Machine;
  scan = λ reader m. (ok at_end, m);
  ask_password = λ path description m. answer m.answers m;
  activate = λ volume path key options m. attach (bytes_equal key volume_key) m;
  add_key = λ description key m. record {
    is_active = m.is_active;
    answers = m.answers;
    keyring = key ∷ m.keyring;
  };
  is_exit_error = λ n. true;
  read_sealed_key_object = λ path m. (ok key_object, m);
  unseal_from_tpm = λ k pin m. (unseal (bytes_equal pin (49 ∷ [])), m);
  ensure_provisioned = λ m. (ok tt, m);
}

attach-Post :
    (b : Bool) (m : Machine)
    → m.is_active ≡ false
    → Post (λ (s : Machine). s.is_active) (λ _. true) (attach b m)
unfolding good_end
attach-Post true m clear = refl
attach-Post false m clear = clear

answer_keeps : (a : List (List ℕ)) (m : Machine) → (answer a m).1.is_active ≡ m.is_active
answer_keeps [] m = refl
answer_keeps (a ∷ more) m = refl

machine-Tracks : Tracks machine (λ m. m.is_active)
machine-Tracks = record {
  activate_reports =
      λ volume path key options m clear. attach-Post (bytes_equal key volume_key) m clear;
  scan_keeps = λ reader m. refl;
  ask_password_keeps = λ path description m. answer_keeps m.answers m;
  add_key_keeps = λ description key m. refl;
  read_keeps = λ path m. refl;
  unseal_keeps = λ k pin m. refl;
  provision_keeps = λ m. refl;
}

abbrev user : List (List ℕ) → Machine
user a = record { is_active = false; answers = a; keyring = [] }

abbrev options : ActivateVolumeOptions
options = record {
  passphrase_tries = pos 2;
  recovery_key_tries = pos 1;
  activate_options = [];
  keyring_prefix = "";
}

activate_volume_with_tpm_sealed_key-success_flag_example :
    (activate_volume_with_tpm_sealed_key machine "data" "/dev/sda1" "keyfile" none options
      (user ((50 ∷ []) ∷ (49 ∷ []) ∷ []))).1.is_active
    ≡ good_end success_flag
        (activate_volume_with_tpm_sealed_key machine "data" "/dev/sda1" "keyfile" none options
          (user ((50 ∷ []) ∷ (49 ∷ []) ∷ []))).0
activate_volume_with_tpm_sealed_key-success_flag_example =
    activate_volume_with_tpm_sealed_key-success_flag machine (λ m. m.is_active) machine-Tracks
      "data" "/dev/sda1" "keyfile" none options (user ((50 ∷ []) ∷ (49 ∷ []) ∷ [])) refl

abbrev typed_right_then_wrong : Machine
typed_right_then_wrong = user ((49 ∷ []) ∷ (50 ∷ []) ∷ [])

activate_with_tpm_key-asks_again_example :
    activate_with_tpm_key machine "data" "/dev/sda1" "keyfile" none 2 [] "" typed_right_then_wrong
    ≡ (err (wrap "cannot unseal key" err_pin_fail), user [])
unfolding get_password bytes_equal
activate_with_tpm_key-asks_again_example =
    activate_with_tpm_key-asks_again machine "/dev/sda1" 5 "data" "keyfile" none [] "" (49 ∷ [])
      (50 ∷ []) (volume_key, 7 ∷ []) typed_right_then_wrong typed_right_then_wrong
      (user ((50 ∷ []) ∷ [])) (user ((50 ∷ []) ∷ [])) (user []) (user []) refl refl refl refl refl

activate_with_recovery_key-accepts_example :
    activate_with_recovery_key machine "data" "/dev/sda1" none 3 requested [] ""
      (user (recovery_key_string volume_key ∷ []))
    ≡ (ok tt, record { is_active = true; answers = []; keyring = volume_key ∷ [] })
unfolding get_password bytes_equal
activate_with_recovery_key-accepts_example =
    activate_with_recovery_key-accepts machine "data" "/dev/sda1" none 2 requested [] "" volume_key
      (user (recovery_key_string volume_key ∷ [])) (user []) (opened (user [])) refl (omega arith)
      refl refl

make_activate_options_lem_example : make_activate_options ("discard" ∷ "tries=3" ∷ []) ≡ (
    if has_tries_option ("discard" ∷ "tries=3" ∷ [])
    then tries_refused
    else ok (("discard" ∷ "tries=3" ∷ []) ++ "tries=1" ∷ []))
make_activate_options_lem_example = make_activate_options_lem ("discard" ∷ "tries=3" ∷ [])

tries_option_refused : make_activate_options ("discard" ∷ "tries=3" ∷ []) ≡ tries_refused
unfolding make_activate_options
tries_option_refused = refl
