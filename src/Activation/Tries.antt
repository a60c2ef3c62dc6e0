-- ===== src/Activation/Tries.antt =====
-- What the loop of `activateWithTPMKey` does after a PIN that the TPM accepts.
use secboot.Prelude.{ℕ, suc, String, List, [], false, ◌≡◌, refl, ◌∙◌, Option, none}
use secboot.Exec.{Result, ok, err, wrap, err_pin_fail, attempt, or_wrap}
use secboot.Exec.Steps.{bind-ok, or_wrap-ok, attempt-ok, attempt-err}
use secboot.Activation.{auth_mode_pin, SealedKeyObject, Platform, get_password}
use secboot.Activation.TpmKey.{
  ends_tries, is_provisioning_failure, unseal_key_from_tpm, get_pin, next_reader, unseal_tries,
  tries_allowed, activate_with_tpm_key,
}

module _ (p : Platform) where
  unseal_key_from_tpm-ok :
      (k : SealedKeyObject) (pin : List ℕ) (s : p.State) {keys : List ℕ × List ℕ} {s' : p.State}
      → p.unseal_from_tpm k pin s ≡ (ok keys, s')
      → unseal_key_from_tpm p k pin s ≡ (ok keys, s')
  unfolding unseal_key_from_tpm is_provisioning_failure
  unseal_key_from_tpm-ok k pin s e =
      bind-ok (attempt (p.unseal_from_tpm k pin)) _ s (attempt-ok (p.unseal_from_tpm k pin) s e)

  unseal_key_from_tpm-pin_fail :
      (k : SealedKeyObject) (pin : List ℕ) (s : p.State) {s' : p.State}
      → p.unseal_from_tpm k pin s ≡ (err err_pin_fail, s')
      → unseal_key_from_tpm p k pin s ≡ (err err_pin_fail, s')
  unfolding unseal_key_from_tpm is_provisioning_failure
  unseal_key_from_tpm-pin_fail k pin s e =
      bind-ok (attempt (p.unseal_from_tpm k pin)) _ s (attempt-err (p.unseal_from_tpm k pin) s e)

  module _ (source_device_path : String) (key_data : ℕ) where
    abbrev with_pin : SealedKeyObject
    with_pin = record { auth_mode_2f = auth_mode_pin; key_data = key_data }

    -- The loop goes on after a PIN that was accepted, as after one that was not.
    unseal_tries-go_on :
        (reader : Option ℕ) (tries : ℕ) (last outcome : Result (List ℕ × List ℕ)) (pin : List ℕ)
        (s s1 s2 : p.State)
        → get_password p source_device_path "PIN" reader s ≡ (ok pin, s1)
        → attempt (unseal_key_from_tpm p with_pin pin) s1 ≡ (ok outcome, s2)
        → ends_tries auth_mode_pin outcome ≡ false
        → unseal_tries p source_device_path with_pin reader (suc tries) last s
          ≡ unseal_tries p source_device_path with_pin none tries outcome s2
    unfolding unseal_tries get_pin next_reader
    unseal_tries-go_on reader tries last outcome pin s s1 s2 typed unsealed on =
        bind-ok (or_wrap (get_password p source_device_path "PIN" reader) "cannot obtain PIN") _ s
          (or_wrap-ok (get_password p source_device_path "PIN" reader) "cannot obtain PIN" s typed)
        ∙ bind-ok (attempt (unseal_key_from_tpm p with_pin pin)) _ s1 unsealed
        ∙ rw on refl

    -- Two tries, where the second decides.
    both :
        (pin pin' : List ℕ) (keys : List ℕ × List ℕ) (reader : Option ℕ) (s0 s1 s2 s3 s4 : p.State)
        → get_password p source_device_path "PIN" reader s0 ≡ (ok pin, s1)
        → p.unseal_from_tpm with_pin pin s1 ≡ (ok keys, s2)
        → p.ask_password source_device_path "PIN" s2 ≡ (ok pin', s3)
        → p.unseal_from_tpm with_pin pin' s3 ≡ (err err_pin_fail, s4)
        → unseal_tries p source_device_path with_pin reader 2 (ok ([], [])) s0
          ≡ (ok (err err_pin_fail), s4)
    unfolding unseal_tries get_password ends_tries
    both pin pin' keys reader s0 s1 s2 s3 s4 typed unsealed typed' failed =
        unseal_tries-go_on reader 1 (ok ([], [])) (ok keys) pin s0 s1 s2 typed
          (attempt-ok (unseal_key_from_tpm p with_pin pin) s1
            (unseal_key_from_tpm-ok with_pin pin s1 unsealed))
          refl
        ∙ unseal_tries-go_on none 0 (ok keys) (err err_pin_fail) pin' s2 s3 s4 typed'
            (attempt-err (unseal_key_from_tpm p with_pin pin') s3
              (unseal_key_from_tpm-pin_fail with_pin pin' s3 failed))
            refl

    -- A PIN that the TPM accepts, when two tries are allowed, is asked for again; when the second one
    -- is wrong, `activateWithTPMKey` fails and `activate` is not called, although the key was unsealed.
    pub activate_with_tpm_key-asks_again :
        (volume_name key_path : String) (reader : Option ℕ) (options : List String)
        (prefix : String) (pin pin' : List ℕ) (keys : List ℕ × List ℕ) (s s0 s1 s2 s3 s4 : p.State)
        → p.read_sealed_key_object key_path s ≡ (ok with_pin, s0)
        → get_password p source_device_path "PIN" reader s0 ≡ (ok pin, s1)
        → p.unseal_from_tpm with_pin pin s1 ≡ (ok keys, s2)
        → p.ask_password source_device_path "PIN" s2 ≡ (ok pin', s3)
        → p.unseal_from_tpm with_pin pin' s3 ≡ (err err_pin_fail, s4)
        → activate_with_tpm_key p volume_name source_device_path key_path reader 2 options prefix s
          ≡ (err (wrap "cannot unseal key" err_pin_fail), s4)
    unfolding activate_with_tpm_key tries_allowed
    activate_with_tpm_key-asks_again volume_name key_path reader options prefix pin pin' keys s s0
          s1 s2 s3 s4 file typed unsealed typed' failed =
        bind-ok (or_wrap (p.read_sealed_key_object key_path) "cannot read sealed key object") _ s
          (or_wrap-ok (p.read_sealed_key_object key_path) "cannot read sealed key object" s file)
        ∙ bind-ok (unseal_tries p source_device_path with_pin reader 2 (ok ([], []))) _ s0
            (both pin pin' keys reader s0 s1 s2 s3 s4 typed unsealed typed' failed)
