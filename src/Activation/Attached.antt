-- ===== src/Activation/Attached.antt =====
-- Activation with the key that the TPM unseals leaves the volume active exactly when it succeeds.
use secboot.Prelude.{
  ℕ, zero, suc, String, List, [], Bool, true, false, ◌≡◌, sym, ◌∙◌, Option, if◌then◌else◌,
  Bool-cases, inl, inr,
}
use secboot.Exec.{Exec, Result, ok, wrap, map_error, attempt, or_wrap, ◌>>=◌, ◌>>◌, lift}
use secboot.Exec.Posts.{good_end, good_end-false, Post, Post-bind, Post-or_else, Post-quiet}
use secboot.Activation.{
  AuthMode, auth_mode_none, auth_mode_pin, SealedKeyObject, type_tpm, Platform, get_password,
  keyring_prefix_or_default,
}
use secboot.Activation.TpmKey.{
  ends_tries, add_tpm_key, provisioned, is_provisioning_failure, unseal_key_from_tpm, get_pin,
  next_reader, unseal_tries, tries_allowed, activate_with_tpm_key,
}
use secboot.Activation.Active.{Tracks, get_password-Post}

module _ (p : Platform) (active : p.State → Bool) (t : Tracks p active) where
  lift-Post :
      {A : Type 0} (r : Result A) (s : p.State)
      → active s ≡ false
      → Post active (λ _. false) (lift {S = p.State} r s)
  lift-Post r s clear = clear ∙ sym (good_end-false r)

  attempt-Post :
      {A : Type 0} (m : Exec p.State A) (s : p.State)
      → Post active (λ _. false) (m s)
      → Post active (λ _. false) (attempt m s)
  attempt-Post m s h = h ∙ good_end-false (m s).0 ∙ sym (good_end-false (attempt m s).0)

  unseal-Post :
      (k : SealedKeyObject) (pin : List ℕ) (s : p.State)
      → active s ≡ false
      → Post active (λ _. false) (p.unseal_from_tpm k pin s)
  unseal-Post k pin s clear =
      Post-quiet active (p.unseal_from_tpm k pin) s (t.unseal_keeps k pin s) clear

  unseal_key_from_tpm-Post :
      (k : SealedKeyObject) (pin : List ℕ) (s : p.State)
      → active s ≡ false
      → Post active (λ _. false) (unseal_key_from_tpm p k pin s)
  unfolding unseal_key_from_tpm
  unseal_key_from_tpm-Post k pin s clear =
      Post-bind active (λ _. false) (λ _. false) (attempt (p.unseal_from_tpm k pin)) _ s
        (attempt-Post (p.unseal_from_tpm k pin) s (unseal-Post k pin s clear))
        λ first s1 clear1. elim (Bool-cases (is_provisioning_failure first)) [
          | inl e1 ↦ rw e1 (retry first s1 clear1)
          | inr e1 ↦ rw e1 (lift-Post first s1 clear1)
        ]
    where
      retry :
          (first : Result (List ℕ × List ℕ)) (s1 : p.State)
          → active s1 ≡ false
          → Post active
              (λ _. false)
              ((attempt p.ensure_provisioned >>= λ p_err.
                  if provisioned p_err then p.unseal_from_tpm k pin else lift first)
                s1)
      retry first s1 clear1 =
          Post-bind active (λ _. false) (λ _. false) (attempt p.ensure_provisioned) _ s1
            (attempt-Post p.ensure_provisioned s1
              (Post-quiet active p.ensure_provisioned s1 (t.provision_keeps s1) clear1))
            λ p_err s2 clear2. elim (Bool-cases (provisioned p_err)) [
              | inl e2 ↦ rw e2 (unseal-Post k pin s2 clear2)
              | inr e2 ↦ rw e2 (lift-Post first s2 clear2)
            ]

  get_pin-Post :
      (mode : AuthMode) (source_device_path : String) (reader : Option ℕ) (s : p.State)
      → active s ≡ false
      → Post active (λ _. false) (get_pin p mode source_device_path reader s)
  unfolding get_pin good_end
  get_pin-Post auth_mode_none source_device_path reader s clear = clear
  get_pin-Post auth_mode_pin source_device_path reader s clear =
      Post-or_else active (λ _. false) (get_password p source_device_path "PIN" reader) _ s
        (get_password-Post p active t source_device_path "PIN" reader s clear)

  unseal_tries-Post :
      (source_device_path : String) (k : SealedKeyObject) (reader : Option ℕ) (tries : ℕ)
      (last : Result (List ℕ × List ℕ)) (s : p.State)
      → active s ≡ false
      → Post active (λ _. false) (unseal_tries p source_device_path k reader tries last s)
  unfolding unseal_tries good_end
  unseal_tries-Post source_device_path k reader zero last s clear = clear
  unseal_tries-Post source_device_path k reader (suc tries) last s clear =
      Post-bind active (λ _. false) (λ _. false)
        (get_pin p k.auth_mode_2f source_device_path reader) _ s
        (get_pin-Post k.auth_mode_2f source_device_path reader s clear)
        λ pin s1 clear1.
          Post-bind active (λ _. false) (λ _. false) (attempt (unseal_key_from_tpm p k pin)) _ s1
            (attempt-Post (unseal_key_from_tpm p k pin) s1
              (unseal_key_from_tpm-Post k pin s1 clear1))
            λ o s2 clear2. elim (Bool-cases (ends_tries k.auth_mode_2f o)) [
              | inl e1 ↦ rw e1 clear2
              | inr e1 ↦ rw e1 (
                  unseal_tries-Post source_device_path k (next_reader k.auth_mode_2f reader) tries o
                    s2 clear2)
            ]

  attach-Post :
      (volume_name source_device_path : String) (options : List String) (prefix : String)
      (keys : List ℕ × List ℕ) (s4 : p.State)
      → active s4 ≡ false
      → Post active
          (λ _. true)
          ((or_wrap
                (p.activate volume_name source_device_path keys.0 options)
                "cannot activate volume"
              >> add_tpm_key p
                  (type_tpm (keyring_prefix_or_default prefix) source_device_path)
                  keys.1)
            s4)
  unfolding add_tpm_key good_end
  attach-Post volume_name source_device_path options prefix keys s4 clear4 =
      Post-bind active (λ _. true) (λ _. true)
        (or_wrap (p.activate volume_name source_device_path keys.0 options)
          "cannot activate volume")
        _ s4
        (Post-or_else active (λ _. true) (p.activate volume_name source_device_path keys.0 options)
          _ s4 (t.activate_reports volume_name source_device_path keys.0 options s4 clear4))
        λ _ s5 h. t.add_key_keeps _ keys.1 s5 ∙ h

  pub activate_with_tpm_key-Post :
      (volume_name source_device_path key_path : String) (reader : Option ℕ) (tries : ℕ)
      (options : List String) (prefix : String) (s : p.State)
      → active s ≡ false
      → Post active
          (λ _. true)
          (activate_with_tpm_key p volume_name source_device_path key_path reader tries options
            prefix s)
  unfolding activate_with_tpm_key
  activate_with_tpm_key-Post volume_name source_device_path key_path reader tries options prefix s
        clear =
      Post-bind active (λ _. false) (λ _. true)
        (or_wrap (p.read_sealed_key_object key_path) "cannot read sealed key object") _ s
        (Post-or_else active (λ _. false) (p.read_sealed_key_object key_path) _ s
          (Post-quiet active (p.read_sealed_key_object key_path) s (t.read_keeps key_path s) clear))
        λ k s1 clear1.
          Post-bind active (λ _. false) (λ _. true) (lift (tries_allowed k.auth_mode_2f tries)) _ s1
            (lift-Post (tries_allowed k.auth_mode_2f tries) s1 clear1)
            λ allowed s2 clear2.
              Post-bind active (λ _. false) (λ _. true)
                (unseal_tries p source_device_path k reader allowed (ok ([], []))) _ s2
                (unseal_tries-Post source_device_path k reader allowed _ s2 clear2)
                λ o s3 clear3.
                  Post-bind active (λ _. false) (λ _. true)
                    (lift (map_error (wrap "cannot unseal key") o)) _ s3
                    (lift-Post (map_error (wrap "cannot unseal key") o) s3 clear3)
                    λ keys s4 clear4.
                      attach-Post volume_name source_device_path options prefix keys s4 clear4
