-- ===== src/Activation/Outcome.antt =====
-- What `ActivateVolumeWithTPMSealedKey` says of the volume, and what became of it.
use secboot.Prelude.{ℕ, String, List, Bool, true, false, ◌≡◌, Option, none}
use secboot.Exec.{Error, Exec, Result, ok, err, panic, out_of_fuel, attempt}
use secboot.Exec.Posts.{good_end, Post, Post-bind, Post-attempt}
use secboot.Activation.{Platform, reason_for, make_activate_options, ℤ, pos, negsuc}
use secboot.Activation.TpmKey.{activate_with_tpm_key}
use secboot.Activation.Volume.{
  ActivateVolumeOptions, success_flag, fall_back, after_tpm_key, activate_checked, activate_sealed,
  activate_volume_with_tpm_sealed_key,
}
use secboot.Activation.Active.{Tracks, activate_with_recovery_key-Post}
use secboot.Activation.Attached.{activate_with_tpm_key-Post}

module _ (p : Platform) (active : p.State → Bool) (t : Tracks p active) where
  fall_back-Post :
      (e : Error) (r : Result Unit) (s : p.State)
      → active s ≡ good_end (λ _. true) r
      → Post active success_flag (fall_back p e r s)
  unfolding fall_back good_end success_flag
  fall_back-Post e (ok _) s h = h
  fall_back-Post e (err r) s h = h
  fall_back-Post e panic s h = h
  fall_back-Post e out_of_fuel s h = h

  after_tpm_key-Post :
      (recover : Error → Exec p.State Unit) (r : Result Unit) (s : p.State)
      → ((e : Error) (s' : p.State) → active s' ≡ false → Post active (λ _. true) (recover e s'))
      → active s ≡ good_end (λ _. true) r
      → Post active success_flag (after_tpm_key p recover r s)
  unfolding after_tpm_key good_end success_flag
  after_tpm_key-Post recover (ok _) s k h = h
  after_tpm_key-Post recover (err e) s k h =
      Post-bind active (good_end (λ _. true)) success_flag (attempt (recover e)) _ s
        (Post-attempt active (λ _. true) (recover e) s (k e s h))
        λ r s' h'. fall_back-Post e r s' h'
  after_tpm_key-Post recover panic s k h = h
  after_tpm_key-Post recover out_of_fuel s k h = h

  activate_checked-Post :
      (volume_name source_device_path key_path : String) (reader : Option ℕ) (tries recovery : ℕ)
      (prefix : String) (options : Result (List String)) (s : p.State)
      → active s ≡ false
      → Post active success_flag (
          activate_checked p volume_name source_device_path key_path reader tries recovery prefix
            options s)
  unfolding activate_checked good_end success_flag
  activate_checked-Post volume_name source_device_path key_path reader tries recovery prefix
        (ok options) s clear =
      Post-bind active (good_end (λ _. true)) success_flag
        (attempt (
          activate_with_tpm_key p volume_name source_device_path key_path reader tries options
            prefix))
        _ s
        (Post-attempt active (λ _. true)
          (activate_with_tpm_key p volume_name source_device_path key_path reader tries options
            prefix)
          s
          (activate_with_tpm_key-Post p active t volume_name source_device_path key_path reader
            tries options prefix s clear))
        λ r s' h.
          after_tpm_key-Post _ r s'
            (λ e s2 clear2.
              activate_with_recovery_key-Post p active t volume_name source_device_path none
                recovery (reason_for e) options prefix s2 clear2)
            h
  activate_checked-Post volume_name source_device_path key_path reader tries recovery prefix (err e)
        s clear =
      clear
  activate_checked-Post volume_name source_device_path key_path reader tries recovery prefix panic s
        clear =
      clear
  activate_checked-Post volume_name source_device_path key_path reader tries recovery prefix
        out_of_fuel s clear =
      clear

  activate_sealed-Post :
      (volume_name source_device_path key_path : String) (reader : Option ℕ)
      (o : ActivateVolumeOptions) (tries recovery : ℤ) (s : p.State)
      → active s ≡ false
      → Post active success_flag
          (activate_sealed p volume_name source_device_path key_path reader o tries recovery s)
  unfolding activate_sealed good_end success_flag
  activate_sealed-Post volume_name source_device_path key_path reader o (negsuc n) recovery s
        clear =
      clear
  activate_sealed-Post volume_name source_device_path key_path reader o (pos n) (negsuc m) s clear =
      clear
  activate_sealed-Post volume_name source_device_path key_path reader o (pos n) (pos m) s clear =
      activate_checked-Post volume_name source_device_path key_path reader n m o.keyring_prefix
        (make_activate_options o.activate_options) s clear

  -- Of a volume that was not active: the flag that `ActivateVolumeWithTPMSealedKey` returns is true
  -- exactly when the volume is active afterwards, whatever the terminal, the TPM and
  -- systemd-cryptsetup did, if only `activate` changes that and its error says whether it did.
  pub activate_volume_with_tpm_sealed_key-success_flag :
      (volume_name source_device_path key_path : String) (reader : Option ℕ)
      (o : ActivateVolumeOptions) (s : p.State)
      → active s ≡ false
      → active
          (activate_volume_with_tpm_sealed_key p volume_name source_device_path key_path reader o
            s).1
        ≡ good_end success_flag
            (activate_volume_with_tpm_sealed_key p volume_name source_device_path key_path reader o
              s).0
  unfolding activate_volume_with_tpm_sealed_key
  activate_volume_with_tpm_sealed_key-success_flag volume_name source_device_path key_path reader o
        s clear =
      activate_sealed-Post volume_name source_device_path key_path reader o o.passphrase_tries
        o.recovery_key_tries s clear
