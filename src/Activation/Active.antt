-- ===== src/Activation/Active.antt =====
-- Whether a volume is active after an attempt to activate it.
use secboot.Prelude.{
  ℕ, zero, suc, String, List, Bool, true, false, ◌≡◌, refl, ◌∙◌, Option, none, some, ◌==◌,
  Bool-cases, inl, inr, arith,
}
use secboot.Exec.{
  Error, Exec, Result, ok, err, panic, out_of_fuel, wrap, in_chain, attempt, or_wrap,
}
use secboot.Exec.Posts.{good_end, Post, Post-bind, Post-attempt, Post-or_else, Post-quiet}
use secboot.RecoveryKey.{parse_recovery_key}
use secboot.Activation.{
  RecoveryKeyUsageReason, SealedKeyObject, KeyDescription, Scan, line, failed, at_end, Platform,
  get_password, after_scan,
}
use secboot.Activation.Recovery.{
  is_exit, succeed_with, after_activate, recovery_try, next_try, return_last, recovery_tries,
  activate_with_recovery_key,
}

unfoldable pub is_none : {A : Type 0} → Option A → Bool
is_none none = true
is_none (some a) = false

absurd_tries : {A : Type 0} → true ≡ false → A
absurd_tries e = cc

suc-nonzero : (n : ℕ) → (suc n == 0) ≡ false
suc-nonzero n = ground arith

-- `active` tells of a state whether the volume is active in it: only `activate` may change that,
-- and it reports what it did.
pub record Tracks (p : Platform) (active : p.State → Bool) : Type 0 where
  pub activate_reports :
      (volume_name source_device_path : String) (key : List ℕ) (options : List String) (s : p.State)
      → active s ≡ false
      → Post active (λ _. true) (p.activate volume_name source_device_path key options s)
  pub scan_keeps : (reader : ℕ) (s : p.State) → active (p.scan reader s).1 ≡ active s
  pub ask_password_keeps :
      (source_device_path description : String) (s : p.State)
      → active (p.ask_password source_device_path description s).1 ≡ active s
  pub add_key_keeps :
      (description : KeyDescription) (key : List ℕ) (s : p.State)
      → active (p.add_key description key s) ≡ active s
  pub read_keeps :
      (key_path : String) (s : p.State) → active (p.read_sealed_key_object key_path s).1 ≡ active s
  pub unseal_keeps :
      (k : SealedKeyObject) (pin : List ℕ) (s : p.State)
      → active (p.unseal_from_tpm k pin s).1 ≡ active s
  pub provision_keeps : (s : p.State) → active (p.ensure_provisioned s).1 ≡ active s

module _ (p : Platform) (active : p.State → Bool) (t : Tracks p active) where
  pub after_scan-Post :
      (source_device_path description : String) (o : Scan) (s : p.State)
      → active s ≡ false
      → Post active (λ _. false) (after_scan p source_device_path description o s)
  unfolding after_scan good_end
  after_scan-Post source_device_path description (line text) s clear = clear
  after_scan-Post source_device_path description (failed e) s clear = clear
  after_scan-Post source_device_path description at_end s clear =
      Post-quiet active (p.ask_password source_device_path description) s
        (t.ask_password_keeps source_device_path description s) clear

  pub get_password-Post :
      (source_device_path description : String) (reader : Option ℕ) (s : p.State)
      → active s ≡ false
      → Post active (λ _. false) (get_password p source_device_path description reader s)
  unfolding get_password
  get_password-Post source_device_path description none s clear =
      Post-quiet active (p.ask_password source_device_path description) s
        (t.ask_password_keeps source_device_path description s) clear
  get_password-Post source_device_path description (some reader) s clear =
      Post-bind active (λ _. false) (λ _. false) (p.scan reader) _ s
        (Post-quiet active (p.scan reader) s (t.scan_keeps reader s) clear)
        λ o s' h. after_scan-Post source_device_path description o s' h

  after_activate-Post :
      (description : KeyDescription) (key : List ℕ) (r : Result Unit) (s : p.State)
      → active s ≡ good_end (λ _. true) r
      → Post active is_none (after_activate p description key r s)
  unfolding after_activate good_end is_none succeed_with
  after_activate-Post description key (ok _) s h = t.add_key_keeps description key s ∙ h
  after_activate-Post description key (err e) s h =
      elim (Bool-cases (in_chain (is_exit p) (wrap "cannot activate volume" e))) [
        | inl e1 ↦ rw e1 h
        | inr e1 ↦ rw e1 h
      ]
  after_activate-Post description key panic s h = h
  after_activate-Post description key out_of_fuel s h = h

  module _ (volume_name source_device_path : String) (options : List String)
      (description : KeyDescription) where
    recovery_try-Post :
        (key : Result (List ℕ)) (s : p.State)
        → active s ≡ false
        → Post active is_none
            (recovery_try p volume_name source_device_path options description key s)
    unfolding recovery_try good_end is_none
    recovery_try-Post (ok key) s clear =
        Post-bind active (good_end (λ _. true)) is_none
          (attempt (p.activate volume_name source_device_path key options)) _ s
          (Post-attempt active (λ _. true) (p.activate volume_name source_device_path key options) s
            (t.activate_reports volume_name source_device_path key options s clear))
          λ r s' h. after_activate-Post description key r s' h
    recovery_try-Post (err e) s clear = clear
    recovery_try-Post panic s clear = clear
    recovery_try-Post out_of_fuel s clear = clear

    next_try-Post :
        (again : Option Error → Exec p.State Unit) (o : Option Error) (s : p.State)
        → ((e : Error) (s' : p.State)
            → active s' ≡ false
            → Post active (λ _. true) (again (some e) s'))
        → active s ≡ is_none o
        → Post active (λ _. true) (next_try p again o s)
    unfolding next_try good_end is_none
    next_try-Post again none s k h = h
    next_try-Post again (some e) s k h = k e s h

    recovery_tries-Post :
        (reader : Option ℕ) (tries : ℕ) (last : Option Error) (s : p.State)
        → (tries ≡ 0 → is_none last ≡ false)
        → active s ≡ false
        → Post active
            (λ _. true)
            (recovery_tries p volume_name source_device_path options description reader tries last
              s)
    unfolding recovery_tries good_end return_last is_none
    recovery_tries-Post reader zero none s ends clear = absurd_tries (ends refl)
    recovery_tries-Post reader zero (some e) s ends clear = clear
    recovery_tries-Post reader (suc tries) last s ends clear =
        Post-bind active (λ _. false) (λ _. true)
          (or_wrap (get_password p source_device_path "recovery key" reader)
            "cannot obtain recovery key")
          _ s
          (Post-or_else active (λ _. false)
            (get_password p source_device_path "recovery key" reader) _ s
            (get_password-Post source_device_path "recovery key" reader s clear))
          λ passphrase s1 clear1.
            Post-bind active is_none (λ _. true)
              (recovery_try p volume_name source_device_path options description
                (parse_recovery_key passphrase))
              _ s1 (recovery_try-Post (parse_recovery_key passphrase) s1 clear1)
              λ o s2 h2.
                next_try-Post _ o s2
                  (λ e s3 clear3. recovery_tries-Post none tries (some e) s3 (λ _. refl) clear3) h2

  pub activate_with_recovery_key-Post :
      (volume_name source_device_path : String) (reader : Option ℕ) (tries : ℕ)
      (reason : RecoveryKeyUsageReason) (options : List String) (prefix : String) (s : p.State)
      → active s ≡ false
      → Post active
          (λ _. true)
          (activate_with_recovery_key p volume_name source_device_path reader tries reason options
            prefix s)
  unfolding activate_with_recovery_key good_end
  activate_with_recovery_key-Post volume_name source_device_path reader zero reason options prefix s
        clear =
      clear
  activate_with_recovery_key-Post volume_name source_device_path reader (suc tries) reason options
        prefix s clear =
      rw (suc-nonzero tries) (
        recovery_tries-Post volume_name source_device_path options _ reader (suc tries) none s
          (λ e. absurd (omega arith)) clear)
