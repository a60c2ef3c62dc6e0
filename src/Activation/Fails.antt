-- ===== src/Activation/Fails.antt =====
-- What `activateWithTPMKey` makes of a failure to unseal at its only try.
use secboot.Prelude.{
  ℕ, String, List, [], Bool, true, false, ◌≡◌, refl, ap, ◌∙◌, Option, if◌then◌else◌,
}
use secboot.Exec.{Error, Exec, Result, ok, err, wrap, attempt, or_wrap, lift}
use secboot.Exec.Steps.{bind-ok, or_wrap-ok, attempt-err}
use secboot.Activation.{
  AuthMode, auth_mode_none, auth_mode_pin, SealedKeyObject, Platform, is_tpm_provisioning,
}
use secboot.Activation.TpmKey.{
  ends_tries, is_provisioning_failure, unseal_key_from_tpm, get_pin, unseal_tries, tries_allowed,
  activate_with_tpm_key,
}

one_try : (mode : AuthMode) → tries_allowed mode 1 ≡ ok 1
unfolding tries_allowed
one_try auth_mode_none = refl
one_try auth_mode_pin = refl

module _ (p : Platform) (k : SealedKeyObject) (pin : List ℕ) where
  unseal_key_from_tpm-err :
      (s s' : p.State) (e : Error)
      → p.unseal_from_tpm k pin s ≡ (err e, s')
      → is_tpm_provisioning e ≡ false
      → unseal_key_from_tpm p k pin s ≡ (err e, s')
  unfolding unseal_key_from_tpm is_provisioning_failure
  unseal_key_from_tpm-err s s' e h other =
      bind-ok (attempt (p.unseal_from_tpm k pin)) _ s (attempt-err (p.unseal_from_tpm k pin) s h)
      ∙ rw other refl

  unseal_tries-err :
      (path : String) (reader : Option ℕ) (last : Result (List ℕ × List ℕ)) (s s1 s2 : p.State)
      (e : Error)
      → get_pin p k.auth_mode_2f path reader s ≡ (ok pin, s1)
      → p.unseal_from_tpm k pin s1 ≡ (err e, s2)
      → is_tpm_provisioning e ≡ false
      → unseal_tries p path k reader 1 last s ≡ (ok (err e), s2)
  unfolding unseal_tries
  unseal_tries-err path reader last s s1 s2 e typed failed other =
      bind-ok (get_pin p k.auth_mode_2f path reader) _ s typed
      ∙ bind-ok (attempt (unseal_key_from_tpm p k pin)) _ s1 (
          attempt-err (unseal_key_from_tpm p k pin) s1
            (unseal_key_from_tpm-err s1 s2 e failed other))
      ∙ either (ends_tries k.auth_mode_2f (err e))
    where
      done : Exec p.State (Result (List ℕ × List ℕ))
      done q = (ok (err e), q)

      either : (b : Bool) → (if b then done else done) s2 ≡ (ok (err e), s2)
      either true = refl
      either false = refl

  pub activate_with_tpm_key-unseal_fails :
      (volume path key_path prefix : String) (reader : Option ℕ) (options : List String)
      (s s1 s2 s3 : p.State) (e : Error)
      → p.read_sealed_key_object key_path s ≡ (ok k, s1)
      → get_pin p k.auth_mode_2f path reader s1 ≡ (ok pin, s2)
      → p.unseal_from_tpm k pin s2 ≡ (err e, s3)
      → is_tpm_provisioning e ≡ false
      → (activate_with_tpm_key p volume path key_path reader 1 options prefix s).0
        ≡ err (wrap "cannot unseal key" e)
  unfolding activate_with_tpm_key
  activate_with_tpm_key-unseal_fails volume path key_path prefix reader options s s1 s2 s3 e read
        typed failed other =
      ap (λ (o : Result (Unit {0}) × p.State). o.0)
        (bind-ok (or_wrap (p.read_sealed_key_object key_path) "cannot read sealed key object") _ s
            (or_wrap-ok (p.read_sealed_key_object key_path) "cannot read sealed key object" s read)
          ∙ bind-ok (lift (tries_allowed k.auth_mode_2f 1)) _ s1
              (ap (λ r. (r, s1)) (one_try k.auth_mode_2f))
          ∙ bind-ok (unseal_tries p path k reader 1 (ok ([], []))) _ s1
              (unseal_tries-err path reader (ok ([], [])) s1 s2 s3 e typed failed other))
