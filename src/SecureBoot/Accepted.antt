-- ===== src/SecureBoot/Accepted.antt =====
-- What the checks of `AddEFISecureBootPolicyProfile` say of a log that they accept.
use secboot.Prelude.{
  ℕ, ◌≡◌, ◌≢◌, refl, List, [], ◌∷◌, ◌++◌, Bool, true, false, bytes_equal_iff, ltb, ◌==◌,
  if◌then◌else◌, arith,
}
use secboot.Exec.{Error, ok, err, bind_result}
use secboot.Exec.Results.{bind_result_ok, not_ok}
use secboot.SecureBoot.{EfiGuids, secure_boot_pcr}
use secboot.SecureBoot.Events.{
  efi_variable_driver_config, efi_variable_authority, efi_variable_data, Event, is_driver_config,
  is_authority,
}
use secboot.SecureBoot.Log.{
  first_is_zero, check_driver_config, check_authority, check_event, check_events,
}

-- That a byte list starts with a byte other than zero.
abbrev pub StartsNonzero : List ℕ → Type 0
StartsNonzero bytes = (b : ℕ) × (rest : List ℕ) × (bytes ≡ b ∷ rest) × (b ≢ 0)

module _ (g : EfiGuids) where
  check_events-append :
      (before : List Event) (e : Event) (after : List Event)
      → check_events g (before ++ e ∷ after) ≡ ok tt
      → check_event g e ≡ ok tt
  unfolding check_events
  check_events-append [] e after h = let (u, e1, e2) = bind_result_ok (check_event g e) _ h in e1
  check_events-append (d ∷ before) e after h =
      let (u, e1, e2) = bind_result_ok (check_event g d) _ h in
      check_events-append before e after e2

  enabled :
      (index : ℕ) (contents : List ℕ)
      → check_driver_config g index
          (efi_variable_data g.efi_global_variable_guid "SecureBoot" contents)
        ≡ ok tt
      → (index ≡ 0) × StartsNonzero contents
  unfolding check_driver_config first_is_zero
  enabled index contents h =
      go _ _ (ltb 0 index) refl contents
        (rw ((bytes_equal_iff g.efi_global_variable_guid g.efi_global_variable_guid).1 refl) at h)
    where
      zero_of : ltb 0 index ≡ false → index ≡ 0
      zero_of e = ground arith

      not_zero : (x : Error) (b : ℕ) → (if b == 0 then err x else ok (tt {0})) ≡ ok tt → b ≢ 0
      not_zero x b k = ground arith

      first :
          (x : Error) (c : List ℕ)
          → bind_result (first_is_zero c) (λ disabled. if disabled then err x else ok (tt {0}))
            ≡ ok tt
          → StartsNonzero c
      first x [] k = cc
      first x (b ∷ rest) k = (b, rest, refl, λ e. not_zero x b k e)

      go :
          (x y : Error) (late : Bool)
          → ltb 0 index ≡ late
          → (c : List ℕ)
          → (if late
              then err x
              else (bind_result
                  (first_is_zero c)
                  (λ disabled. if disabled then err y else ok (tt {0}))))
            ≡ ok tt
          → (index ≡ 0) × StartsNonzero c
      go x y true e c k = not_ok k
      go x y false e c k = (zero_of e, first y c k)

  -- If the checks accept a log: a measurement of the variable SecureBoot in it has the event index
  -- zero, and its value is not empty and does not start with a zero byte.
  pub check_events-enabled :
      (before after : List Event) (address index : ℕ) (digests : _) (contents : List ℕ)
      → check_events g (
          before
          ++ record {
            address = address;
            index = index;
            pcr_index = secure_boot_pcr;
            event_type = efi_variable_driver_config;
            digests = digests;
            event_data = efi_variable_data g.efi_global_variable_guid "SecureBoot" contents;
          }
            ∷ after)
        ≡ ok tt
      → (index ≡ 0) × StartsNonzero contents
  unfolding check_event is_driver_config
  check_events-enabled before after address index digests contents h =
      enabled index contents (check_events-append before _ after h)

  -- A log in which the authority variable MokSBState is measured by shim, which says that shim does
  -- not validate images, is not accepted.
  pub check_events-validated :
      (before after : List Event) (address index : ℕ) (digests : _) (contents : List ℕ)
      → check_events g (
          before
          ++ record {
            address = address;
            index = index;
            pcr_index = secure_boot_pcr;
            event_type = efi_variable_authority;
            digests = digests;
            event_data = efi_variable_data g.shim_guid "MokSBState" contents;
          }
            ∷ after)
        ≢ ok tt
  unfolding check_event is_driver_config is_authority check_authority
  check_events-validated before after address index digests contents h =
      let k = check_events-append before _ after h in
      not_ok (rw ((bytes_equal_iff g.shim_guid g.shim_guid).1 refl) at k)
