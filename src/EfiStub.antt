-- ===== src/EfiStub.antt =====
-- sdefistub_policy.go: the profile for the kernel command lines that the systemd EFI stub measures.
mod Tests
use secboot.Prelude.{
  ℕ, Bool, ◌≡◌, refl, sym, ap, ◌∙◌, List, [], ◌∷◌, ◌++◌, map, length, ℤ, pos, negsuc,
}
use secboot.Exec.{
  Exec, Error, Result, ok, err, panic, out_of_fuel, message, wrap, map_error, bind_result, raise,
  lift, pure, ◌>>=◌, ◌>>◌,
}
use secboot.Exec.Results.{bind_result_ok, ok_injective, traverse, traverse_ok}
use secboot.Tpm.{Alg, Digest, PcrFunctions}
use secboot.Profile.{
  PcrProtectionProfile, nil, cons, extend_pcr, Profiles, no_profiles, profile, PcrReader,
  with_extend_pcr, with_profile_or,
}
use secboot.Profile.Compute.{compute_pcr_values}
use secboot.Profile.Variants.{
  on_profile, extension, extension-fits, on_profile_ok, then_ok, variants, each_extended,
  compute-variants,
}

-- A command line is its bytes.
pub record SystemdEfiStubProfileParams : Type 0 where
  pub pcr_algorithm : Alg
  pub pcr_index : ℤ
  pub kernel_cmdlines : List (List ℕ)

-- The hashes, and the encoding of the event by the event log package.
pub record StubEvents : Type 0 where
  pub functions : PcrFunctions
  pub encode_measured_bytes : List ℕ → Result (List ℕ)

module _ (t : StubEvents) (alg : Alg) where
  unfoldable pub cmdline_digest : List ℕ → Result Digest
  cmdline_digest cmdline =
      bind_result
        (map_error (wrap "cannot encode kernel commandline event")
          (t.encode_measured_bytes cmdline))
        (λ bytes. ok (t.functions.hash alg bytes))

  -- The loop over the command lines.
  unfoldable pub cmdline_profiles : ℕ → List (List ℕ) → Result Profiles
  cmdline_profiles pcr [] = ok no_profiles
  cmdline_profiles pcr (cmdline ∷ cmdlines) = bind_result (cmdline_digest cmdline) (λ digest.
      bind_result (extension t.functions alg pcr digest)
        (λ p. bind_result (cmdline_profiles pcr cmdlines) (λ rest. ok (profile p rest))))

  unfoldable pub add_cmdlines : ℕ → List (List ℕ) → Exec PcrProtectionProfile (Unit {0})
  add_cmdlines pcr [] = raise (message "no kernel commandlines specified")
  add_cmdlines pcr (cmdline ∷ cmdlines) = do
    sub_profiles ← lift (cmdline_profiles pcr (cmdline ∷ cmdlines))
    on_profile (λ p. ok (with_profile_or p sub_profiles))

-- `AddSystemdEFIStubProfile`; the state is the caller's profile.
unfoldable pub add_systemd_efi_stub_profile :
    StubEvents → SystemdEfiStubProfileParams → Exec PcrProtectionProfile (Unit {0})
add_systemd_efi_stub_profile t params = elim params.pcr_index [
  | negsuc n ↦ raise (message "invalid PCR index")
  | pos pcr ↦ add_cmdlines t params.pcr_algorithm pcr params.kernel_cmdlines
]

module _ (t : StubEvents) (alg : Alg) where
  module _ (sizes : (bytes : List ℕ) → length (t.functions.hash alg bytes) ≡ t.functions.size alg)
      (pcr : ℕ) where
    extension-cmdline_digest :
        (cmdline : List ℕ) (d : Digest)
        → cmdline_digest t alg cmdline ≡ ok d
        → extension t.functions alg pcr d ≡ ok (cons (extend_pcr alg pcr d) nil)
    unfolding cmdline_digest
    extension-cmdline_digest cmdline d e =
        let (bytes, e1, e2) = bind_result_ok (map_error _ (t.encode_measured_bytes cmdline)) _ e in
        extension-fits t.functions alg pcr d (ap length (sym (ok_injective e2)) ∙ sizes bytes)

    cmdline_profiles-variants :
        (cmdlines : List (List ℕ)) (ds : List Digest)
        → traverse (cmdline_digest t alg) cmdlines ≡ ok ds
        → cmdline_profiles t alg pcr cmdlines ≡ ok (variants t.functions alg pcr ds)
    unfolding traverse cmdline_profiles variants
    cmdline_profiles-variants [] ds e = let same : [] ≡ ds = ok_injective e in rw (← same) refl
    cmdline_profiles-variants (c ∷ cmdlines) ds e =
        let (d, ds', e1, e3, same) = traverse_ok (cmdline_digest t alg) c cmdlines ds e in
        rw (e1, extension-cmdline_digest c d e1, cmdline_profiles-variants cmdlines ds' e3, ← same)
          refl

    with_cmdlines :
        (p : PcrProtectionProfile) (c : List ℕ) (cmdlines : List (List ℕ)) (ds : List Digest)
        → traverse (cmdline_digest t alg) (c ∷ cmdlines) ≡ ok ds
        → add_systemd_efi_stub_profile t
            (record { pcr_algorithm = alg; pcr_index = pos pcr; kernel_cmdlines = c ∷ cmdlines })
            p
          ≡ (ok tt, with_profile_or p (variants t.functions alg pcr ds))
    unfolding add_systemd_efi_stub_profile add_cmdlines
    with_cmdlines p c cmdlines ds e =
        let add : Profiles → Exec PcrProtectionProfile (Unit {0}) =
          λ subs. on_profile (λ p'. ok (with_profile_or p' subs)) in
        then_ok (lift (cmdline_profiles t alg pcr (c ∷ cmdlines))) add p p
          (variants t.functions alg pcr ds)
          (ap (λ r. (r, p)) (cmdline_profiles-variants (c ∷ cmdlines) ds e))

    -- If every hash has the size of the algorithm and every one of at least one command lines can be
    -- encoded: `AddSystemdEFIStubProfile` succeeds, and the profile then computes the values of the
    -- old one, extended by the digest of each command line in turn.
    pub add_systemd_efi_stub_profile-computes :
        (p : PcrProtectionProfile) (c : List ℕ) (cmdlines : List (List ℕ)) (ds : List Digest)
        → traverse (cmdline_digest t alg) (c ∷ cmdlines) ≡ ok ds
        → (p' : PcrProtectionProfile) × (add_systemd_efi_stub_profile t
              (record { pcr_algorithm = alg; pcr_index = pos pcr; kernel_cmdlines = c ∷ cmdlines })
              p
            ≡ (ok tt, p'))
          × ((r : PcrReader) (has_tpm : Bool) (s : r.State)
              → compute_pcr_values t.functions r has_tpm p' s
                ≡ (compute_pcr_values t.functions r has_tpm p >>= λ values.
                      pure (each_extended t.functions alg pcr ds values))
                    s)
    add_systemd_efi_stub_profile-computes p c cmdlines ds e =
        let (d, ds', e1, e3, same) = traverse_ok (cmdline_digest t alg) c cmdlines ds e in
        (
          with_profile_or p (variants t.functions alg pcr ds),
          with_cmdlines p c cmdlines ds e,
          λ r has_tpm s. rw (← same) (compute-variants t.functions alg pcr r has_tpm p d ds' s),
        )
