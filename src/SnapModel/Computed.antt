-- ===== src/SnapModel/Computed.antt =====
-- The values of a profile with device models, and what is measured of a model.
use secboot.Prelude.{
  ℕ, ◌≡◌, refl, ap, ◌∙◌, List, [], ◌∷◌, map, Option, none, some, Bool, length, pos,
}
use secboot.Exec.{Exec, Result, ok, err, message, pure, lift, map_error, ◌>>=◌}
use secboot.Exec.Results.{bind_result_ok, ok_injective, traverse, traverse_ok}
use secboot.Tpm.{Alg, Digest}
use secboot.Profile.{
  PcrProtectionProfile, nil, cons, extend_pcr, Profiles, PcrReader, append_instr, with_extend_pcr,
  with_profile_or, extend_value,
}
use secboot.Profile.Compute.{compute_pcr_values}
use secboot.Profile.Variants.{
  on_profile, extension-fits, with_extend_pcr-fits, variants, each_extended, on_profile_ok, then_ok,
  compute-extended_variants,
}
use secboot.SnapModel.{
  SnapModel, SnapHashing, zero_snap_system_epoch, compute_snap_system_epoch_digest,
  snap_model_digest, compute_snap_model_digest, model_profile, model_profiles, add_models,
  add_snap_model_profile,
}

module _ (h : SnapHashing) (alg : Alg) where
  unfoldable pub digest_of : Option SnapModel → Result Digest
  digest_of none = err (message "nil model")
  digest_of (some m) = compute_snap_model_digest h alg m

  module _ (sizes : (bytes : List ℕ) → length (h.functions.hash alg bytes) ≡ h.functions.size alg)
      (pcr : ℕ) where
    model_profile-digest_of :
        (m : Option SnapModel) (d : Digest)
        → digest_of m ≡ ok d
        → model_profile h alg pcr m ≡ ok (cons (extend_pcr alg pcr d) nil)
    unfolding digest_of model_profile compute_snap_model_digest snap_model_digest
    model_profile-digest_of none d e = cc
    model_profile-digest_of (some m) d e =
        let (key, e1, e2) = bind_result_ok (map_error _ (h.decode_string m.sign_key_id)) _ e in
        let same : snap_model_digest h alg m key ≡ d = ok_injective e2 in
        rw (e1, ← same)
          (extension-fits h.functions alg pcr (snap_model_digest h alg m key) (sizes _))

    model_profiles-variants :
        (models : List (Option SnapModel)) (ds : List Digest)
        → traverse digest_of models ≡ ok ds
        → model_profiles h alg pcr models ≡ ok (variants h.functions alg pcr ds)
    unfolding traverse model_profiles variants
    model_profiles-variants [] ds e = let same : [] ≡ ds = ok_injective e in rw (← same) refl
    model_profiles-variants (m ∷ models) ds e =
        let (d, ds', e1, e3, same) = traverse_ok digest_of m models ds e in
        rw (model_profile-digest_of m d e1, model_profiles-variants models ds' e3, ← same) refl

    with_models :
        (p : PcrProtectionProfile) (m : Option SnapModel) (models : List (Option SnapModel))
        (ds : List Digest)
        → traverse digest_of (m ∷ models) ≡ ok ds
        → add_snap_model_profile h
            (record { pcr_algorithm = alg; pcr_index = pos pcr; models = m ∷ models })
            p
          ≡ (
            ok tt,
            with_profile_or
                (append_instr p (
                  extend_pcr alg pcr
                    (compute_snap_system_epoch_digest h alg zero_snap_system_epoch)))
                (variants h.functions alg pcr ds),
          )
    unfolding add_snap_model_profile add_models compute_snap_system_epoch_digest
    with_models p m models ds e =
        let epoch = compute_snap_system_epoch_digest h alg zero_snap_system_epoch in
        let extend : PcrProtectionProfile → Result PcrProtectionProfile =
          λ q. with_extend_pcr h.functions q alg pcr epoch in
        let q = append_instr p (extend_pcr alg pcr epoch) in
        let add : Profiles → Exec PcrProtectionProfile (Unit {0}) =
          λ subs. on_profile (λ p'. ok (with_profile_or p' subs)) in
        then_ok (on_profile extend) (λ _. lift (model_profiles h alg pcr (m ∷ models)) >>= add) p q
          tt (on_profile_ok extend p q (with_extend_pcr-fits h.functions alg pcr p epoch (sizes _)))
        ∙ then_ok (lift (model_profiles h alg pcr (m ∷ models))) add q q
            (variants h.functions alg pcr ds)
            (ap (λ r. (r, q)) (model_profiles-variants (m ∷ models) ds e))

    -- If every hash has the size of the algorithm, and every one of at least one models is there and
    -- has a key that decodes: `AddSnapModelProfile` succeeds, and the profile then computes the values
    -- of the old one, extended by the epoch and then by the digest of each model in turn.
    pub add_snap_model_profile-computes :
        (p : PcrProtectionProfile) (m : Option SnapModel) (models : List (Option SnapModel))
        (ds : List Digest)
        → traverse digest_of (m ∷ models) ≡ ok ds
        → (p' : PcrProtectionProfile) × (add_snap_model_profile h
              (record { pcr_algorithm = alg; pcr_index = pos pcr; models = m ∷ models })
              p
            ≡ (ok tt, p'))
          × ((r : PcrReader) (has_tpm : Bool) (s : r.State)
              → compute_pcr_values h.functions r has_tpm p' s
                ≡ (compute_pcr_values h.functions r has_tpm p >>= λ values. pure (
                      each_extended h.functions alg pcr ds (
                        map
                          (extend_value h.functions alg pcr
                            (compute_snap_system_epoch_digest h alg zero_snap_system_epoch))
                          values)))
                    s)
    add_snap_model_profile-computes p m models ds e =
        let (d, ds', e1, e3, same) = traverse_ok digest_of m models ds e in
        (
          with_profile_or
              (append_instr p (
                extend_pcr alg pcr (compute_snap_system_epoch_digest h alg zero_snap_system_epoch)))
              (variants h.functions alg pcr ds),
          with_models p m models ds e,
          λ r has_tpm s.
              rw (← same) (compute-extended_variants h.functions alg pcr r has_tpm p _ d ds' s),
        )
