-- ===== src/SnapModel.antt =====
-- snapmodel_policy.go: the measurements of a device model, their profile, and how they are made.
pub mod Computed
mod Tests
use secboot.Prelude.{
  ℕ, ◌/◌, ◌%◌, List, [], ◌∷◌, ◌++◌, Option, none, some, Bool, true, false, if◌then◌else◌, ℤ, pos,
  negsuc,
}
use secboot.Exec.{
  Exec, Error, Result, ok, err, panic, out_of_fuel, message, wrap, map_error, bind_result, raise,
  lift, pure, or_wrap, ◌>>=◌, ◌>>◌,
}
use secboot.Tpm.{Alg, Digest, PcrFunctions}
use secboot.Profile.{
  PcrProtectionProfile, Profiles, no_profiles, profile, with_extend_pcr, with_profile_or,
}
use secboot.Profile.Variants.{on_profile, extension}
use secboot.SigDb.{put_le32}

-- What the measured interface returns; `grade` is the code of the grade, and texts are bytes.
pub record SnapModel : Type 0 where
  pub series : List ℕ
  pub brand_id : List ℕ
  pub model : List ℕ
  pub grade : ℕ
  pub sign_key_id : List ℕ

-- The hashes, go-tpm2's number of SHA-384, and the decoder of encoding/base64.
pub record SnapHashing : Type 0 where
  pub functions : PcrFunctions
  pub hash_algorithm_sha384 : ℕ
  pub decode_string : List ℕ → Result (List ℕ)

abbrev pub zero_snap_system_epoch : ℕ
zero_snap_system_epoch = 0

unfoldable pub put_le16 : ℕ → List ℕ
put_le16 n = n % 256 ∷ n / 256 % 256 ∷ []

pub record SnapModelProfileParams : Type 0 where
  pub pcr_algorithm : Alg
  pub pcr_index : ℤ
  pub models : List (Option SnapModel)

module _ (h : SnapHashing) where
  unfoldable pub compute_snap_system_epoch_digest : Alg → ℕ → Digest
  compute_snap_system_epoch_digest alg epoch = h.functions.hash alg (put_le32 epoch)

  -- The three hashes of `computeSnapModelDigest`, from the decoded key.
  unfoldable pub snap_model_digest : Alg → SnapModel → List ℕ → Digest
  snap_model_digest alg m sign_key_id =
      let digest1 =
        h.functions.hash alg (put_le16 h.hash_algorithm_sha384 ++ (sign_key_id ++ m.brand_id)) in
      let digest2 = h.functions.hash alg (digest1 ++ m.model) in
      h.functions.hash alg (digest2 ++ (m.series ++ put_le32 m.grade))

  unfoldable pub compute_snap_model_digest : Alg → SnapModel → Result Digest
  compute_snap_model_digest alg m =
      bind_result (map_error (wrap "cannot decode signing key ID") (h.decode_string m.sign_key_id))
        (λ sign_key_id. ok (snap_model_digest alg m sign_key_id))

  unfoldable pub model_profile : Alg → ℕ → Option SnapModel → Result PcrProtectionProfile
  model_profile alg pcr none = err (message "nil model")
  model_profile alg pcr (some m) =
      bind_result (compute_snap_model_digest alg m) (λ digest. extension h.functions alg pcr digest)

  -- The loop over the models.
  unfoldable pub model_profiles : Alg → ℕ → List (Option SnapModel) → Result Profiles
  model_profiles alg pcr [] = ok no_profiles
  model_profiles alg pcr (m ∷ models) =
      bind_result (model_profile alg pcr m)
        (λ p. bind_result (model_profiles alg pcr models) (λ rest. ok (profile p rest)))

  unfoldable pub add_models :
      Alg → ℕ → List (Option SnapModel) → Exec PcrProtectionProfile (Unit {0})
  add_models alg pcr [] = raise (message "no models provided")
  add_models alg pcr (m ∷ models) = do
    on_profile (λ p.
        with_extend_pcr h.functions p alg pcr
          (compute_snap_system_epoch_digest alg zero_snap_system_epoch))
    sub_profiles ← lift (model_profiles alg pcr (m ∷ models))
    on_profile (λ p. ok (with_profile_or p sub_profiles))

  -- `AddSnapModelProfile`; the state is the caller's profile, which keeps what was added to it.
  unfoldable pub add_snap_model_profile :
      SnapModelProfileParams → Exec PcrProtectionProfile (Unit {0})
  add_snap_model_profile params = elim params.pcr_index [
    | negsuc n ↦ raise (message "invalid PCR index")
    | pos pcr ↦ add_models params.pcr_algorithm pcr params.models
  ]

-- The TPM as the measurements see it; `supported` is whether Go has the algorithm.
pub record SnapTpm : Type 1 where
  pub State : Type 0
  pub get_capability_pcrs : Exec State (List Alg)
  pub supported : Alg → Bool
  pub pcr_extend : ℤ → List (Alg × Digest) → Exec State (Unit {0})

module _ (t : SnapTpm) (compute_digest : Alg → Result Digest) where
  -- The loop over the banks of PCRs.
  unfoldable pub bank_digests : List Alg → Result (List (Alg × Digest))
  bank_digests [] = ok []
  bank_digests (alg ∷ algs) =
      let rest = bank_digests algs in
      if t.supported alg
      then bind_result (map_error (wrap "cannot compute digest for algorithm") (compute_digest alg))
          (λ digest. bind_result rest (λ digests. ok ((alg, digest) ∷ digests)))
      else rest

  unfoldable pub measure_snap_property_to_tpm : ℤ → Exec t.State (Unit {0})
  measure_snap_property_to_tpm pcr = do
    algs ← or_wrap t.get_capability_pcrs "cannot determine supported PCR banks"
    digests ← lift (bank_digests algs)
    t.pcr_extend pcr digests

module _ (h : SnapHashing) (t : SnapTpm) where
  unfoldable pub measure_snap_system_epoch_to_tpm : ℤ → Exec t.State (Unit {0})
  measure_snap_system_epoch_to_tpm pcr =
      measure_snap_property_to_tpm t
        (λ alg. ok (compute_snap_system_epoch_digest h alg zero_snap_system_epoch)) pcr

  unfoldable pub measure_snap_model_to_tpm : ℤ → SnapModel → Exec t.State (Unit {0})
  measure_snap_model_to_tpm pcr m =
      measure_snap_property_to_tpm t (λ alg. compute_snap_model_digest h alg m) pcr
