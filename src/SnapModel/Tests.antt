-- ===== src/SnapModel/Tests.antt =====
-- A profile with two models, over a hash that counts bytes.
use secboot.Prelude.{ℕ, ◌%◌, Bool, true, ◌≡◌, refl, List, [], ◌∷◌, map, Option, some, length, pos}
use secboot.Exec.{ok, pure, ◌>>=◌}
use secboot.Exec.Results.{traverse}
use secboot.Tpm.{PcrFunctions, value_or_empty}
use secboot.Profile.{PcrProtectionProfile, nil, PcrReader, put_value, extend_value}
use secboot.Profile.Compute.{compute_pcr_values}
use secboot.Profile.Variants.{each_extended}
use secboot.SigDb.{put_le32}
use secboot.SnapModel.{
  SnapModel, SnapHashing, put_le16, zero_snap_system_epoch, compute_snap_system_epoch_digest,
  snap_model_digest, compute_snap_model_digest, add_snap_model_profile,
}
use secboot.SnapModel.Computed.{digest_of, add_snap_model_profile-computes}

abbrev counting : PcrFunctions
counting = record {
  size = λ _. 1;
  hash = λ _ bytes. length bytes % 256 ∷ [];
  set_value = put_value;
  selection_list = λ _. [];
  selection_equal = λ a b. true;
  compute_pcr_digest_simple = λ _ v. ([], value_or_empty v 4 12);
}

abbrev hashing : SnapHashing
hashing = record {
  functions = counting;
  hash_algorithm_sha384 = 12;
  decode_string = λ bytes. ok bytes;
}

abbrev model_of : List ℕ → Option SnapModel
model_of series = some (record {
  series = series;
  brand_id = 98 ∷ [];
  model = 109 ∷ [];
  grade = 4;
  sign_key_id = 1 ∷ 2 ∷ 3 ∷ [];
})

abbrev models : List (Option SnapModel)
models = model_of (50 ∷ []) ∷ []

digests : traverse (digest_of hashing 4) (model_of [] ∷ models) ≡ ok ((5 ∷ []) ∷ (6 ∷ []) ∷ [])
unfolding traverse digest_of compute_snap_model_digest snap_model_digest put_le16 put_le32
digests = refl

add_snap_model_profile-computes_example :
    (p' : PcrProtectionProfile) × (add_snap_model_profile hashing
        (record { pcr_algorithm = 4; pcr_index = pos 12; models = model_of [] ∷ models })
        nil
      ≡ (ok tt, p'))
    × ((r : PcrReader) (has_tpm : Bool) (s : r.State)
        → compute_pcr_values counting r has_tpm p' s
          ≡ (compute_pcr_values counting r has_tpm nil >>= λ values. pure (
                each_extended counting 4 12 ((5 ∷ []) ∷ (6 ∷ []) ∷ []) (
                  map
                    (extend_value counting 4 12
                      (compute_snap_system_epoch_digest hashing 4 zero_snap_system_epoch))
                    values)))
              s)
add_snap_model_profile-computes_example =
    add_snap_model_profile-computes hashing 4 (λ _. refl) 12 nil (model_of []) models
      ((5 ∷ []) ∷ (6 ∷ []) ∷ []) digests
