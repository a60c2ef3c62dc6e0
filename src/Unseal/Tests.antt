-- ===== src/Unseal/Tests.antt =====
-- A TPM whose state is the list of its open handles, with one loaded object per sealed key.
use secboot.Prelude.{ℕ, ◌+◌, ◌==◌, List, [], ◌∷◌, length, none, true, ◌≡◌, refl, bytes_equal}
use secboot.Exec.{Error, Result, ok, err, external, wrap, in_chain, of_class}
use secboot.Exec.Counts.{remove}
use secboot.Utils.{digest_list_contains}
use secboot.Policy.Or.{ensure_sufficient_or_digests}
use secboot.Policy.Or.Execute.{find_leaf, climb, visit, execute_policy_or_assertions}
use secboot.Policy.Session.{
  policy_ref, compute_pcr_policy_ref_from_counter_context, compute_pcr_policy_ref_from_counter_name,
}
use secboot.Policy.Session.Execute.{
  execute_policy_session, from_handle, with_counter, with_name_alg, in_revocation_session,
  check_revocation, authorize, authorize_with, last_assertions, policy_secret_assertion,
}
use secboot.Policy.Session.Tests as PolicyTests
use secboot.Activation.{
  auth_mode_pin, SealedKeyObject, at_end, Platform, get_password, invalid_key_file, passphrase_fail,
  reason_for,
}
use secboot.Activation.TpmKey.{get_pin, activate_with_tpm_key}
use secboot.Unseal.{
  KeyData, UnsealTpm, is_dynamic_policy_data, is_static_policy_data, loaded_object, load,
  policy_assertions, unseal_from_tpm,
}
use secboot.Unseal.Runs.{Reaches}
use secboot.Unseal.Reasons.{policy_blame, unseal_blame}
use secboot.Unseal.Blame.{activate_with_tpm_key-policy_blame, activate_with_tpm_key-unseal_blame}

abbrev tpm_with : Result (List ℕ) → UnsealTpm
tpm_with contents = record {
  policy = PolicyTests.tpm;
  use_session = λ session s. s;
  get_permanent_properties = λ s. (ok (0 ∷ []), s);
  in_lockout = λ value. value == 512;
  create_srk_context = λ s. (ok 1, s);
  load_object = λ srk d s. (ok (20 + length s), (20 + length s) ∷ s);
  is_primary_key_with_srk_template = λ srk s. (ok true, s);
  unseal = λ key session pin s. (contents, s);
  unmarshal_sealed_data = λ contents. ok (contents, []);
  is_load_parameter_error = λ n. n == 4;
  is_load_sensitive_error = λ n. n == 5;
  is_srk_unavailable = λ n. n == 6;
  is_lock_index_unavailable = λ n. n == 8;
  is_policy_secret_auth_fail = λ n. n == 10;
  is_unseal_policy_fail = λ n. n == 9;
  is_unseal_auth_fail = λ n. n == 7;
  error_text = λ e. "the error";
}

abbrev tpm : UnsealTpm
tpm = tpm_with (err (external 9))

abbrev key_data : KeyData PolicyTests.tpm
key_data = record {
  version = 0;
  key_name_alg = 11;
  static_policy_data = PolicyTests.static_input;
  dynamic_policy_data = PolicyTests.dynamic_input;
  contents = 0;
}

-- The sealed key object is loaded as 21 and the session is 5.
tpm-Reaches : Reaches tpm key_data (6 ∷ []) 21 5 (5 ∷ 21 ∷ 6 ∷ [])
unfolding load loaded_object
tpm-Reaches = record {
  property = 0;
  more = [];
  fetched_state = 6 ∷ [];
  loaded_state = 21 ∷ 6 ∷ [];
  fetched = refl;
  not_locked = refl;
  loaded = refl;
  started = refl;
}

abbrev sealed_key : SealedKeyObject
sealed_key = record { auth_mode_2f = auth_mode_pin; key_data = 5 }

abbrev platform : List ℕ → Platform
platform answer = record {
  State = Unit {0};
  scan = λ reader s. (ok at_end, s);
  ask_password = λ path description s. (ok answer, s);
  activate = λ volume path key options s. (ok tt, s);
  add_key = λ description key s. s;
  is_exit_error = λ n. true;
  read_sealed_key_object = λ path s. (ok sealed_key, s);
  unseal_from_tpm = λ k pin s. ((unseal_from_tpm tpm key_data pin (6 ∷ [])).0, s);
  ensure_provisioned = λ s. (ok tt, s);
}

-- A wrong PIN, with which the assertion of the PIN fails.
wrong_pin :
    policy_assertions tpm key_data (50 ∷ []) 5 (5 ∷ 21 ∷ 6 ∷ [])
    ≡ (err (wrap "cannot execute PolicySecret assertion" (external 10)), 5 ∷ 21 ∷ 6 ∷ [])
unfolding policy_assertions execute_policy_session from_handle with_counter with_name_alg
    in_revocation_session check_revocation authorize authorize_with last_assertions
    policy_secret_assertion execute_policy_or_assertions find_leaf climb visit bytes_equal
    ensure_sufficient_or_digests digest_list_contains remove policy_ref
    compute_pcr_policy_ref_from_counter_context compute_pcr_policy_ref_from_counter_name
wrong_pin = refl

right_pin : policy_assertions tpm key_data (49 ∷ []) 5 (5 ∷ 21 ∷ 6 ∷ []) ≡ (ok tt, 5 ∷ 21 ∷ 6 ∷ [])
unfolding policy_assertions execute_policy_session from_handle with_counter with_name_alg
    in_revocation_session check_revocation authorize authorize_with last_assertions
    policy_secret_assertion execute_policy_or_assertions find_leaf climb visit bytes_equal
    ensure_sufficient_or_digests digest_list_contains remove policy_ref
    compute_pcr_policy_ref_from_counter_context compute_pcr_policy_ref_from_counter_name
right_pin = refl

activate_with_tpm_key-policy_blame_example :
    (e' : Error) × ((activate_with_tpm_key
        (platform (50 ∷ []))
        "data"
        "/dev/sda1"
        "keyfile"
        none
        1
        []
        ""
        tt).0
      ≡ err e')
    × (reason_for e'
        ≡ policy_blame tpm (wrap "cannot execute PolicySecret assertion" (external 10)))
unfolding get_pin get_password
activate_with_tpm_key-policy_blame_example =
    activate_with_tpm_key-policy_blame (platform (50 ∷ [])) tpm sealed_key key_data (50 ∷ []) "data"
      "/dev/sda1" "keyfile" "" none [] tt tt tt refl refl (6 ∷ []) refl 21 5 (5 ∷ 21 ∷ 6 ∷ [])
      (5 ∷ 21 ∷ 6 ∷ []) tpm-Reaches (wrap "cannot execute PolicySecret assertion" (external 10))
      wrong_pin

activate_with_tpm_key-unseal_blame_example :
    (e' : Error) × ((activate_with_tpm_key
        (platform (49 ∷ []))
        "data"
        "/dev/sda1"
        "keyfile"
        none
        1
        []
        ""
        tt).0
      ≡ err e')
    × (reason_for e' ≡ unseal_blame tpm (external 9))
unfolding get_pin get_password
activate_with_tpm_key-unseal_blame_example =
    activate_with_tpm_key-unseal_blame (platform (49 ∷ [])) tpm sealed_key key_data (49 ∷ []) "data"
      "/dev/sda1" "keyfile" "" none [] tt tt tt refl refl (6 ∷ []) refl 21 5 (5 ∷ 21 ∷ 6 ∷ [])
      (5 ∷ 21 ∷ 6 ∷ []) tpm-Reaches (5 ∷ 21 ∷ 6 ∷ []) (external 9) right_pin refl

wrong_pin_blame :
    policy_blame tpm (wrap "cannot execute PolicySecret assertion" (external 10)) ≡ passphrase_fail
unfolding policy_blame reason_for is_dynamic_policy_data is_static_policy_data in_chain of_class
wrong_pin_blame = refl

damaged_blame : unseal_blame tpm (external 9) ≡ invalid_key_file
unfolding unseal_blame in_chain of_class
damaged_blame = refl
