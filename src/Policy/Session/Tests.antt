-- ===== src/Policy/Session/Tests.antt =====
-- A TPM whose state is the list of its open handles, and that accepts every assertion but a wrong PIN.
use secboot.Prelude.{
  ℕ, ◌+◌, ◌/◌, ◌==◌, List, [], length, ◌∷◌, ◌≡◌, refl, Bool, true, false, bytes_equal,
}
use secboot.Exec.{Result, ok, err, external}
use secboot.Exec.Counts.{opened, remove, remove-latest}
use secboot.Policy.Session.{PolicyTpm, StaticPolicyData, DynamicPolicyData, big_endian}
use secboot.Policy.Session.Handles.{TracksHandles}

-- The authorization value of the counter is one byte.
abbrev pin_checked : Bool → Result {0} Unit
pin_checked true = ok tt
pin_checked false = err (external 10)

abbrev pub tpm : PolicyTpm
tpm = record {
  session = record {
    State = List ℕ;
    policy_get_digest = λ s. (ok (5 ∷ []), s);
    policy_or = λ digests s. (ok tt, s);
  };
  Context = ℕ;
  Public = ℕ;
  Signature = ℕ;
  Ticket = ℕ;
  context_name = λ c. c ∷ [];
  public_name_alg = λ key. key;
  supported = λ alg. true;
  hash = λ alg bytes. bytes;
  sha256 = λ bytes. bytes;
  handle_null = 1073741831;
  is_nv_index = λ handle. handle / 16777216 == 1;
  policy_pcr = λ pcrs s. (ok tt, s);
  create_context = λ handle s. (ok handle, s);
  read_name_alg = λ c s. (ok 11, s);
  start_policy_session = λ alg s. (ok (3 + length s), (3 + length s) ∷ s);
  flush_context = remove;
  policy_command_code_nv = λ c s. (ok tt, s);
  policy_or_in = λ c digests s. (ok tt, s);
  policy_nv = λ c operand op auth s. (ok tt, s);
  load_external = λ key s. (ok (40 + length s), (40 + length s) ∷ s);
  verify_signature = λ key digest signature s. (ok 0, s);
  policy_authorize = λ policy ref name ticket s. (ok tt, s);
  policy_secret = λ c pin s. (pin_checked (bytes_equal pin (49 ∷ [])), s);
  policy_auth_value = λ s. (ok tt, s);
  is_get_digest_error = λ n. n == 1;
  is_or_value_error = λ n. n == 2;
  is_unavailable = λ handle n. n == 3;
  is_nv_policy_error = λ n. n == 4;
  is_nv_policy_fail = λ n. n == 5;
  is_load_external_error = λ n. n == 6;
  is_verify_error = λ n. n == 7;
  is_authorize_value_error = λ n. n == 8;
}

pub tpm-TracksHandles : TracksHandles tpm (λ s. s)
unfolding opened
tpm-TracksHandles = record {
  load_opens = λ key s. refl;
  session_opens = λ alg s. refl;
  flush_closes = remove-latest;
  digest_keeps = λ s. refl;
  or_keeps = λ digests s. refl;
  pcr_keeps = λ pcrs s. refl;
  context_keeps = λ handle s. refl;
  name_alg_keeps = λ c s. refl;
  command_code_keeps = λ c s. refl;
  or_in_keeps = λ c digests s. refl;
  nv_keeps = λ c operand op auth s. refl;
  verify_keeps = λ c digest signature s. refl;
  authorize_keeps = λ policy ref name ticket s. refl;
  secret_keeps = λ c pin s. refl;
  auth_value_keeps = λ s. refl;
}

abbrev pub static_input : StaticPolicyData tpm
static_input = record {
  auth_public_key = 11;
  pcr_policy_counter_handle = 25165824;
  v0_pin_index_auth_policies = (1 ∷ []) ∷ (2 ∷ []) ∷ [];
}

abbrev pub dynamic_input : DynamicPolicyData tpm
dynamic_input = record {
  pcr_selection = [];
  pcr_or_data = record { next = 0; digests = (5 ∷ []) ∷ [] } ∷ [];
  policy_count = 1;
  authorized_policy = 9 ∷ [];
  authorized_policy_signature = 0;
}

count_bytes : big_endian 8 258 ≡ 0 ∷ 0 ∷ 0 ∷ 0 ∷ 0 ∷ 0 ∷ 1 ∷ 2 ∷ []
unfolding big_endian
count_bytes = refl
