-- ===== src/Unseal/Runs.antt =====
-- Runs of `UnsealFromTPM` that get as far as the policy session.
use secboot.Prelude.{ℕ, List, ◌∷◌, ◌≡◌, refl, ap, ◌∙◌, false}
use secboot.Exec.{Error, Result, ok, err, wrap, attempt, or_wrap, with_release}
use secboot.Exec.Steps.{bind-ok, or_wrap-ok, attempt-ok, attempt-err}
use secboot.Unseal.{
  KeyData, UnsealTpm, load, policy_error, unseal_error, policy_assertions, assert_and_unseal,
  in_session, after_load, check_lockout, unseal_from_tpm,
}

-- The TPM is not in lockout, the object is loaded as `key`, and `session` is started.
pub record Reaches (t : UnsealTpm) (d : KeyData t.policy) (s : t.policy.session.State)
    (key session : t.policy.Context) (s' : t.policy.session.State) : Type 0 where
  pub property : ℕ
  pub more : List ℕ
  pub fetched_state : t.policy.session.State
  pub loaded_state : t.policy.session.State
  pub fetched : t.get_permanent_properties s ≡ (ok (property ∷ more), fetched_state)
  pub not_locked : t.in_lockout property ≡ false
  pub loaded : load t d fetched_state ≡ (ok key, loaded_state)
  pub started : t.policy.start_policy_session d.key_name_alg loaded_state ≡ (ok session, s')

module _ (t : UnsealTpm) (d : KeyData t.policy) (pin : List ℕ) where
  check_lockout-unlocked :
      (property : ℕ) (more : List ℕ) (s : t.policy.session.State)
      → t.in_lockout property ≡ false
      → check_lockout t (property ∷ more) s ≡ (ok tt, s)
  unfolding check_lockout
  check_lockout-unlocked property more s h = rw h refl

  in_session-outcome :
      (key session : t.policy.Context) (s s' : t.policy.session.State)
      → t.policy.start_policy_session d.key_name_alg s ≡ (ok session, s')
      → (in_session t d pin key s).0 ≡ (assert_and_unseal t d pin key session s').0
  unfolding in_session
  in_session-outcome key session s s' h =
      ap (λ (o : Result (List ℕ × List ℕ) × t.policy.session.State). o.0)
        (bind-ok
          (or_wrap (t.policy.start_policy_session d.key_name_alg) "cannot start policy session")
          (λ c. with_release (t.policy.flush_context c) (assert_and_unseal t d pin key c)) s
          (or_wrap-ok (t.policy.start_policy_session d.key_name_alg) "cannot start policy session" s
            h))

  -- The outcome is that of the assertions and of TPM2_Unseal.
  unseal_from_tpm-outcome :
      (key session : t.policy.Context) (s s' : t.policy.session.State)
      → Reaches t d s key session s'
      → (unseal_from_tpm t d pin s).0 ≡ (assert_and_unseal t d pin key session s').0
  unfolding unseal_from_tpm after_load
  unseal_from_tpm-outcome key session s s' r =
      ap (λ (o : Result (List ℕ × List ℕ) × t.policy.session.State). o.0)
        (bind-ok (or_wrap t.get_permanent_properties "cannot fetch properties from TPM") _ s
            (or_wrap-ok t.get_permanent_properties "cannot fetch properties from TPM" s r.fetched)
          ∙ bind-ok (check_lockout t (r.property ∷ r.more)) _ r.fetched_state
              (check_lockout-unlocked r.property r.more r.fetched_state r.not_locked)
          ∙ bind-ok (attempt (load t d)) _ r.fetched_state
              (attempt-ok (load t d) r.fetched_state r.loaded))
      ∙ in_session-outcome key session r.loaded_state s' r.started

  pub unseal_from_tpm-policy_fails :
      (key session : t.policy.Context) (s s1 s2 : t.policy.session.State) (e : Error)
      → Reaches t d s key session s1
      → policy_assertions t d pin session s1 ≡ (err e, s2)
      → (unseal_from_tpm t d pin s).0
        ≡ err (policy_error t (wrap "cannot complete authorization policy assertions" e))
  unfolding assert_and_unseal
  unseal_from_tpm-policy_fails key session s s1 s2 e r h =
      unseal_from_tpm-outcome key session s s1 r
      ∙ ap (λ (o : Result (List ℕ × List ℕ) × t.policy.session.State). o.0)
          (bind-ok (attempt (policy_assertions t d pin session)) _ s1
            (attempt-err (policy_assertions t d pin session) s1 h))

  pub unseal_from_tpm-unseal_fails :
      (key session : t.policy.Context) (s s1 s2 s3 : t.policy.session.State) (e : Error)
      → Reaches t d s key session s1
      → policy_assertions t d pin session s1 ≡ (ok tt, s2)
      → t.unseal key session pin s2 ≡ (err e, s3)
      → (unseal_from_tpm t d pin s).0 ≡ err (unseal_error t e)
  unfolding assert_and_unseal
  unseal_from_tpm-unseal_fails key session s s1 s2 s3 e r h h' =
      unseal_from_tpm-outcome key session s s1 r
      ∙ ap (λ (o : Result (List ℕ × List ℕ) × t.policy.session.State). o.0)
          (bind-ok (attempt (policy_assertions t d pin session)) _ s1
              (attempt-ok (policy_assertions t d pin session) s1 h)
            ∙ bind-ok (attempt (t.unseal key session pin)) _ s2
                (attempt-err (t.unseal key session pin) s2 h'))
