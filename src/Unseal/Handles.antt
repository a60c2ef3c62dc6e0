-- ===== src/Unseal/Handles.antt =====
-- The objects and sessions that `UnsealFromTPM` leaves in the TPM.
use secboot.Prelude.{ℕ, List, ◌≡◌}
use secboot.Exec.{Exec}
use secboot.Policy.Session.Handles.{TracksHandles}
use secboot.Exec.Counts.{opened}
use secboot.Unseal.{KeyData, UnsealTpm}

-- `open_handles` lists the transient objects and sessions in the TPM, the latest first, as for the
-- policy session's commands: TPM2_Load adds what it returns when it succeeds, and the other
-- commands of unsealing do not change the list.
pub record TracksUnseal (t : UnsealTpm)
    (open_handles : t.policy.session.State → List t.policy.Context) : Type 0 where
  pub policy_tracks : TracksHandles t.policy open_handles
  pub session_keeps :
      (session : t.policy.Context) (s : t.policy.session.State)
      → open_handles (t.use_session session s) ≡ open_handles s
  pub load_opens :
      (srk : t.policy.Context) (d : KeyData t.policy) (s : t.policy.session.State)
      → open_handles (t.load_object srk d s).1 ≡ opened (t.load_object srk d s).0 (open_handles s)
  pub properties_keep :
      (s : t.policy.session.State) → open_handles (t.get_permanent_properties s).1 ≡ open_handles s
  pub srk_context_keeps :
      (s : t.policy.session.State) → open_handles (t.create_srk_context s).1 ≡ open_handles s
  pub template_keeps :
      (srk : t.policy.Context) (s : t.policy.session.State)
      → open_handles (t.is_primary_key_with_srk_template srk s).1 ≡ open_handles s
  pub unseal_keeps :
      (key session : t.policy.Context) (pin : List ℕ) (s : t.policy.session.State)
      → open_handles (t.unseal key session pin s).1 ≡ open_handles s
