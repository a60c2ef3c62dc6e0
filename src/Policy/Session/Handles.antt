-- ===== src/Policy/Session/Handles.antt =====
-- The objects and sessions that `executePolicySession` leaves in the TPM.
use secboot.Prelude.{
  ℕ, zero, suc, ◌+◌, List, ◌∷◌, ◌==◌, ◌≡◌, ◌∙◌, Option, none, some, Bool-cases, inl, inr, length,
}
use secboot.Exec.{Exec, or_wrap}
use secboot.Exec.Counts.{opened, keeps-bind}
use secboot.Tpm.{Alg, Digest, Name, PcrSelectionList}
use secboot.Policy.Or.{PolicyOrDataNode, PolicyOrDataTree, ensure_sufficient_or_digests}
use secboot.Policy.Or.Execute.{visit, climb, climb_from, execute_policy_or_assertions}
use secboot.Policy.Session.{PolicyTpm, NvOp}

-- `open_handles` lists the transient objects and sessions in the TPM, the latest first:
-- TPM2_LoadExternal and TPM2_StartAuthSession add what they return when they succeed,
-- TPM2_FlushContext of the latest one takes it away, and no other command changes the list.
pub record TracksHandles (t : PolicyTpm) (open_handles : t.session.State → List t.Context)
    : Type 0 where
  pub load_opens :
      (key : t.Public) (s : t.session.State)
      → open_handles (t.load_external key s).1 ≡ opened (t.load_external key s).0 (open_handles s)
  pub session_opens :
      (alg : Alg) (s : t.session.State)
      → open_handles (t.start_policy_session alg s).1
        ≡ opened (t.start_policy_session alg s).0 (open_handles s)
  pub flush_closes :
      (c : t.Context) (handles : List t.Context) (s : t.session.State)
      → open_handles s ≡ c ∷ handles
      → open_handles (t.flush_context c s) ≡ handles
  pub digest_keeps :
      (s : t.session.State) → open_handles (t.session.policy_get_digest s).1 ≡ open_handles s
  pub or_keeps :
      (digests : List Digest) (s : t.session.State)
      → open_handles (t.session.policy_or digests s).1 ≡ open_handles s
  pub pcr_keeps :
      (pcrs : PcrSelectionList) (s : t.session.State)
      → open_handles (t.policy_pcr pcrs s).1 ≡ open_handles s
  pub context_keeps :
      (handle : ℕ) (s : t.session.State)
      → open_handles (t.create_context handle s).1 ≡ open_handles s
  pub name_alg_keeps :
      (c : t.Context) (s : t.session.State) → open_handles (t.read_name_alg c s).1 ≡ open_handles s
  pub command_code_keeps :
      (c : t.Context) (s : t.session.State)
      → open_handles (t.policy_command_code_nv c s).1 ≡ open_handles s
  pub or_in_keeps :
      (c : t.Context) (digests : List Digest) (s : t.session.State)
      → open_handles (t.policy_or_in c digests s).1 ≡ open_handles s
  pub nv_keeps :
      (c : t.Context) (operand : List ℕ) (op : NvOp) (auth : Option t.Context) (s : t.session.State)
      → open_handles (t.policy_nv c operand op auth s).1 ≡ open_handles s
  pub verify_keeps :
      (c : t.Context) (digest : Digest) (signature : t.Signature) (s : t.session.State)
      → open_handles (t.verify_signature c digest signature s).1 ≡ open_handles s
  pub authorize_keeps :
      (policy : Digest) (ref : List ℕ) (name : Name) (ticket : t.Ticket) (s : t.session.State)
      → open_handles (t.policy_authorize policy ref name ticket s).1 ≡ open_handles s
  pub secret_keeps :
      (c : t.Context) (pin : List ℕ) (s : t.session.State)
      → open_handles (t.policy_secret c pin s).1 ≡ open_handles s
  pub auth_value_keeps :
      (s : t.session.State) → open_handles (t.policy_auth_value s).1 ≡ open_handles s

module _ (t : PolicyTpm) (held : t.session.State → List t.Context) (c : TracksHandles t held) where
  visit-keeps :
      (o : Option PolicyOrDataNode) (again : ℕ → Exec t.session.State Unit) (n : List t.Context)
      (s : t.session.State)
      → ((next : ℕ) (s' : t.session.State) → held s' ≡ n → held (again next s').1 ≡ n)
      → held s ≡ n
      → held (visit t.session o again s).1 ≡ n
  unfolding visit
  visit-keeps none again n s k h = h
  visit-keeps (some node) again n s k h =
      keeps-bind held n (t.session.policy_or (ensure_sufficient_or_digests node.digests)) _ s
        (c.or_keeps _ s ∙ h)
        λ _ s' h'. elim (Bool-cases (node.next == 0)) [
          | inl e1 ↦ rw e1 h'
          | inr e1 ↦ rw e1 (k node.next s' h')
        ]

  climb-keeps :
      (fuel : ℕ) (nodes : PolicyOrDataTree) (least index : ℕ) (n : List t.Context)
      (s : t.session.State)
      → held s ≡ n
      → held (climb t.session fuel nodes least index s).1 ≡ n
  unfolding climb
  climb-keeps zero nodes least index n s h = h
  climb-keeps (suc fuel) nodes least index n s h =
      visit-keeps _ _ n s (λ next s' h'. climb-keeps fuel nodes (suc index) (index + next) n s' h')
        h

  climb_from-keeps :
      (nodes : PolicyOrDataTree) (leaf : Option ℕ) (n : List t.Context) (s : t.session.State)
      → held s ≡ n
      → held (climb_from t.session nodes leaf s).1 ≡ n
  climb_from-keeps nodes none n s h = h
  climb_from-keeps nodes (some index) n s h = climb-keeps _ nodes 0 index n s h

  pub execute_policy_or_assertions-keeps :
      (nodes : PolicyOrDataTree) (n : List t.Context) (s : t.session.State)
      → held s ≡ n
      → held (execute_policy_or_assertions t.session nodes s).1 ≡ n
  unfolding execute_policy_or_assertions
  execute_policy_or_assertions-keeps nodes n s h =
      keeps-bind held n (or_wrap t.session.policy_get_digest "cannot obtain current session digest")
        _ s (c.digest_keeps s ∙ h)
        λ digest s' h'. elim (Bool-cases (length nodes == 0)) [
          | inl e1 ↦ rw e1 h'
          | inr e1 ↦ rw e1 (climb_from-keeps nodes _ n s' h')
        ]
