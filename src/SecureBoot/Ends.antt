-- ===== src/SecureBoot/Ends.antt =====
-- That the loops over the branches and over the signatures of an image end.
pub mod Below
pub mod Cycle
pub mod Signers
pub mod Loads
use secboot.Prelude.{
  ℕ, zero, suc, ◌≡◌, refl, List, [], ◌∷◌, ◌++◌, Bool, true, false, Bool-cases, Option, none, some,
  if◌then◌else◌, length, ◌==◌, inl, inr, get_elem?,
}
use secboot.Exec.{Error, Result, ok, err, panic, out_of_fuel, map_error, bind_result}
use secboot.Exec.Results.{Finishes, Finishes-ok, Finishes-bind, Finishes-map_error}
use secboot.Tpm.{Digest}
use secboot.Profile.{PcrProtectionProfile, with_extend_pcr}
use secboot.SigDb.Sizes.{Finishes-if}
use secboot.SecureBoot.{
  Guid, EfiGuids, EfiImageLoadEventSource, firmware, shim, SecureBootDb, SecureBootDbSet,
  SecureBootPolicyGenBranch, Measuring, secure_boot_pcr, extend_profile, extend_measurement,
  with_event, extend_verification_measurement, has_verification_event_been_measured_by,
}
use secboot.SecureBoot.Authority.{
  X509, SecureBootAuthority, find_authority, databases, shim_databases, authority_bytes,
  authority_digest, measure_once, measure_authority, with_profile,
  compute_and_extend_verification_measurement,
}
use secboot.SecureBoot.Images.{EfiImages, Pkcs7}
use secboot.SecureBoot.Run.{
  Branches, on_branch, on_branches, with_sub_branch, new_branch, branch_of, branch, branch_each,
  fork, follow, SbLoadEventAndBranches,
}

-- The calls of other packages that the loads of images make return.
pub record Returns (m : Measuring) (x : X509) (p : Pkcs7 x) (images : EfiImages) : Type 0 where
  pub opens : (i : ℕ) → Finishes (images.open_image i)
  pub finds_section : (i : ℕ) → Finishes (images.vendor_section i)
  pub finds_directories : (i : ℕ) → Finishes (images.data_directories i)
  pub parses : (bytes : List ℕ) → Finishes (p.parse bytes)
  pub hashes : (g : Guid) (name : _) (bytes : List ℕ) → Finishes (m.hash_variable g name bytes)

Finishes-extend_measurement :
    (m : Measuring) (b : SecureBootPolicyGenBranch) (d : Digest)
    → Finishes (extend_measurement m b d)
unfolding extend_measurement extend_profile with_extend_pcr
Finishes-extend_measurement m b d =
    Finishes-if (length b.sub_branches == 0) _ panic
      (Finishes-bind (extend_profile m b.profile d) _ (go b.profile) λ p _. Finishes-ok _) (λ e. cc)
  where
    go : (o : Option PcrProtectionProfile) → Finishes (extend_profile m o d)
    go none = λ e. cc
    go (some q) =
        Finishes-if (length d == m.functions.size m.alg) (ok _) panic (Finishes-ok _) (λ e. cc)

module _ (x : X509) (g : EfiGuids) (m : Measuring)
    (hashes : (n : Guid) (name : _) (bytes : List ℕ)
      → Finishes (m.hash_variable n name bytes)) where
  Finishes-measure_authority :
      (b : SecureBootPolicyGenBranch) (source : EfiImageLoadEventSource)
      (found : Option SecureBootAuthority)
      → Finishes (measure_authority m b source found)
  unfolding measure_authority authority_digest measure_once extend_verification_measurement
  Finishes-measure_authority b source none = Finishes-ok _
  Finishes-measure_authority b source (some a) =
      Finishes-bind _ _ (Finishes-map_error _ (m.hash_variable _ _ _) (hashes _ _ _)) λ d _.
        Finishes-if (has_verification_event_been_measured_by b d source) (ok b) _ (Finishes-ok b)
          (Finishes-extend_measurement m (with_event source b d) d)

  Finishes-databases :
      (source : EfiImageLoadEventSource) (set : SecureBootDbSet) → Finishes (databases source set)
  unfolding databases shim_databases
  Finishes-databases firmware set = Finishes-ok _
  Finishes-databases shim set = go set.shim_db
    where
      go : (o : Option SecureBootDb) → Finishes (shim_databases set o)
      go none = λ e. cc
      go (some db) = Finishes-ok _

  pub Finishes-compute_and_extend_verification_measurement :
      (signers : List (X509.Certificate x)) (source : EfiImageLoadEventSource)
      (b : SecureBootPolicyGenBranch)
      → Finishes (compute_and_extend_verification_measurement x g m signers source b)
  unfolding compute_and_extend_verification_measurement with_profile
  Finishes-compute_and_extend_verification_measurement signers source b = go b.profile _ (
      Finishes-bind (databases source b.db_set) _ (Finishes-databases source b.db_set)
        λ dbs _. Finishes-measure_authority b source (find_authority x g signers dbs))
    where
      go :
          (o : Option PcrProtectionProfile) (rest : Result SecureBootPolicyGenBranch)
          → Finishes rest
          → Finishes (with_profile o b rest)
      go none rest h = Finishes-ok b
      go (some q) rest h = h

module _ (f : SecureBootPolicyGenBranch → Result SecureBootPolicyGenBranch)
    (ends : (b : SecureBootPolicyGenBranch) → Finishes (f b)) where
  pub Finishes-on_branch : (branches : Branches) (i : ℕ) → Finishes (on_branch f branches i)
  unfolding on_branch
  Finishes-on_branch [] i = λ e. cc
  Finishes-on_branch (b ∷ branches) zero = Finishes-bind (f b) _ (ends b) λ b' _. Finishes-ok _
  Finishes-on_branch (b ∷ branches) (suc i) =
      Finishes-bind (on_branch f branches i) _ (Finishes-on_branch branches i) λ bs _. Finishes-ok _

  pub Finishes-on_branches :
      (branches : Branches) (ids : List ℕ) → Finishes (on_branches f branches ids)
  unfolding on_branches
  Finishes-on_branches branches [] = Finishes-ok branches
  Finishes-on_branches branches (i ∷ ids) =
      Finishes-bind (on_branch f branches i) _ (Finishes-on_branch branches i)
        λ bs _. Finishes-on_branches bs ids

Finishes-branch : (branches : Branches) (i : ℕ) → Finishes (branch branches i)
unfolding branch branch_of with_sub_branch
Finishes-branch branches i = go (get_elem? branches i)
  where
    go : (o : Option SecureBootPolicyGenBranch) → Finishes (branch_of branches i o)
    go none = λ e. cc
    go (some b) =
        Finishes-bind (on_branch (with_sub_branch (length branches)) branches i) _
          (Finishes-on_branch (with_sub_branch (length branches)) (λ c. Finishes-ok _) branches i)
          λ bs _. Finishes-ok _

module _ (wanted : ℕ → Branches → Bool) where
  Finishes-branch_each :
      (ids : List ℕ) (branches : Branches) → Finishes (branch_each wanted branches ids)
  unfolding branch_each
  Finishes-branch_each [] branches = Finishes-ok _
  Finishes-branch_each (i ∷ ids) branches =
      go (λ bs. Finishes-branch_each ids bs) (wanted i branches)
    where
      go :
          ((bs : Branches) → Finishes (branch_each wanted bs ids))
          → (b : Bool)
          → Finishes (elim b as (λ _. Result (Branches × List ℕ)) [
            | false ↦ branch_each wanted branches ids
            | true ↦ bind_result (branch branches i) λ (branches1, c).
                bind_result
                  (branch_each wanted branches1 ids)
                  λ (branches2, cs). ok (branches2, c ∷ cs)
          ])
      go ih false = ih branches
      go ih true =
          Finishes-bind (branch branches i) _ (Finishes-branch branches i) λ (branches1, c) _.
            Finishes-bind (branch_each wanted branches1 ids) _ (ih branches1)
              λ (branches2, cs) _. Finishes-ok _

  Finishes-fork :
      (events : List ℕ) (branches : Branches) (ids : List ℕ)
      → Finishes (fork wanted branches ids events)
  unfolding fork
  Finishes-fork [] branches ids = Finishes-ok _
  Finishes-fork (e ∷ rest) branches ids =
      Finishes-bind (branch_each wanted branches ids) _ (Finishes-branch_each ids branches)
        λ (branches1, cs) _.
          Finishes-bind (fork wanted branches1 ids rest) _ (Finishes-fork rest branches1 ids)
            λ (branches2, more) _. Finishes-ok _

  pub Finishes-follow :
      (events : List ℕ) (branches : Branches) (ids : List ℕ)
      → Finishes (follow wanted branches ids events)
  unfolding follow
  Finishes-follow [] branches ids = Finishes-fork [] branches ids
  Finishes-follow (e ∷ []) branches ids = Finishes-ok _
  Finishes-follow (e ∷ e' ∷ rest) branches ids = Finishes-fork (e ∷ e' ∷ rest) branches ids
