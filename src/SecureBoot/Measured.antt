-- ===== src/SecureBoot/Measured.antt =====
-- The measurement of an image's authority: which authority it is, and that it is measured once.
use secboot.Prelude.{
  List, [], ◌∷◌, ◌++◌, true, ◌==◌, ◌≡◌, refl, sym, ap, ◌∙◌, Option, none, some, length,
  bytes_equal_iff, Bool-cases, Option-cases, inl, inr, arith,
}
use secboot.Exec.{Result, ok, panic, bind_result}
use secboot.Exec.Results.{bind_value, bind_result_ok, ok_injective}
use secboot.Tpm.{Digest}
use secboot.Profile.{PcrProtectionProfile}
use secboot.SecureBoot.{
  EfiGuids, EfiImageLoadEventSource, firmware, shim, SecureBootDb, SecureBootPolicyGenBranch,
  Measuring, extend_profile, extend_measurement, events_of, with_event,
  extend_verification_measurement, contains_digest, has_verification_event_been_measured_by,
}
use secboot.SecureBoot.Authority.{
  X509, SecureBootAuthority, find_authority, databases, authority_digest, measure_once,
  measure_authority, with_profile, compute_and_extend_verification_measurement,
}

contains_digest-append :
    (digests : List Digest) (d : Digest) → contains_digest (digests ++ d ∷ []) d ≡ true
unfolding contains_digest
contains_digest-append [] d = rw ((bytes_equal_iff d d).1 refl) refl
contains_digest-append (e ∷ digests) d = ground (arith, contains_digest-append digests d)

-- What a successful extension leaves in a branch.
record Extended (b b' : SecureBootPolicyGenBranch) : Type 0 where
  new_profile : PcrProtectionProfile
  has_profile : b'.profile ≡ some new_profile
  same_db_set : b'.db_set ≡ b.db_set
  same_firmware : b'.firmware_verification_events ≡ b.firmware_verification_events
  same_shim : b'.shim_verification_events ≡ b.shim_verification_events

extend_measurement_ok :
    (m : Measuring) (b b' : SecureBootPolicyGenBranch) (d : Digest)
    → extend_measurement m b d ≡ ok b'
    → Extended b b'
unfolding extend_measurement
extend_measurement_ok m b b' d h = elim (Bool-cases (length b.sub_branches == 0)) [
  | inl e ↦ extended (rw e at h)
  | inr e ↦ not_panic (rw e at h)
]
  where
    not_panic : {A : Type 0} → ◌≡◌ {A = Result SecureBootPolicyGenBranch} panic (ok b') → A
    not_panic p = cc

    built : (p : PcrProtectionProfile) → record b { profile = some p } ≡ b' → Extended b b'
    built p e = record {
      new_profile = p;
      has_profile = sym (ap (λ (c : SecureBootPolicyGenBranch). c.profile) e);
      same_db_set = sym (ap (λ (c : SecureBootPolicyGenBranch). c.db_set) e);
      same_firmware =
          sym (ap (λ (c : SecureBootPolicyGenBranch). c.firmware_verification_events) e);
      same_shim = sym (ap (λ (c : SecureBootPolicyGenBranch). c.shim_verification_events) e);
    }

    extended :
        bind_result {B = SecureBootPolicyGenBranch}
            (extend_profile m b.profile d)
            (λ p. ok (record b { profile = some p }))
          ≡ ok b'
        → Extended b b'
    extended k =
        let (p, e1, e2) = bind_result_ok (extend_profile m b.profile d) _ k in
        built p (ok_injective e2)

measured_after :
    (m : Measuring) (b b' : SecureBootPolicyGenBranch) (d : Digest)
    (source : EfiImageLoadEventSource)
    → Extended (with_event source b d) b'
    → has_verification_event_been_measured_by b' d source ≡ true
unfolding has_verification_event_been_measured_by events_of with_event
measured_after m b b' d firmware e =
    rw e.same_firmware (contains_digest-append b.firmware_verification_events d)
measured_after m b b' d shim e =
    rw e.same_shim (contains_digest-append b.shim_verification_events d)

with_event-db_set :
    (source : EfiImageLoadEventSource) (b : SecureBootPolicyGenBranch) (d : Digest)
    → (with_event source b d).db_set ≡ b.db_set
unfolding with_event
with_event-db_set firmware b d = refl
with_event-db_set shim b d = refl

-- After a measurement, the branch cannot boot, or the digest is among those measured.
measure_once_again :
    (m : Measuring) (b b' : SecureBootPolicyGenBranch) (source : EfiImageLoadEventSource)
    (d : Digest)
    → measure_once m b source d ≡ ok b'
    → (b'.db_set ≡ b.db_set) × (measure_once m b' source d ≡ ok b')
unfolding measure_once extend_verification_measurement
measure_once_again m b b' source d h =
    elim (Bool-cases (has_verification_event_been_measured_by b d source)) [
      | inl e ↦ let same : b ≡ b' = ok_injective (rw e at h) in rw (← same) (refl, rw e refl)
      | inr e ↦
          let ext = extend_measurement_ok m (with_event source b d) b' d (rw e at h) in
          (
            ext.same_db_set ∙ with_event-db_set source b d,
            rw (measured_after m b b' d source ext) refl,
          )
    ]

with_profile-none :
    {A : Type 0} {o : Option A}
    → o ≡ none
    → (b : SecureBootPolicyGenBranch) (rest : Result SecureBootPolicyGenBranch)
    → with_profile o b rest ≡ ok b
unfolding with_profile
with_profile-none e b rest = ap (λ o. with_profile o b rest) e

with_profile-some :
    {A : Type 0} {o : Option A} {p : A}
    → o ≡ some p
    → (b : SecureBootPolicyGenBranch) (rest : Result SecureBootPolicyGenBranch)
    → with_profile o b rest ≡ rest
unfolding with_profile
with_profile-some e b rest = ap (λ o. with_profile o b rest) e

with_profile_same :
    {A : Type 0} (o : Option A) (b : SecureBootPolicyGenBranch)
    (rest : Result SecureBootPolicyGenBranch)
    → rest ≡ ok b
    → with_profile o b rest ≡ ok b
unfolding with_profile
with_profile_same none b rest h = refl
with_profile_same (some p) b rest h = h

measure_authority_again :
    (x : X509) (g : EfiGuids) (m : Measuring) (signers : List (X509.Certificate x))
    (source : EfiImageLoadEventSource)
    → (b b' : SecureBootPolicyGenBranch) → (dbs : List (Option SecureBootDb))
    → databases source b.db_set ≡ ok dbs
    → (found : Option SecureBootAuthority) → find_authority x g signers dbs ≡ found
    → measure_authority m b source found ≡ ok b'
    → compute_and_extend_verification_measurement x g m signers source b' ≡ ok b'
unfolding compute_and_extend_verification_measurement measure_authority with_profile
measure_authority_again x g m signers source b b' dbs hd none hf h =
    let same : record b { profile = none } ≡ b' = ok_injective h in rw (← same) refl
measure_authority_again x g m signers source b b' dbs hd (some a) hf h =
    let (d, e1, e2) = bind_result_ok (authority_digest m source a) _ h in
    let (same_set, again) = measure_once_again m b b' source d e2 in
    with_profile_same b'.profile b' _ (
      bind_value (ap (databases source) same_set ∙ hd) _
      ∙ (ap (measure_authority m b' source) hf
          ∙ (bind_value e1 (measure_once m b' source) ∙ again)))

-- A verification measurement that succeeds is made once: to make the same measurement in the
-- branch that it leaves succeeds and changes nothing.
pub compute_and_extend_verification_measurement_idem :
    (x : X509) (g : EfiGuids) (m : Measuring) (signers : List (X509.Certificate x))
    (source : EfiImageLoadEventSource)
    → (b b' : SecureBootPolicyGenBranch)
    → compute_and_extend_verification_measurement x g m signers source b ≡ ok b'
    → compute_and_extend_verification_measurement x g m signers source b' ≡ ok b'
unfolding compute_and_extend_verification_measurement
compute_and_extend_verification_measurement_idem x g m signers source b b' h =
    elim (Option-cases b.profile) [
      | inl e ↦
          let same : b ≡ b' = ok_injective (sym (with_profile-none e b _) ∙ h) in
          ap (λ c. compute_and_extend_verification_measurement x g m signers source c) (sym same)
          ∙ (with_profile-none e b _ ∙ ap ok same)
      | inr (p, e) ↦
          let (dbs, e1, e2) =
            bind_result_ok (databases source b.db_set) _ (sym (with_profile-some e b _) ∙ h) in
          measure_authority_again x g m signers source b b' dbs e1 _ refl e2
    ]
