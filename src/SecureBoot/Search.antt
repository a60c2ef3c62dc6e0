-- ===== src/SecureBoot/Search.antt =====
-- The search for an authority, as the first that authenticates among all candidates.
use secboot.Prelude.{
  List, [], ◌∷◌, ◌++◌, Bool-cases, ◌≡◌, refl, Option, none, some, if◌then◌else◌, inl, inr,
}
use secboot.SigDb.Database.{EfiSignatureData}
use secboot.SecureBoot.{EfiGuids, SecureBootDb}
use secboot.SecureBoot.Authority.{
  X509, SecureBootAuthority, or_later, authenticates, find_in_signatures, find_in_dbs,
  find_authority,
}

module _ (x : X509) (g : EfiGuids) where
  -- A signer of the image, and an authority that may authenticate it.
  abbrev pub Candidate : Type 0
  Candidate = X509.Certificate x × SecureBootAuthority

  unfoldable pub signature_candidates :
      X509.Certificate x → SecureBootDb → List EfiSignatureData → List Candidate
  signature_candidates signer db [] = []
  signature_candidates signer db (sig ∷ sigs) =
      (signer, record { signature = sig; source = db }) ∷ signature_candidates signer db sigs

  unfoldable pub db_candidates : X509.Certificate x → List (Option SecureBootDb) → List Candidate
  db_candidates signer [] = []
  db_candidates signer (none ∷ dbs) = db_candidates signer dbs
  db_candidates signer (some db ∷ dbs) =
      signature_candidates signer db db.signatures ++ db_candidates signer dbs

  -- All candidates, signer by signer, each with the databases in order.
  unfoldable pub candidates :
      List (X509.Certificate x) → List (Option SecureBootDb) → List Candidate
  candidates [] dbs = []
  candidates (signer ∷ signers) dbs = db_candidates signer dbs ++ candidates signers dbs

  unfoldable pub first_authentic : List Candidate → Option SecureBootAuthority
  first_authentic [] = none
  first_authentic ((signer, a) ∷ more) =
      if authenticates x g signer a.signature then some a else first_authentic more

  first_authentic-append :
      (cs ds : List Candidate)
      → first_authentic (cs ++ ds) ≡ or_later (first_authentic cs) (first_authentic ds)
  unfolding first_authentic or_later
  first_authentic-append [] ds = refl
  first_authentic-append ((signer, a) ∷ cs) ds =
      elim (Bool-cases (authenticates x g signer a.signature)) [
        | inl e ↦ rw e refl
        | inr e ↦ rw e (first_authentic-append cs ds)
      ]

  first_authentic-signature_candidates :
      (signer : X509.Certificate x) (db : SecureBootDb) (sigs : List EfiSignatureData)
      → first_authentic (signature_candidates signer db sigs)
        ≡ find_in_signatures x g signer db sigs
  unfolding first_authentic signature_candidates find_in_signatures
  first_authentic-signature_candidates signer db [] = refl
  first_authentic-signature_candidates signer db (sig ∷ sigs) =
      elim (Bool-cases (authenticates x g signer sig)) [
        | inl e ↦ rw e refl
        | inr e ↦ rw e (first_authentic-signature_candidates signer db sigs)
      ]

  first_authentic-db_candidates :
      (signer : X509.Certificate x) (dbs : List (Option SecureBootDb))
      → first_authentic (db_candidates signer dbs) ≡ find_in_dbs x g signer dbs
  unfolding first_authentic db_candidates find_in_dbs
  first_authentic-db_candidates signer [] = refl
  first_authentic-db_candidates signer (none ∷ dbs) = first_authentic-db_candidates signer dbs
  first_authentic-db_candidates signer (some db ∷ dbs) =
      rw
        (
          first_authentic-append (signature_candidates signer db db.signatures)
              (db_candidates signer dbs),
          first_authentic-signature_candidates signer db db.signatures,
          first_authentic-db_candidates signer dbs,
        )
        refl

  -- The search over the signers and the databases finds the first authority, among all candidates in
  -- the order of the signers, then of the databases, then of the signatures, that authenticates the
  -- signer, and none if there is none.
  pub find_authority-first_authentic :
      (signers : List (X509.Certificate x)) (dbs : List (Option SecureBootDb))
      → find_authority x g signers dbs ≡ first_authentic (candidates signers dbs)
  unfolding first_authentic candidates find_authority
  find_authority-first_authentic [] dbs = refl
  find_authority-first_authentic (signer ∷ signers) dbs =
      rw
        (
          first_authentic-append (db_candidates signer dbs) (candidates signers dbs),
          first_authentic-db_candidates signer dbs,
          find_authority-first_authentic signers dbs,
        )
        refl
