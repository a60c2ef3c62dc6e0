-- ===== src/SecureBoot/Ends/Cycle.antt =====
-- The generator's loop over the load events, where an event leads back to itself.
use secboot.Prelude.{ℕ, zero, suc, ◌≡◌, ◌≢◌, sym, ap, List, [], ◌∷◌}
use secboot.Exec.{ok, wrap, map_error}
use secboot.Exec.Results.{bind_result_ok, ok_injective}
use secboot.SecureBoot.{EfiGuids, Measuring}
use secboot.SecureBoot.PreOs.{EfiFiles}
use secboot.SecureBoot.Authority.{X509}
use secboot.SecureBoot.Images.{EfiImages, Pkcs7}
use secboot.SecureBoot.Run.{LoadEvents, Branches, bootable_at, SbLoadEventAndBranches, follow}
use secboot.SecureBoot.Generate.{process_os_load_event, process_load_events}

module _ (m : Measuring) (g : EfiGuids) (files : EfiFiles) (x : X509) (p : Pkcs7 x)
    (images : EfiImages) (store : LoadEvents) (i : ℕ) where
  follow-own :
      (branches branches' : Branches) (ids : List ℕ) (more : List SbLoadEventAndBranches)
      → (store i).next ≡ i ∷ []
      → follow bootable_at branches ids (store i).next ≡ ok (branches', more)
      → more ≡ (i, ids) ∷ []
  unfolding follow
  follow-own branches branches' ids more own h =
      ap (λ (t : Branches × List SbLoadEventAndBranches). t.1) (sym (ok_injective (rw own at h)))

  -- The entry at the front of the queue, or put off.
  rounds_end :
      (own : (store i).next ≡ i ∷ []) (fuel : ℕ) (ids : List ℕ)
      → ((branches branches' : Branches)
          → process_load_events m g files x p images store fuel ((i, ids) ∷ []) [] branches
            ≢ ok branches')
        × ((branches branches' : Branches)
            → process_load_events m g files x p images store fuel [] ((i, ids) ∷ []) branches
              ≢ ok branches')
  unfolding process_load_events
  rounds_end own zero ids = (λ branches branches' h. cc, λ branches branches' h. cc)
  rounds_end own (suc fuel) ids =
      let (front, put_off) = rounds_end own fuel ids in
      (
        λ branches branches' h.
            let (branches1, e1, h1) =
              bind_result_ok
                (map_error (wrap "cannot process OS load event") (
                  process_os_load_event m g files x p images branches ids (store i).source
                    (store i).image))
                _ h in
            let ((branches2, more), e2, h2) =
              bind_result_ok (follow bootable_at branches1 ids (store i).next) _ h1 in
            put_off branches2 branches' (rw (follow-own branches1 branches2 ids more own e2) at h2),
        λ branches branches' h. front branches branches' h,
      )

  -- A load event that is its own only next event: whatever number of rounds the generator's loop gets,
  -- it returns no branches.
  pub process_load_events-own_next :
      (own : (store i).next ≡ i ∷ []) (fuel : ℕ) (ids : List ℕ) (branches branches' : Branches)
      → process_load_events m g files x p images store fuel ((i, ids) ∷ []) [] branches
        ≢ ok branches'
  process_load_events-own_next own fuel ids branches branches' =
      (rounds_end own fuel ids).0 branches branches'
