-- ===== src/SecureBoot/Ends/Loads.antt =====
-- That the generator's loop over the load events ends, given enough fuel.
use secboot.Prelude.{
  ℕ, zero, suc, ◌+◌, ◌*◌, ◌≤◌, ◌≡◌, ◌≢◌, sym, ap, ◌∙◌, List, [], ◌∷◌, ◌++◌, Bool, true, false,
  arith,
}
use secboot.Exec.{ok, out_of_fuel}
use secboot.Exec.Results.{
  bind_result_ok, ok_injective, Finishes, Finishes-ok, Finishes-bind, Finishes-map_error,
}
use secboot.SecureBoot.{
  EfiGuids, EfiImageLoadEventSource, Measuring, process_shim_executable_launch,
}
use secboot.SecureBoot.PreOs.{EfiFiles}
use secboot.SecureBoot.Authority.{X509, compute_and_extend_verification_measurement}
use secboot.SecureBoot.Images.{
  EfiImages, Pkcs7, is_shim_executable, read_shim_vendor_cert, image_signers,
}
use secboot.SecureBoot.Run.{
  LoadEvents, Branches, on_branches, bootable_at, SbLoadEventAndBranches, branch_each, fork, follow,
}
use secboot.SecureBoot.Generate.{launch_shim, process_os_load_event, process_load_events}
use secboot.SecureBoot.Ends.{
  Returns, Finishes-on_branches, Finishes-follow,
  Finishes-compute_and_extend_verification_measurement,
}
use secboot.SecureBoot.Ends.Below.{total, IsAcyclic, met_from, met_from-next}
use secboot.SecureBoot.Ends.Signers.{
  Finishes-is_shim_executable, Finishes-read_shim_vendor_cert, Finishes-image_signers,
}

-- The load events that are met from the entries of a queue.
unfoldable pub queued : (ℕ → ℕ) → List SbLoadEventAndBranches → ℕ
queued f [] = 0
queued f ((e, ids) ∷ queue) = f e + queued f queue

queued-append :
    (f : ℕ → ℕ) (queue later : List SbLoadEventAndBranches)
    → queued f (queue ++ later) ≡ queued f queue + queued f later
unfolding queued
queued-append f [] later = omega arith
queued-append f ((e, ids) ∷ queue) later = omega (arith, queued-append f queue later)

module _ (f : ℕ → ℕ) (wanted : ℕ → Branches → Bool) where
  queued-fork :
      (events : List ℕ) (branches : Branches) (ids : List ℕ) (branches' : Branches)
      (more : List SbLoadEventAndBranches)
      → fork wanted branches ids events ≡ ok (branches', more)
      → queued f more ≡ total f events
  unfolding fork queued total
  queued-fork [] branches ids branches' more h =
      ap (λ (t : Branches × List SbLoadEventAndBranches). queued f t.1) (sym (ok_injective h))
  queued-fork (e ∷ rest) branches ids branches' more h =
      let ((b1, cs), e1, h1) = bind_result_ok (branch_each wanted branches ids) _ h in
      let ((b2, later), e2, h2) = bind_result_ok (fork wanted b1 ids rest) _ h1 in
      ap (λ (t : Branches × List SbLoadEventAndBranches). queued f t.1) (sym (ok_injective h2))
      ∙ ap (λ n. f e + n) (queued-fork rest b1 ids b2 later e2)

  pub queued-follow :
      (events : List ℕ) (branches : Branches) (ids : List ℕ) (branches' : Branches)
      (more : List SbLoadEventAndBranches)
      → follow wanted branches ids events ≡ ok (branches', more)
      → queued f more ≡ total f events
  unfolding follow queued total
  queued-follow [] branches ids branches' more h = queued-fork [] branches ids branches' more h
  queued-follow (e ∷ []) branches ids branches' more h =
      ap (λ (t : Branches × List SbLoadEventAndBranches). queued f t.1) (sym (ok_injective h))
  queued-follow (e ∷ e' ∷ rest) branches ids branches' more h =
      queued-fork (e ∷ e' ∷ rest) branches ids branches' more h

module _ (m : Measuring) (g : EfiGuids) (files : EfiFiles) (x : X509) (p : Pkcs7 x)
    (images : EfiImages) (returns : Returns m x p images) where
  Finishes-process_os_load_event :
      (branches : Branches) (ids : List ℕ) (source : EfiImageLoadEventSource) (image : ℕ)
      → Finishes (process_os_load_event m g files x p images branches ids source image)
  unfolding process_os_load_event launch_shim
  Finishes-process_os_load_event branches ids source image =
      Finishes-bind _ _ (Finishes-map_error _ (images.open_image image) (returns.opens image))
        λ _ _.
          Finishes-bind _ _
            (Finishes-map_error _ (is_shim_executable images image)
              (Finishes-is_shim_executable m x p images returns image))
            λ is_shim _.
              Finishes-bind _ _
                (Finishes-map_error _ (image_signers x p images image)
                  (Finishes-image_signers m x p images returns image))
                λ signers _.
                  Finishes-bind _ _
                    (Finishes-map_error _ (on_branches _ branches ids) (
                      Finishes-on_branches
                        (compute_and_extend_verification_measurement x g m signers source)
                        (Finishes-compute_and_extend_verification_measurement x g m returns.hashes
                          signers source)
                        branches ids))
                    λ branches' _. go is_shim branches'
    where
      go : (b : Bool) (bs : Branches) → Finishes (launch_shim m g files x p images b bs ids image)
      go false bs = Finishes-ok bs
      go true bs =
          Finishes-bind _ _
            (Finishes-map_error _ _ (
              Finishes-map_error _ (read_shim_vendor_cert images image)
                (Finishes-read_shim_vendor_cert m x p images returns image)))
            λ cert _.
              Finishes-on_branches (λ b. ok (process_shim_executable_launch g cert b))
                (λ b. Finishes-ok _) bs ids

  module _ (store : LoadEvents) (height : ℕ → ℕ) (acyclic : IsAcyclic store height) where
    -- The rounds that are needed: two for each load event, and one to take up those put off.
    unfoldable needed : List SbLoadEventAndBranches → List SbLoadEventAndBranches → ℕ
    needed [] [] = 0
    needed [] (entry ∷ later) = 2 * queued (met_from store height) (entry ∷ later) + 1
    needed (entry ∷ queue) later =
        2 * (queued (met_from store height) (entry ∷ queue) + queued (met_from store height) later)

    needed_le :
        (queue later : List SbLoadEventAndBranches)
        → needed queue later
          ≤ 2 * (queued (met_from store height) queue + queued (met_from store height) later) + 1
    unfolding needed queued
    needed_le [] [] = omega arith
    needed_le [] (entry ∷ later) = omega arith
    needed_le (entry ∷ queue) later = omega arith

    Finishes-loop :
        (fuel : ℕ) (queue later : List SbLoadEventAndBranches) (branches : Branches)
        → needed queue later ≤ fuel
        → Finishes (process_load_events m g files x p images store fuel queue later branches)
    unfolding process_load_events needed queued
    Finishes-loop zero [] [] branches h = Finishes-ok branches
    Finishes-loop zero [] (entry ∷ later) branches h = omega arith
    Finishes-loop zero ((i, ids) ∷ queue) later branches h =
        omega (arith, met_from-next store height acyclic i)
    Finishes-loop (suc fuel) [] [] branches h = Finishes-ok branches
    Finishes-loop (suc fuel) [] (entry ∷ later) branches h =
        Finishes-loop fuel (entry ∷ later) [] branches (omega arith)
    Finishes-loop (suc fuel) ((i, ids) ∷ queue) later branches h =
        Finishes-bind _ _
          (Finishes-map_error _
            (process_os_load_event m g files x p images branches ids (store i).source
              (store i).image)
            (Finishes-process_os_load_event branches ids (store i).source (store i).image))
          λ branches1 _.
            Finishes-bind (follow bootable_at branches1 ids (store i).next) _
              (Finishes-follow bootable_at (store i).next branches1 ids)
              λ (branches2, more) e. Finishes-loop fuel queue (later ++ more) branches2 (
                omega (
                  arith,
                  needed_le queue (later ++ more),
                  queued-append (met_from store height) later more,
                  met_from-next store height acyclic i,
                  queued-follow (met_from store height) bootable_at (store i).next branches1 ids
                      branches2 more e,
                ))

    -- When the pointers between the load events form no cycle, and the calls of other packages return:
    -- the generator's loop over the load events that follow from the sequences ends, given two
    -- rounds for each load event that is met from the sequences, counted again when it is met again.
    pub Finishes-process_load_events :
        (wanted : ℕ → Branches → Bool) (sequences : List ℕ) (roots branches : Branches)
        (ids : List ℕ) (queue : List SbLoadEventAndBranches) (fuel : ℕ)
        → follow wanted roots ids sequences ≡ ok (branches, queue)
        → 2 * total (met_from store height) sequences ≤ fuel
        → process_load_events m g files x p images store fuel queue [] branches ≢ out_of_fuel
    unfolding needed queued
    Finishes-process_load_events wanted sequences roots branches ids queue fuel h enough =
        Finishes-loop fuel queue [] branches (
          go queue
            (queued-follow (met_from store height) wanted sequences roots ids branches queue h))
      where
        go :
            (q : List SbLoadEventAndBranches)
            → queued (met_from store height) q ≡ total (met_from store height) sequences
            → needed q [] ≤ fuel
        go [] e = omega arith
        go (entry ∷ q) e = omega (arith, enough)
