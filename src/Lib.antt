-- ===== src/Lib.antt =====
-- secboot: sealing disk keys to a TPM, behind policies over PCR values.
--
-- Parts and files.
--   Prelude     lists, tests and numbers that every part uses.
--   Exec        errors, results and actions over the TPM's state (Exec/Results: chains of
--               results; Exec/Ends: actions that end; Exec/Steps: their steps; Exec/Posts and
--               Exec/Counts: what they leave in the state and what they leave open in it).
--   Tpm         what the code uses of the go-tpm2 package, as types and records of functions.
--   Utils       utils.go: digest lists.
--   Profile     pcr_profile.go: a profile is a tree of instructions. `computePCRValues` traverses it
--               with an iterator and a stack of contexts (Profile); Profile/Compute has the loop over
--               a whole profile and `computePCRDigests`; Profile/Meaning says what a profile means.
--   Policy/Or   policy.go: `computePolicyORData` turns the digests of a PCR policy into a tree for
--               TPM2_PolicyOR, kept as a slice of nodes (Policy/Or), and `executePolicyORAssertions`
--               looks up the session's digest in its leaves and climbs to the root
--               (Policy/Or/Execute). The digests come from `computePCRDigests`.
--   Policy/Session  policy.go: the data of a policy session and its errors; `executePolicySession`
--               (Policy/Session/Execute), which uses `executePolicyORAssertions` and is what
--               `UnsealFromTPM` runs before it unseals.
--   RecoveryKey crypt.go: printing and reading recovery keys.
--   Activation  crypt.go: the passwords, the options and the reasons (Activation), the loops over
--               tries with a recovery key (Activation/Recovery) and with a PIN (Activation/TpmKey),
--               and the public functions (Activation/Volume). What is read as a recovery key goes
--               through `parse_recovery_key`.
--   Unseal      unseal.go: `UnsealFromTPM`, with the loading of the object from keydata.go. It runs
--               `execute_policy_session` of Policy/Session. What it makes of the TPM's errors decides the
--               reason that Activation gives: Unseal/Runs has the runs that reach the session,
--               Unseal/Reasons the reason of each error, Activation/Fails the failures of a try, and
--               Unseal/Blame the whole way from the TPM to the reason.
--   SigDb       secureboot_policy.go: EFI signature databases as bytes. Certificates and lists
--               (SigDb), whole databases and `computeDbUpdate` (SigDb/Database).
--   SecureBoot  secureboot_policy.go and efi.go: the secure boot policy. A branch of the policy and
--               its measurements (SecureBoot), the events of the log (SecureBoot/Events), the checks
--               on them (SecureBoot/Log), the pending updates that sbkeysync lists
--               (SecureBoot/Updates), the events before the operating system with the updates of
--               SigDb (SecureBoot/PreOs), the search for an image's authority (SecureBoot/Authority),
--               what is read from an image (SecureBoot/Images), the branches that the load sequences
--               make (SecureBoot/Run) and `AddEFISecureBootPolicyProfile` (SecureBoot/Generate). The
--               outcome is a profile of Profile.
--   SnapModel   snapmodel_policy.go: the digest of a device model, its profile and its measurement
--               (SnapModel); SnapModel/Computed relates the profile to the digests.
--   EfiStub     sdefistub_policy.go: the profile for kernel command lines. Both add a branch for each
--               of several digests, whose values are in Profile/Variants.
--   BootManager efibootmanager_policy.go: the digest of a PE image (BootManager) and the branches of
--               `AddEFIBootManagerProfile` (BootManager/Generate), over the load events of SecureBoot.
--
-- Correspondence. `EFIImageLoadEvent` is a record in a memory, and a pointer to one is its place
-- there; nil among the `Next` of an event is not modelled. A slice is a list, a Go `int` or
-- `uint32` a natural number, with `% 2 ^ 32` at the conversion to `uint32`. A map of PCR values is
-- a function. An action returns its outcome beside the new state; an outcome is a value, an error,
-- a panic, or `out_of_fuel` where the model would have cut a loop short. An error keeps the text
-- of its format string without the values that the source prints into it. A profile's instructions
-- are those at the time of the computation: a profile that a caller changes while it is used, or
-- that contains itself, is not modelled. A context's parent is known by the number of contexts
-- below it on the stack, since a parent is always on the stack of its sub-branches.
-- `computePolicyORData` is modelled for algorithms that go-tpm2 supports; for any other the
-- source's trial policy is nil. `xerrors.Is` and `xerrors.As` look through the chain of wrapped
-- errors (`in_chain`). Passwords and recovery keys are lists of bytes.
-- `AddEFISecureBootPolicyProfile` and `AddEFIBootManagerProfile` change the caller's profile; here
-- they return it, and nothing is said of it after an error.
--
-- Fuel. `or_loop` has one round more than there are digests, and each round makes a node. `climb`
-- has one round more than there are nodes, and each step goes to a later node. `compute_loop` has
-- `rounds`, one for each instruction and each end of a profile.
-- `decode_lists`, `filter_update` and `in_database` have one round more than there are bytes, since
-- a list takes 28 bytes; `read_signers` too, since a certificate takes 8. `process_load_events` and
-- `process_images` take their fuel from the caller, since load events are records in a memory whose
-- pointers may form a cycle, and then the source's loops do not end. Without a cycle two rounds for
-- each load event are enough, one of them to take up the events that were put off
-- (SecureBoot/Ends).
--
-- Parameters. The machine that activation runs on is `Platform`: the terminal, systemd-cryptsetup,
-- the kernel's keyring, the key data file and the calls of the TPM; `Tracks` states which of them
-- may change whether the volume is active. `UnsealTpm` and `PolicyTpm` are the TPM as unsealing and a
-- policy session see it, where `use_session` makes a session the one that the commands of a policy
-- session act on; `TracksHandles` and `TracksUnseal` list what is open in it, the latest first, and
-- state which commands add to the list and that a flush of the latest handle takes it off.
-- `X509`, `Pkcs7` and `EfiImages` are the parsers of certificates, signatures and images, `EfiFiles`
-- the files that are read, `EfiGuids` and `Measuring` the constants and the encoding of the event log
-- package, `KeySync` the program sbkeysync; the log comes parsed. `SnapHashing`, `SnapTpm` and
-- `StubEvents` are the hashes, the decoder, the TPM and the encoding of the other profiles, `PeImages`
-- the parser of PE images on an image's bytes. `Returns` states that those calls return.
-- go-tpm2's trial policies, its functions on PCR values, the TPM's session commands and
-- its PCR reads are records of functions; what the proofs need of them is stated as hypotheses,
-- `IsPolicySession` and `SetsOneValue`.
--
-- Not modelled. The parts listed in no file above: the files on disk, the LUKS2 commands, key sealing,
-- changes of the PIN, provisioning, the connection to the TPM with its EK certificates, the copy of
-- the PE parser, and the printing of profiles.
pub mod Prelude
pub mod Exec
pub mod Tpm
pub mod Utils
pub mod Profile
pub mod Policy
pub mod RecoveryKey
pub mod Activation
pub mod Unseal
pub mod SigDb
pub mod SecureBoot
pub mod SnapModel
pub mod EfiStub
pub mod BootManager
