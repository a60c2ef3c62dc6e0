-- ===== src/SecureBoot/Run.antt =====
-- secureboot_policy.go: the generator. All branches stand in one list, in the order in which they
-- are made, and a branch is known by its place.
use secboot.Prelude.{
  ℕ, zero, suc, List, [], ◌∷◌, ◌++◌, Bool, true, false, Option, none, some, length, get_elem?,
}
use secboot.Exec.{Result, ok, panic}
use secboot.Exec.Results.{◌>>=◌}
use secboot.Profile.{nil}
use secboot.SecureBoot.{EfiImageLoadEventSource, SecureBootPolicyGenBranch}

-- A load of an image, with the loads that may follow it, by their places in the memory.
pub record EfiImageLoadEvent : Type 0 where
  pub source : EfiImageLoadEventSource
  pub image : ℕ
  pub next : List ℕ

-- The load events in the memory, by their places, which stand for the pointers to them.
abbrev pub LoadEvents : Type 0
LoadEvents = ℕ → EfiImageLoadEvent

abbrev pub Branches : Type 0
Branches = List SecureBootPolicyGenBranch

-- A call of a method on the branch at a place.
unfoldable pub on_branch :
    (SecureBootPolicyGenBranch → Result SecureBootPolicyGenBranch) → Branches → ℕ → Result Branches
on_branch f [] i = panic
on_branch f (b ∷ branches) zero = do b' ← f b; ok (b' ∷ branches)
on_branch f (b ∷ branches) (suc i) = do branches' ← on_branch f branches i; ok (b ∷ branches')

unfoldable pub on_branches :
    (SecureBootPolicyGenBranch → Result SecureBootPolicyGenBranch)
    → Branches
    → List ℕ
    → Result Branches
on_branches f branches [] = ok branches
on_branches f branches (i ∷ ids) = do
  branches' ← on_branch f branches i
  on_branches f branches' ids

unfoldable pub new_branch : SecureBootPolicyGenBranch → SecureBootPolicyGenBranch
new_branch b = record b { profile = some nil; sub_branches = [] }

unfoldable pub with_sub_branch : ℕ → SecureBootPolicyGenBranch → Result SecureBootPolicyGenBranch
with_sub_branch c b = ok (record b { sub_branches = b.sub_branches ++ c ∷ [] })

-- `branch`, with the branch itself at hand.
unfoldable pub branch_of : Branches → ℕ → Option SecureBootPolicyGenBranch → Result (Branches × ℕ)
branch_of branches i none = panic
branch_of branches i (some b) = do
  branches' ← on_branch (with_sub_branch (length branches)) branches i
  ok (branches' ++ new_branch b ∷ [], length branches)

unfoldable pub branch : Branches → ℕ → Result (Branches × ℕ)
branch branches i = branch_of branches i (get_elem? branches i)

unfoldable pub is_bootable : Option SecureBootPolicyGenBranch → Bool
is_bootable none = false
is_bootable (some b) = elim b.profile [ none ↦ false | some p ↦ true ]

-- A sub-branch of each branch, or of each that can boot.
unfoldable pub branch_each : (ℕ → Branches → Bool) → Branches → List ℕ → Result (Branches × List ℕ)
branch_each wanted branches [] = ok (branches, [])
branch_each wanted branches (i ∷ ids) = elim (wanted i branches) [
  | false ↦ branch_each wanted branches ids
  | true ↦ (do
    (branches1, c) ← branch branches i
    (branches2, cs) ← branch_each wanted branches1 ids
    ok (branches2, c ∷ cs))
]

unfoldable pub bootable_at : ℕ → Branches → Bool
bootable_at i branches = is_bootable (get_elem? branches i)

-- `sbLoadEventAndBranches`
abbrev pub SbLoadEventAndBranches : Type 0
SbLoadEventAndBranches = ℕ × List ℕ

-- A queue entry for each of several events, each with branches of its own.
unfoldable pub fork :
    (ℕ → Branches → Bool)
    → Branches
    → List ℕ
    → List ℕ
    → Result (Branches × List SbLoadEventAndBranches)
fork wanted branches ids [] = ok (branches, [])
fork wanted branches ids (e ∷ rest) = do
  (branches1, cs) ← branch_each wanted branches ids
  (branches2, more) ← fork wanted branches1 ids rest
  ok (branches2, (e, cs) ∷ more)

-- The entries that follow an event: one event goes on in the same branches.
unfoldable pub follow :
    (ℕ → Branches → Bool)
    → Branches
    → List ℕ
    → List ℕ
    → Result (Branches × List SbLoadEventAndBranches)
follow wanted branches ids (e ∷ []) = ok (branches, (e, ids) ∷ [])
follow wanted branches ids events = fork wanted branches ids events
