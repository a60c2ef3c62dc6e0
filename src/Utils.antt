-- ===== src/Utils.antt =====
-- utils.go: the helpers on digest lists.
use mathlib.Core.Logic.Or
use mathlib.Core.List.{Mem, mem-cons, not-mem-nil}
use mathlib.Core.Bool.{Bool-set}
use secboot.Prelude.{
  ap, sym, ℕ, suc, zero, ◌≡◌, Bool, true, false, ◌||◌, List, [], ◌∷◌, some, ◌↔◌, bytes_equal,
  bytes_equal_iff, arith, get_elem?, Bool-cases, inl, inr,
}
use secboot.Tpm.{Digest}

unfoldable pub digest_list_contains : List Digest → Digest → Bool
unfolding bytes_equal
digest_list_contains [] digest = false
digest_list_contains (d ∷ list) digest = bytes_equal d digest || digest_list_contains list digest

-- A digest at a known place is found.
pub digest_list_contains-get_elem? :
    (list : List Digest) (k : ℕ) (d : Digest)
    → get_elem? list k ≡ some d
    → digest_list_contains list d ≡ true
unfolding digest_list_contains
digest_list_contains-get_elem? [] k d h = ground arith
digest_list_contains-get_elem? (x ∷ xs) zero d h = ground (arith, bytes_equal_iff x d)
digest_list_contains-get_elem? (x ∷ xs) (suc k) d h =
    ground (arith, digest_list_contains-get_elem? xs k d h)

-- A digest that is found has a place.
pub digest_list_contains_place :
    (list : List Digest) (d : Digest)
    → digest_list_contains list d ≡ true
    → (k : ℕ) × (get_elem? list k ≡ some d)
unfolding digest_list_contains
digest_list_contains_place [] d h = absurd (ground arith)
digest_list_contains_place (x ∷ xs) d h = elim (Bool-cases (bytes_equal x d)) [
  | inl e ↦ (0, ground (arith, bytes_equal_iff x d))
  | inr e ↦ let (k, p) = digest_list_contains_place xs d (ground arith) in (suc k, p)
]

contains_tail :
    (x : Digest) (xs : List Digest) (d : Digest)
    → digest_list_contains xs d ≡ true
    → digest_list_contains (x ∷ xs) d ≡ true
unfolding digest_list_contains
contains_tail x xs d h = ground arith

-- `digestListContains` decides membership.
pub digest_list_contains_iff :
    (list : List Digest) (d : Digest) → (digest_list_contains list d ≡ true) ↔ Mem d list
digest_list_contains_iff list d = (found list, member list)
  where
    place : (xs : List Digest) (k : ℕ) → get_elem? xs k ≡ some d → Mem d xs
    place [] k h = absurd (ground arith)
    place (x ∷ xs) zero h = mem-cons.1 (Or.inl (ground arith))
    place (x ∷ xs) (suc k) h = mem-cons.1 (Or.inr (place xs k h))

    found : (xs : List Digest) → digest_list_contains xs d ≡ true → Mem d xs
    found xs h = let (k, p) = digest_list_contains_place xs d h in place xs k p

    member : (xs : List Digest) → Mem d xs → digest_list_contains xs d ≡ true
    member [] m = absurd (not-mem-nil m)
    member (x ∷ xs) m =
        Or.elim (Bool-set _ true) (mem-cons.0 m)
          (λ e. digest_list_contains-get_elem? (x ∷ xs) 0 d (ap some (sym e)))
          (λ r. contains_tail x xs d (member xs r))
