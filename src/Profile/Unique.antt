-- ===== src/Profile/Unique.antt =====
-- The loops of `computePCRDigests`: one selection for all branches, and no digest twice.
use mathlib.Core.Path.{subst}
use secboot.Prelude.{
  ◌≡◌, sym, List, [], ◌∷◌, ◌++◌, true, false, Bool-cases, inl, inr, arith, bytes_equal,
  bytes_equal_iff, ◌⊎◌,
}
use secboot.Tpm.{Digest}
use secboot.Profile.Compute.{found_in, unique_digests}

-- In a list, by recursion, so that the proofs can split on it.
abbrev pub In : Digest → List Digest → Type 0
In d [] = ⊥
In d (u ∷ rest) = (d ≡ u) ⊎ In d rest

-- No two places hold the same digest.
abbrev pub AllDistinct : List Digest → Type 0
AllDistinct [] = Unit
AllDistinct (d ∷ rest) = (¬ In d rest) × AllDistinct rest

found_in-true : (d : Digest) (unique : List Digest) → found_in d unique ≡ true → In d unique
unfolding found_in
found_in-true d [] h = cc
found_in-true d (u ∷ unique) h = elim (Bool-cases (bytes_equal d u)) [
  | inl e ↦ inl ((bytes_equal_iff d u).0 e)
  | inr e ↦ inr (found_in-true d unique (ground arith))
]

found_in-false : (d : Digest) (unique : List Digest) → found_in d unique ≡ false → ¬ In d unique
unfolding found_in
found_in-false d [] h m = m
found_in-false d (u ∷ unique) h (inl e) = ground (arith, bytes_equal_iff d u)
found_in-false d (u ∷ unique) h (inr m) = found_in-false d unique (ground arith) m

pub In-append : (d : Digest) (xs ys : List Digest) → In d (xs ++ ys) → In d xs ⊎ In d ys
In-append d [] ys m = inr m
In-append d (x ∷ xs) ys (inl e) = inl (inl e)
In-append d (x ∷ xs) ys (inr m) = elim (In-append d xs ys m) [ inl a ↦ inl (inr a) | inr b ↦ inr b ]

pub In-append_left : (d : Digest) (xs ys : List Digest) → In d xs → In d (xs ++ ys)
In-append_left d [] ys m = absurd m
In-append_left d (x ∷ xs) ys (inl e) = inl e
In-append_left d (x ∷ xs) ys (inr m) = inr (In-append_left d xs ys m)

pub In-append_right : (d : Digest) (xs ys : List Digest) → In d ys → In d (xs ++ ys)
In-append_right d [] ys m = m
In-append_right d (x ∷ xs) ys m = inr (In-append_right d xs ys m)

AllDistinct-append :
    (xs : List Digest) (d : Digest) → AllDistinct xs → ¬ In d xs → AllDistinct (xs ++ d ∷ [])
AllDistinct-append [] d h new = (λ m. m, tt)
AllDistinct-append (x ∷ xs) d h new = (
  λ m. elim (In-append x xs (d ∷ []) m) [
    | inl old ↦ h.0 old
    | inr last ↦ elim last [ inl e ↦ new (inl (sym e)) | inr none' ↦ none' ]
  ],
  AllDistinct-append xs d h.1 (λ m. new (inr m)),
)

-- What is kept of the digests seen so far and those to come.
pub unique_digests-AllDistinct :
    (unique digests : List Digest)
    → AllDistinct unique
    → AllDistinct (unique_digests unique digests)
unfolding unique_digests
unique_digests-AllDistinct unique [] h = h
unique_digests-AllDistinct unique (d ∷ digests) h = elim (Bool-cases (found_in d unique)) [
  | inl e ↦ rw e (unique_digests-AllDistinct unique digests h)
  | inr e ↦ rw e (
      unique_digests-AllDistinct (unique ++ d ∷ []) digests
        (AllDistinct-append unique d h (found_in-false d unique e)))
]

pub unique_digests_sound :
    (unique digests : List Digest) (x : Digest)
    → In x (unique_digests unique digests)
    → In x unique ⊎ In x digests
unfolding unique_digests
unique_digests_sound unique [] x m = inl m
unique_digests_sound unique (d ∷ digests) x m = elim (Bool-cases (found_in d unique)) [
  | inl e ↦ elim (unique_digests_sound unique digests x (rw e at m)) [
    | inl a ↦ inl a
    | inr b ↦ inr (inr b)
  ]
  | inr e ↦ elim (unique_digests_sound (unique ++ d ∷ []) digests x (rw e at m)) [
    | inl a ↦ elim (In-append x unique (d ∷ []) a) [
      | inl old ↦ inl old
      | inr last ↦ elim last [ inl p ↦ inr (inl p) | inr none' ↦ absurd none' ]
    ]
    | inr b ↦ inr (inr b)
  ]
]

pub unique_digests_complete :
    (unique digests : List Digest) (x : Digest)
    → In x unique ⊎ In x digests
    → In x (unique_digests unique digests)
unfolding unique_digests
unique_digests_complete unique [] x (inl m) = m
unique_digests_complete unique [] x (inr m) = absurd m
unique_digests_complete unique (d ∷ digests) x m = elim (Bool-cases (found_in d unique)) [
  | inl e ↦ rw e (unique_digests_complete unique digests x (kept (found_in-true d unique e) m))
  | inr e ↦ rw e (unique_digests_complete (unique ++ d ∷ []) digests x (added m))
]
  where
    kept : In d unique → In x unique ⊎ In x (d ∷ digests) → In x unique ⊎ In x digests
    kept old (inl a) = inl a
    kept old (inr (inl p)) = inl (subst (λ y. In y unique) (sym p) old)
    kept old (inr (inr b)) = inr b

    added : In x unique ⊎ In x (d ∷ digests) → In x (unique ++ d ∷ []) ⊎ In x digests
    added (inl a) = inl (In-append_left x unique (d ∷ []) a)
    added (inr (inl p)) = inl (In-append_right x unique (d ∷ []) (inl p))
    added (inr (inr b)) = inr b
