-- ===== src/SecureBoot/Ends/Below.antt =====
-- The load events that are met from a load event, where the pointers between them form no cycle.
use secboot.Prelude.{ℕ, zero, suc, ◌+◌, ◌<◌, ◌≡◌, refl, ap, List, [], ◌∷◌, arith}
use secboot.SecureBoot.Run.{LoadEvents}

unfoldable pub total : (ℕ → ℕ) → List ℕ → ℕ
total f [] = 0
total f (i ∷ is) = f i + total f is

unfoldable pub AllBelow : (ℕ → ℕ) → ℕ → List ℕ → Type 0
AllBelow height n [] = Unit
AllBelow height n (i ∷ is) = (height i < n) × AllBelow height n is

-- The events that may follow an event are lower than it, so that no event is below itself.
abbrev pub IsAcyclic : LoadEvents → (ℕ → ℕ) → Type 0
IsAcyclic store height = (i : ℕ) → AllBelow height (height i) (store i).next

-- An event and those met from it, `depth` events deep; one that is met again counts again.
unfoldable pub met_within : LoadEvents → ℕ → ℕ → ℕ
met_within store zero i = 0
met_within store (suc depth) i = suc (total (met_within store depth) (store i).next)

module _ (store : LoadEvents) (height : ℕ → ℕ) where
  abbrev pub met_from : ℕ → ℕ
  met_from i = met_within store (suc (height i)) i

  module _ (acyclic : IsAcyclic store height) where
    -- More depth than the event is high finds nothing more.
    met_within-deep :
        (depth depth' i : ℕ)
        → height i < depth
        → height i < depth'
        → met_within store depth i ≡ met_within store depth' i
    unfolding met_within total AllBelow
    met_within-deep zero depth' i h h' = omega arith
    met_within-deep (suc depth) zero i h h' = omega arith
    met_within-deep (suc depth) (suc depth') i h h' =
        ap suc (go (λ j b b'. met_within-deep depth depth' j b b') (store i).next (acyclic i))
      where
        go :
            ((j : ℕ)
              → height j < depth
              → height j < depth'
              → met_within store depth j ≡ met_within store depth' j)
            → (is : List ℕ) → AllBelow height (height i) is
            → total (met_within store depth) is ≡ total (met_within store depth') is
        go ih [] lower = refl
        go ih (j ∷ is) (b, lower) = omega (arith, ih j (omega arith) (omega arith), go ih is lower)

    pub met_from-next : (i : ℕ) → met_from i ≡ suc (total met_from (store i).next)
    unfolding met_within total AllBelow
    met_from-next i = ap suc (go (store i).next (acyclic i))
      where
        go :
            (is : List ℕ)
            → AllBelow height (height i) is
            → total (met_within store (height i)) is ≡ total met_from is
        go [] lower = refl
        go (j ∷ is) (b, lower) =
            omega
              (arith, met_within-deep (height i) (suc (height j)) j b (omega arith), go is lower)
