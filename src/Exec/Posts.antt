-- ===== src/Exec/Posts.antt =====
-- What an action leaves in one flag of the state, as a function of its outcome.
use secboot.Prelude.{Bool, false, ◌≡◌, refl, ◌∙◌}
use secboot.Exec.{
  Error, Exec, Result, ok, err, panic, out_of_fuel, map_error, or_else, attempt, caught, ◌>>=◌,
}

-- A test on values, which holds of no other outcome.
unfoldable pub good_end {ℓ} : {A : Type ℓ} → (A → Bool) → Result A → Bool
good_end good (ok a) = good a
good_end good (err e) = false
good_end good panic = false
good_end good out_of_fuel = false

module _ {S : Type 0} (flag : S → Bool) where
  -- The flag is set exactly when the outcome is good.
  abbrev pub Post {ℓ} : {A : Type ℓ} → (A → Bool) → Result A × S → Type 0
  Post good r = flag r.1 ≡ good_end good r.0

  module _ {A B : Type 0} (g : A → Bool) (good : B → Bool) where
    pub Post-bind :
        (m : Exec S A) (f : A → Exec S B) (s : S)
        → Post g (m s)
        → ((a : A) (s' : S) → flag s' ≡ g a → Post good (f a s'))
        → Post good ((m >>= f) s)
    unfolding good_end
    Post-bind m f s h k = go (m s) h
      where
        go : (r : Result A × S) → Post g r → Post good ((◌>>=◌ {S = S} (λ _. r) f) s)
        go (ok a, s') h' = k a s' h'
        go (err e, s') h' = h'
        go (panic, s') h' = h'
        go (out_of_fuel, s') h' = h'

  module _ {A : Type 0} (g : A → Bool) where
    pub Post-attempt : (m : Exec S A) (s : S) → Post g (m s) → Post (good_end g) (attempt m s)
    unfolding good_end
    Post-attempt m s h = go (m s) h
      where
        go : (r : Result A × S) → Post g r → Post (good_end g) (caught r.0, r.1)
        go (ok a, s') h' = h'
        go (err e, s') h' = h'
        go (panic, s') h' = h'
        go (out_of_fuel, s') h' = h'

    pub Post-or_else :
        (m : Exec S A) (f : Error → Error) (s : S) → Post g (m s) → Post g (or_else m f s)
    unfolding good_end
    Post-or_else m f s h = go (m s) h
      where
        go : (r : Result A × S) → Post g r → Post g (map_error f r.0, r.1)
        go (ok a, s') h' = h'
        go (err e, s') h' = h'
        go (panic, s') h' = h'
        go (out_of_fuel, s') h' = h'

  -- An action that leaves a clear flag as it is.
  pub Post-quiet :
      {A : Type 0} (m : Exec S A) (s : S)
      → flag (m s).1 ≡ flag s
      → flag s ≡ false
      → Post (λ _. false) (m s)
  unfolding good_end
  Post-quiet {A} m s quiet clear = go (m s).0 (m s).1 (quiet ∙ clear)
    where
      go : (r : Result A) (s' : S) → flag s' ≡ false → Post (λ _. false) (r, s')
      go (ok a) s' h = h
      go (err e) s' h = h
      go panic s' h = h
      go out_of_fuel s' h = h

pub good_end-false : {A : Type 0} (r : Result A) → good_end (λ _. false) r ≡ false
unfolding good_end
good_end-false (ok a) = refl
good_end-false (err e) = refl
good_end-false panic = refl
good_end-false out_of_fuel = refl
