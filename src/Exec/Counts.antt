-- ===== src/Exec/Counts.antt =====
-- Actions that open something in the state when they succeed, and close it again. What is open is a
-- list, the latest first.
use secboot.Prelude.{ℕ, List, [], ◌∷◌, ◌≡◌, refl, ap, ◌∙◌, ◌==◌, ==_iff, if◌then◌else◌}
use secboot.Exec.{
  Error, Exec, Result, ok, err, panic, out_of_fuel, map_error, attempt, continue, caught, ◌>>=◌,
}

-- What is open after an action that opens what it returns.
unfoldable pub opened : {H : Type 0} → Result H → List H → List H
opened (ok h) handles = h ∷ handles
opened (err e) handles = handles
opened panic handles = handles
opened out_of_fuel handles = handles

pub opened-map_error :
    {H : Type 0} (f : Error → Error) (r : Result H) (handles : List H)
    → opened (map_error f r) handles ≡ opened r handles
unfolding opened
opened-map_error f (ok h) handles = refl
opened-map_error f (err e) handles = refl
opened-map_error f panic handles = refl
opened-map_error f out_of_fuel handles = refl

module _ {S H : Type 0} (held : S → List H) (n : List H) where
  pub keeps-bind :
      {A B : Type 0} (m : Exec S A) (f : A → Exec S B) (s : S)
      → held (m s).1 ≡ n
      → ((a : A) (s' : S) → held s' ≡ n → held (f a s').1 ≡ n)
      → held ((m >>= f) s).1 ≡ n
  keeps-bind {A = A} {B = B} m f s h k = go (m s).0 (m s).1 h
    where
      go : (r : Result A) (s' : S) → held s' ≡ n → held (continue f r s').1 ≡ n
      go (ok a) s' h' = k a s' h'
      go (err e) s' h' = h'
      go panic s' h' = h'
      go out_of_fuel s' h' = h'

  pub opens-bind :
      {B : Type 0} (m : Exec S H) (f : H → Exec S B) (s : S)
      → held (m s).1 ≡ opened (m s).0 n
      → ((a : H) (s' : S) → held s' ≡ a ∷ n → held (f a s').1 ≡ n)
      → held ((m >>= f) s).1 ≡ n
  unfolding opened
  opens-bind m f s h k = go (m s).0 (m s).1 h
    where
      go : (r : Result H) (s' : S) → held s' ≡ opened r n → held (continue f r s').1 ≡ n
      go (ok a) s' h' = k a s' h'
      go (err e) s' h' = h'
      go panic s' h' = h'
      go out_of_fuel s' h' = h'

  pub attempt-bind :
      {B : Type 0} (m : Exec S H) (f : Result H → Exec S B) (s : S)
      → held (m s).1 ≡ opened (m s).0 n
      → ((r : Result H) (s' : S) → held s' ≡ opened r n → held (f r s').1 ≡ n)
      → held ((attempt m >>= f) s).1 ≡ n
  unfolding opened
  attempt-bind m f s h k = go (m s).0 (m s).1 h
    where
      go : (r : Result H) (s' : S) → held s' ≡ opened r n → held (continue f (caught r) s').1 ≡ n
      go (ok a) s' h' = k (ok a) s' h'
      go (err e) s' h' = k (err e) s' h'
      go panic s' h' = h'
      go out_of_fuel s' h' = h'

-- A list of handles without one of them, for TPMs whose state is the list.
unfoldable pub remove : ℕ → List ℕ → List ℕ
remove handle [] = []
remove handle (h ∷ handles) = if h == handle then handles else h ∷ remove handle handles

pub remove-latest :
    (handle : ℕ) (handles s : List ℕ) → s ≡ handle ∷ handles → remove handle s ≡ handles
unfolding remove
remove-latest handle handles s e = ap (remove handle) e ∙ rw ((==_iff handle handle).1 refl) refl
