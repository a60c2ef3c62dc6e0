-- ===== src/Exec/Steps.antt =====
-- Runs of actions whose parts are known to succeed.
use secboot.Prelude.{String, ◌≡◌, ap}
use secboot.Exec.{
  Exec, Error, Result, ok, err, wrap, map_error, caught, attempt, or_wrap, continue, ◌>>=◌,
}

module _ {S A : Type 0} where
  pub bind-ok :
      {B : Type 0} (m : Exec S A) (f : A → Exec S B) (s : S) {a : A} {s' : S}
      → m s ≡ (ok a, s')
      → (m >>= f) s ≡ f a s'
  bind-ok m f s e = ap (λ (r : Result A × S). continue f r.0 r.1) e

  pub bind-err :
      {B : Type 0} (m : Exec S A) (f : A → Exec S B) (s : S) {e : Error} {s' : S}
      → m s ≡ (err e, s')
      → (m >>= f) s ≡ (err e, s')
  bind-err m f s e = ap (λ (r : Result A × S). continue f r.0 r.1) e

  pub or_wrap-ok :
      (m : Exec S A) (text : String) (s : S) {a : A} {s' : S}
      → m s ≡ (ok a, s')
      → or_wrap m text s ≡ (ok a, s')
  or_wrap-ok m text s e = ap (λ (r : Result A × S). (map_error (wrap text) r.0, r.1)) e

  pub attempt-ok :
      (m : Exec S A) (s : S) {a : A} {s' : S} → m s ≡ (ok a, s') → attempt m s ≡ (ok (ok a), s')
  attempt-ok m s e = ap (λ (r : Result A × S). (caught r.0, r.1)) e

  pub attempt-err :
      (m : Exec S A) (s : S) {e : Error} {s' : S}
      → m s ≡ (err e, s')
      → attempt m s ≡ (ok (err e), s')
  attempt-err m s e = ap (λ (r : Result A × S). (caught r.0, r.1)) e
