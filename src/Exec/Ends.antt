-- ===== src/Exec/Ends.antt =====
-- Actions that end: no run of theirs is cut short by the model's fuel.
use secboot.Prelude.{String, refl, ◌≢◌}
use secboot.Exec.{Exec, Result, ok, err, panic, out_of_fuel, map_error, or_wrap, wrap, ◌>>=◌}

abbrev pub Ends : {S A : Type 0} → Result A × S → Type 0
Ends r = r.0 ≢ out_of_fuel

module _ {S A B : Type 0} where
  pub Ends-continue :
      (m : Exec S A) (f : A → Exec S B) (s : S)
      → Ends (m s)
      → ((a : A) (s' : S) → Ends (f a s'))
      → Ends ((m >>= f) s)
  Ends-continue m f s h k = go (m s) h
    where
      go : (r : Result A × S) → Ends r → Ends ((◌>>=◌ {S = S} (λ _. r) f) s)
      go (ok a, s') h' = k a s'
      go (err e, s') h' = λ e'. cc
      go (panic, s') h' = λ e'. cc
      go (out_of_fuel, s') h' = λ _. h' refl

module _ {S A : Type 0} where
  pub Ends-wrap : (m : Exec S A) (text : String) (s : S) → Ends (m s) → Ends (or_wrap m text s)
  Ends-wrap m text s h = go (m s).0 h
    where
      go : (r : Result A) → r ≢ out_of_fuel → map_error (wrap text) r ≢ out_of_fuel
      go (ok a) h' = λ e. cc
      go (err e') h' = λ e. cc
      go panic h' = λ e. cc
      go out_of_fuel h' = h'
