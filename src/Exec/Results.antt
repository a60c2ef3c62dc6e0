-- ===== src/Exec/Results.antt =====
-- Results in sequence, and what a success tells of its parts.
use secboot.Prelude.{List, [], ◌∷◌, ◌≡◌, ◌≢◌, refl, ap}
use secboot.Exec.{Error, Result, ok, err, panic, out_of_fuel, map_error, bind_result}

-- For `do` blocks of code that has no state.
infixl 5 ◌>>=◌ ◌>>◌
abbrev pub ◌>>=◌ {ℓ κ} : {A : Type ℓ} {B : Type κ} → Result A → (A → Result B) → Result B
m >>= f = bind_result m f

abbrev pub ◌>>◌ {ℓ} : {B : Type ℓ} → Result (Unit {0}) → Result B → Result B
m >> k = bind_result m λ _. k

pub bind_result_ok {ℓ κ} :
    {A : Type ℓ} {B : Type κ} (m : Result A) (k : A → Result B) {b : B}
    → bind_result m k ≡ ok b
    → (a : A) × (m ≡ ok a) × (k a ≡ ok b)
bind_result_ok (ok a) k h = (a, refl, h)
bind_result_ok (err e) k h = cc
bind_result_ok panic k h = cc
bind_result_ok out_of_fuel k h = cc

pub map_error_ok {ℓ} :
    {A : Type ℓ} (f : Error → Error) (m : Result A) {a : A} → map_error f m ≡ ok a → m ≡ ok a
map_error_ok f (ok a) h = h
map_error_ok f (err e) h = cc
map_error_ok f panic h = cc
map_error_ok f out_of_fuel h = cc

pub not_ok {ℓ} : {A B : Type ℓ} {e : Error} {a : A} → ◌≡◌ {A = Result A} (err e) (ok a) → B
not_ok h = cc

pub ok_injective {ℓ} : {A : Type ℓ} {a b : A} → ok a ≡ ok b → a ≡ b
ok_injective h = cc

-- The values of a function on a list, if it succeeds on all of it.
unfoldable pub traverse {ℓ κ} :
    {A : Type ℓ} {B : Type κ} → (A → Result B) → List A → Result (List B)
traverse f [] = ok []
traverse f (x ∷ xs) = bind_result (f x) λ y. bind_result (traverse f xs) λ ys. ok (y ∷ ys)

pub traverse_ok {ℓ κ} :
    {A : Type ℓ} {B : Type κ} (f : A → Result B) (x : A) (xs : List A) (zs : List B)
    → traverse f (x ∷ xs) ≡ ok zs
    → (y : B) × (ys : List B) × (f x ≡ ok y) × (traverse f xs ≡ ok ys) × (y ∷ ys ≡ zs)
unfolding traverse
traverse_ok f x xs zs h =
    let (y, e1, h') = bind_result_ok (f x) _ h in
    let (ys, e2, e3) = bind_result_ok (traverse f xs) _ h' in (y, ys, e1, e2, ok_injective e3)

-- A computation that the model's fuel did not cut short.
abbrev pub Finishes {ℓ} : {A : Type ℓ} → Result A → Type ℓ
Finishes r = r ≢ out_of_fuel

pub Finishes-ok {ℓ} : {A : Type ℓ} (a : A) → Finishes (ok a)
Finishes-ok a = λ e. cc

pub Finishes-bind {ℓ κ} :
    {A : Type ℓ} {B : Type κ} (r : Result A) (f : A → Result B)
    → Finishes r
    → ((a : A) → r ≡ ok a → Finishes (f a))
    → Finishes (bind_result r f)
Finishes-bind (ok a) f h k = k a refl
Finishes-bind (err e) f h k = λ e'. cc
Finishes-bind panic f h k = λ e'. cc
Finishes-bind out_of_fuel f h k = λ _. h refl

pub Finishes-map_error {ℓ} :
    {A : Type ℓ} (g : Error → Error) (r : Result A) → Finishes r → Finishes (map_error g r)
Finishes-map_error g (ok a) h = λ e. cc
Finishes-map_error g (err e) h = λ e'. cc
Finishes-map_error g panic h = λ e'. cc
Finishes-map_error g out_of_fuel h = h

-- What follows a success.
pub bind_value {ℓ κ} :
    {A : Type ℓ} {B : Type κ} {r : Result A} {a : A}
    → r ≡ ok a
    → (f : A → Result B) → bind_result r f ≡ f a
bind_value e f = ap (λ r. bind_result r f) e
