-- ===== src/Exec.antt =====
-- Go code that talks to the TPM: it may fail, and what it did before a failure stays done.
-- So an action returns the new state beside its outcome.
pub mod Ends
pub mod Posts
pub mod Counts
pub mod Steps
pub mod Results
use secboot.Prelude.{ℕ, String, Bool, false, ◌||◌}

-- The values that an `error` takes. `external` is one that code outside the repository made,
-- known by a number; `wrap` is `xerrors.Errorf("...: %w", err)`.
pub data Error : Type 0 where
  external : ℕ → Error
  message : String → Error
  wrap : String → Error → Error
  static_policy_data_error dynamic_policy_data_error key_file_error : Error → Error
  exec_error : String → Error → Error
  invalid_key_file_error : String → Error
  err_tpm_provisioning err_tpm_provisioning_requires_lockout err_tpm_lockout err_pin_fail : Error
  requires_pin_err : Error

-- Whether an error or one that it wraps passes a test, as `xerrors.Is` and `xerrors.As` look for one.
unfoldable pub in_chain : (Error → Bool) → Error → Bool
in_chain test (wrap text e) = test (wrap text e) || in_chain test e
in_chain test (static_policy_data_error e) = test (static_policy_data_error e) || in_chain test e
in_chain test (dynamic_policy_data_error e) = test (dynamic_policy_data_error e) || in_chain test e
in_chain test (key_file_error e) = test (key_file_error e) || in_chain test e
in_chain test (exec_error path e) = test (exec_error path e) || in_chain test e
in_chain test e = test e

-- A class of the TPM's errors, which go-tpm2 looks for in a chain.
unfoldable pub of_class : (ℕ → Bool) → Error → Bool
of_class class (external n) = class n
of_class class e = false

-- How a call ends. `panic` is a Go panic; `out_of_fuel` stands for a loop that the model stopped.
pub data Result {ℓ} (A : Type ℓ) : Type ℓ where
  ok : A → Result A
  err : Error → Result A
  panic : Result A
  out_of_fuel : Result A

abbrev pub map_error {ℓ} : {A : Type ℓ} → (Error → Error) → Result A → Result A
map_error f (ok a) = ok a
map_error f (err e) = err (f e)
map_error f panic = panic
map_error f out_of_fuel = out_of_fuel

abbrev pub bind_result {ℓ κ} : {A : Type ℓ} {B : Type κ} → Result A → (A → Result B) → Result B
bind_result (ok a) f = f a
bind_result (err e) f = err e
bind_result panic f = panic
bind_result out_of_fuel f = out_of_fuel

-- The value or the error of an action, at hand for a test; a panic stays one.
abbrev pub caught : {A : Type 0} → Result A → Result (Result A)
caught (ok a) = ok (ok a)
caught (err e) = ok (err e)
caught panic = panic
caught out_of_fuel = out_of_fuel

abbrev pub Exec : Type 0 → Type 0 → Type 0
Exec S A = S → Result A × S

module _ {S A : Type 0} where
  abbrev pub pure : A → Exec S A
  pure a s = (ok a, s)

  abbrev pub raise : Error → Exec S A
  raise e s = (err e, s)

  abbrev pub lift : Result A → Exec S A
  lift r s = (r, s)

  abbrev pub attempt : Exec S A → Exec S (Result A)
  attempt m s = let (r, s') = m s in (caught r, s')

  -- `if err := m; err != nil { return f(err) }`
  abbrev pub or_else : Exec S A → (Error → Error) → Exec S A
  or_else m f s = let (r, s') = m s in (map_error f r, s')

  abbrev pub or_wrap : Exec S A → String → Exec S A
  or_wrap m text = or_else m (wrap text)

module _ {S A B : Type 0} where
  abbrev pub continue : (A → Exec S B) → Result A → Exec S B
  continue f (ok a) s = f a s
  continue f (err e) s = (err e, s)
  continue f panic s = (panic, s)
  continue f out_of_fuel s = (out_of_fuel, s)

  infixl 5 ◌>>=◌ ◌>>◌
  abbrev pub ◌>>=◌ : Exec S A → (A → Exec S B) → Exec S B
  ◌>>=◌ m f s = let (r, s') = m s in continue f r s'

  abbrev pub ◌>>◌ : Exec S A → Exec S B → Exec S B
  m >> n = m >>= λ _. n

-- `defer release()` after which `m` runs.
abbrev pub with_release : {S A : Type 0} → (S → S) → Exec S A → Exec S A
with_release release m s = let (r, s') = m s in (r, release s')
