-- ===== src/Activation/Options.antt =====
-- `makeActivateOptions` against a description of it without a loop that stops.
use text.Mathlib.Text.{starts_with}
use secboot.Prelude.{
  String, List, [], ◌∷◌, ◌++◌, Bool, false, ◌||◌, ◌≡◌, refl, if◌then◌else◌, Bool-cases, inl, inr,
  arith,
}
use secboot.Exec.{Result, ok, err, message, bind_result}
use secboot.Activation.{make_activate_options}

pub has_tries_option : List String → Bool
has_tries_option [] = false
has_tries_option (o ∷ options) = starts_with o "tries=" || has_tries_option options

abbrev pub tries_refused : Result (List String)
tries_refused = err (message "cannot specify the tries= option for systemd-cryptsetup")

-- `makeActivateOptions` refuses options of which one starts with `tries=`, and otherwise returns
-- them in their order, with `tries=1` after them.
pub make_activate_options_lem :
    (options : List String)
    → make_activate_options options
      ≡ (if has_tries_option options then tries_refused else ok (options ++ "tries=1" ∷ []))
unfolding make_activate_options has_tries_option
make_activate_options_lem [] = refl
make_activate_options_lem (o ∷ options) = elim (Bool-cases (starts_with o "tries=")) [
  | inl e1 ↦ rw e1 refl
  | inr e1 ↦ rw (e1, make_activate_options_lem options) (push options)
]
  where
    push :
        (options : List String)
        → bind_result
            (if has_tries_option options then tries_refused else ok (options ++ "tries=1" ∷ []))
            (λ out. ok (o ∷ out))
          ≡ (if has_tries_option options then tries_refused else ok (o ∷ options ++ "tries=1" ∷ []))
    push options = ground arith
