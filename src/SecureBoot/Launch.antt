-- ===== src/SecureBoot/Launch.antt =====
-- The event that verified the first image of the operating system, in an event log.
use secboot.Prelude.{
  List, [], ◌∷◌, ◌++◌, Bool, true, false, ◌||◌, Bool-cases, ◌≡◌, refl, sym, ap, ◌∙◌, Option, none,
  some, if◌then◌else◌, inl, inr, arith,
}
use secboot.SecureBoot.Events.{
  EventType, separator, efi_boot_services_application, Event, is_separator, is_application,
  SecureBootVerificationEvent, launched, ends_pre_os, is_os_load, is_verification_event,
  identify_from, identify_initial_os_launch_verification_event,
}

unfoldable pub any : (Event → Bool) → List Event → Bool
any test [] = false
any test (e ∷ events) = test e || any test events

unfoldable pub or_before : {A : Type 0} → Option A → Option A → Option A
or_before (some a) before = some a
or_before none before = before

-- The last verification event of some events, and whether they are from before the separators.
unfoldable pub last_verification : Bool → List Event → Option SecureBootVerificationEvent
last_verification pre_os [] = none
last_verification pre_os (e ∷ events) = or_before (last_verification pre_os events) (
    if is_verification_event e
    then some (record { event = e; measured_in_pre_os = pre_os })
    else none)

or_before_assoc :
    {A : Type 0} (a b c : Option A) → or_before (or_before a b) c ≡ or_before a (or_before b c)
unfolding or_before
or_before_assoc (some a) b c = refl
or_before_assoc none b c = refl

elim-false :
    {A : Type 0} (b : Bool) (x y : A) → b ≡ false → elim b as (λ _. A) [ true ↦ x | false ↦ y ] ≡ y
elim-false {A = A} b x y h = ap (λ c. elim c as (λ _. A) [ true ↦ x | false ↦ y ]) h

elim-true :
    {A : Type 0} (b : Bool) (x y : A) → b ≡ true → elim b as (λ _. A) [ true ↦ x | false ↦ y ] ≡ x
elim-true {A = A} b x y h = ap (λ c. elim c as (λ _. A) [ true ↦ x | false ↦ y ]) h

or_before-none : {A : Type 0} (o : Option A) → or_before o none ≡ o
unfolding or_before
or_before-none none = refl
or_before-none (some a) = refl

-- One event that neither ends the time before the operating system nor loads it.
identify_step :
    (pre_os : Bool) (last : Option SecureBootVerificationEvent) (e : Event) (events : List Event)
    → ends_pre_os e ≡ false
    → is_os_load pre_os e ≡ false
    → identify_from pre_os last (e ∷ events)
      ≡ identify_from pre_os
          (or_before
            (if is_verification_event e
              then some (record { event = e; measured_in_pre_os = pre_os })
              else none)
            last)
          events
unfolding identify_from or_before
identify_step pre_os last e events h1 h2 =
    elim-false (ends_pre_os e) _ _ h1
    ∙ (elim-false (is_os_load pre_os e) _ _ h2
        ∙ ap (λ l. identify_from pre_os l events) (chosen (is_verification_event e)))
  where
    chosen :
        (b : Bool)
        → (if b then some (record { event = e; measured_in_pre_os = pre_os }) else last)
          ≡ or_before
              (if b then some (record { event = e; measured_in_pre_os = pre_os }) else none)
              last
    chosen true = refl
    chosen false = refl

-- The separators that end the time before the operating system verify nothing.
ends_pre_os-false : (e : Event) → ends_pre_os e ≡ true → is_verification_event e ≡ false
unfolding ends_pre_os is_verification_event is_separator secboot.SecureBoot.Events.is_authority
ends_pre_os-false e h = ground arith

is_os_load_pre : (e : Event) → is_os_load true e ≡ false
unfolding is_os_load
is_os_load_pre e = ground arith

is_os_load-false : (e : Event) → is_os_load false e ≡ true → ends_pre_os e ≡ false
unfolding is_os_load ends_pre_os is_separator is_application
is_os_load-false e h = ground arith

false_left : (a b : Bool) → (a || b) ≡ false → a ≡ false
false_left false b h = refl
false_left true b h = cc

false_right : (a b : Bool) → (a || b) ≡ false → b ≡ false
false_right false b h = h
false_right true b h = cc

identify_pre :
    (pre rest : List Event) (last : Option SecureBootVerificationEvent)
    → any ends_pre_os pre ≡ false
    → identify_from true last (pre ++ rest)
      ≡ identify_from true (or_before (last_verification true pre) last) rest
unfolding any last_verification or_before
identify_pre [] rest last h = refl
identify_pre (e ∷ pre) rest last h =
    identify_step true last e (pre ++ rest) (false_left (ends_pre_os e) _ h) (is_os_load_pre e)
    ∙ (identify_pre pre rest _ (false_right (ends_pre_os e) _ h)
        ∙ ap (λ l. identify_from true l rest)
            (sym (or_before_assoc (last_verification true pre) _ last)))

identify_post :
    (post rest : List Event) (last : Option SecureBootVerificationEvent)
    → any (is_os_load false) post ≡ false
    → identify_from false last (post ++ rest)
      ≡ identify_from false (or_before (last_verification false post) last) rest
unfolding any last_verification or_before identify_from
identify_post [] rest last h = refl
identify_post (e ∷ post) rest last h = elim (Bool-cases (ends_pre_os e)) [
  | inl s ↦
      elim-true (ends_pre_os e) _ _ s
      ∙ (identify_post post rest last (false_right (is_os_load false e) _ h)
          ∙ ap (λ l. identify_from false l rest) (skip e s))
  | inr s ↦
      identify_step false last e (post ++ rest) s (false_left (is_os_load false e) _ h)
      ∙ (identify_post post rest _ (false_right (is_os_load false e) _ h)
          ∙ ap (λ l. identify_from false l rest)
              (sym (or_before_assoc (last_verification false post) _ last)))
]
  where
    skip :
        (e' : Event)
        → ends_pre_os e' ≡ true
        → or_before (last_verification false post) last
          ≡ or_before (last_verification false (e' ∷ post)) last
    skip e' s = sym (
        or_before_assoc (last_verification false post) _ last
        ∙ ap
            (λ b. or_before (last_verification false post) (
              or_before
                (if b then some (record { event = e'; measured_in_pre_os = false }) else none)
                last))
            (ends_pre_os-false e' s))

-- In a log where no separator (but that of PCR 7) stands among `pre`, the next event is one, no load
-- of an application by the boot manager stands among `post`, and the next event is one: the event
-- that verified the load is the last verification event of `post`, or else of `pre`, in which case
-- it is from before the operating system; it is an error if neither has one.
pub identify-launched :
    (pre post after : List Event)
    → (sep load : Event) → any ends_pre_os pre ≡ false
    → ends_pre_os sep ≡ true
    → any (is_os_load false) post ≡ false
    → is_os_load false load ≡ true
    → identify_initial_os_launch_verification_event (pre ++ (sep ∷ (post ++ (load ∷ after))))
      ≡ launched (or_before (last_verification false post) (last_verification true pre))
unfolding identify_initial_os_launch_verification_event identify_from
identify-launched pre post after sep load h1 h2 h3 h4 =
    identify_pre pre (sep ∷ post ++ load ∷ after) none h1
    ∙ (elim-true (ends_pre_os sep) _ _ h2
        ∙ (identify_post post (load ∷ after) _ h3
            ∙ (elim-false (ends_pre_os load) _ _ (is_os_load-false load h4)
                ∙ (elim-true (is_os_load false load) _ _ h4
                    ∙ ap (λ l. launched (or_before (last_verification false post) l))
                        (or_before-none (last_verification true pre))))))
