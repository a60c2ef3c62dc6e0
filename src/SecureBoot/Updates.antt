-- ===== src/SecureBoot/Updates.antt =====
-- secureboot_policy.go: the list of the pending updates of the signature databases.
mod Tests
use text.Mathlib.Text.{◌==◌ as str_eq}
use secboot.Prelude.{
  ◌≡◌, refl, sym, ap, map, Bool-cases, inl, inr, String, List, [], ◌∷◌, ◌++◌, Bool, true, false,
  not, ◌&&◌, Option, none, some, if◌then◌else◌, ◌∙◌,
}
use secboot.Exec.{Result, ok, message, wrap, map_error, bind_result}
use secboot.Exec.Results.{bind_value}
use secboot.SecureBoot.PreOs.{SecureBootDbUpdate}

-- The program sbkeysync by the lines of its dry run, and what is used of the packages strings and
-- filepath; `rel` is `none` where `filepath.Rel` fails.
pub record KeySync : Type 0 where
  pub look_path : Result (Unit {0})
  pub stream_command : List String → Result (List String)
  pub trim_space : String → String
  pub has_prefix : String → String → Bool
  pub rel : String → String → Option String
  pub dir : String → String

module _ (k : KeySync) where
  -- What one keystore makes of a line, with the line's path relative to it.
  unfoldable pub keystore_updates : String → Option String → List SecureBootDbUpdate
  keystore_updates line none = []
  keystore_updates line (some rel) =
      if k.has_prefix ".." rel then [] else record { db = k.dir rel; path = line } ∷ []

  -- The loop over the keystores for one line.
  unfoldable pub line_updates : List String → String → List SecureBootDbUpdate
  line_updates [] line = []
  line_updates (ks ∷ keystores) line =
      keystore_updates line (k.rel ks line) ++ line_updates keystores line

  -- The loop over the lines, with `seenNewKeysHeader`.
  unfoldable pub scan_updates : List String → Bool → List String → List SecureBootDbUpdate
  scan_updates keystores seen [] = []
  scan_updates keystores seen (line ∷ lines) = elim (str_eq line "New keys in filesystem:") [
    | true ↦ scan_updates keystores true lines
    | false ↦
        (if seen then line_updates keystores (k.trim_space line) else [])
        ++ scan_updates keystores seen lines
  ]

  unfoldable pub build_signature_db_update_list : List String → Result (List SecureBootDbUpdate)
  build_signature_db_update_list [] = ok []
  build_signature_db_update_list (ks ∷ keystores) =
      bind_result (map_error (wrap "lookup failed") k.look_path) (λ _.
        bind_result
          (map_error (λ e. message "cannot execute command") (k.stream_command (ks ∷ keystores)))
          (λ lines. ok (scan_updates (ks ∷ keystores) false lines)))

  -- The paths of the new keys.
  unfoldable pub new_keys : Bool → List String → List String
  new_keys seen [] = []
  new_keys seen (line ∷ lines) = elim (str_eq line "New keys in filesystem:") [
    | true ↦ new_keys true lines
    | false ↦ (if seen then k.trim_space line ∷ [] else []) ++ new_keys seen lines
  ]

  -- Whether the path relative to a keystore is found, and is no prefix of "..".
  unfoldable pub admits : String → Option String → Bool
  admits line none = false
  admits line (some rel) = not (k.has_prefix ".." rel)

  unfoldable pub line_admitted : List String → String → Bool
  line_admitted [] line = true
  line_admitted (ks ∷ keystores) line = admits line (k.rel ks line) && line_admitted keystores line

  unfoldable pub all_admitted : List String → List String → Bool
  all_admitted keystores [] = true
  all_admitted keystores (line ∷ lines) =
      line_admitted keystores line && all_admitted keystores lines

  -- The path relative to a keystore, where it is found.
  unfoldable pub or_empty : Option String → String
  or_empty none = ""
  or_empty (some rel) = rel

  -- The entries of one new key, and of all of them: one for each keystore, in order.
  unfoldable pub key_entries : List String → String → List SecureBootDbUpdate
  key_entries keystores key =
      map (λ ks. record { db = k.dir (or_empty (k.rel ks key)); path = key }) keystores

  unfoldable pub all_entries : List String → List String → List SecureBootDbUpdate
  all_entries keystores [] = []
  all_entries keystores (key ∷ keys) = key_entries keystores key ++ all_entries keystores keys

  keystore_updates-admits :
      (line : String) (rel : Option String)
      → admits line rel ≡ true
      → keystore_updates line rel ≡ record { db = k.dir (or_empty rel); path = line } ∷ []
  unfolding admits keystore_updates or_empty
  keystore_updates-admits line none h = cc
  keystore_updates-admits line (some rel) h = elim (Bool-cases (k.has_prefix ".." rel)) [
    | inl e ↦ absurd (true_not_false (sym h ∙ ap not e))
    | inr e ↦ rw e refl
  ]
    where
      true_not_false : true ≡ false → ⊥
      true_not_false e = cc

  both : (a b : Bool) → (a && b) ≡ true → (a ≡ true) × (b ≡ true)
  both true b h = (refl, h)
  both false b h = cc

  line_updates-key_entries :
      (keystores : List String) (line : String)
      → line_admitted keystores line ≡ true
      → line_updates keystores line ≡ key_entries keystores line
  unfolding line_admitted line_updates key_entries
  line_updates-key_entries [] line h = refl
  line_updates-key_entries (ks ∷ keystores) line h =
      let (h1, h2) = both (admits line (k.rel ks line)) _ h in
      rw
        (
          keystore_updates-admits line (k.rel ks line) h1,
          line_updates-key_entries keystores line h2,
        )
        refl

  scan_updates-all_entries :
      (keystores lines : List String) (seen : Bool)
      → all_admitted keystores (new_keys seen lines) ≡ true
      → scan_updates keystores seen lines ≡ all_entries keystores (new_keys seen lines)
  unfolding all_admitted new_keys scan_updates all_entries
  scan_updates-all_entries keystores [] seen h = refl
  scan_updates-all_entries keystores (line ∷ lines) seen h =
      go (λ seen' k'. scan_updates-all_entries keystores lines seen' k')
        (str_eq line "New keys in filesystem:") seen h
    where
      go :
          ((seen' : Bool)
            → all_admitted keystores (new_keys seen' lines) ≡ true
            → scan_updates keystores seen' lines ≡ all_entries keystores (new_keys seen' lines))
          → (b seen' : Bool)
          → all_admitted keystores (elim b [
            | true ↦ new_keys true lines
            | false ↦ (if seen' then k.trim_space line ∷ [] else []) ++ new_keys seen' lines
          ])
            ≡ true
          → elim b as (λ _. List SecureBootDbUpdate) [
            | true ↦ scan_updates keystores true lines
            | false ↦
                (if seen' then line_updates keystores (k.trim_space line) else [])
                ++ scan_updates keystores seen' lines
          ]
            ≡ all_entries keystores (elim b [
              | true ↦ new_keys true lines
              | false ↦ (if seen' then k.trim_space line ∷ [] else []) ++ new_keys seen' lines
            ])
      go ih true seen' k' = ih true k'
      go ih false false k' = ih false k'
      go ih false true k' =
          let (h1, h2) = both (line_admitted keystores (k.trim_space line)) _ k' in
          rw (line_updates-key_entries keystores (k.trim_space line) h1, ih true h2) refl

  -- With at least one keystore, when sbkeysync can be run and each new key's path relative to every
  -- keystore is found and is no prefix of "..": the list has, for each new key in order and for each
  -- keystore in order, an entry with the key's path and the directory of its path relative to the
  -- keystore.
  pub build_signature_db_update_list-all_entries :
      (ks : String) (keystores lines : List String)
      → k.look_path ≡ ok tt
      → k.stream_command (ks ∷ keystores) ≡ ok lines
      → all_admitted (ks ∷ keystores) (new_keys false lines) ≡ true
      → build_signature_db_update_list (ks ∷ keystores)
        ≡ ok (all_entries (ks ∷ keystores) (new_keys false lines))
  unfolding build_signature_db_update_list
  build_signature_db_update_list-all_entries ks keystores lines h1 h2 h3 =
      bind_value (ap (map_error _) h1) _
      ∙ bind_value (ap (map_error _) h2) _
      ∙ ap ok (scan_updates-all_entries (ks ∷ keystores) lines false h3)
