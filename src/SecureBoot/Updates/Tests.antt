-- ===== src/SecureBoot/Updates/Tests.antt =====
-- A run of sbkeysync that finds one new key.
use text.Mathlib.Text.{◌==◌ as str_eq}
use secboot.Prelude.{String, ◌≡◌, refl, [], ◌∷◌, true, false, ◌||◌, Option, some, if◌then◌else◌}
use secboot.Exec.{ok}
use secboot.SecureBoot.Updates.{
  KeySync, build_signature_db_update_list, new_keys, admits, line_admitted, all_admitted,
  all_entries, key_entries, or_empty, build_signature_db_update_list-all_entries,
}

-- A new key in the first of two keystores; the path relative to the second starts "..".
abbrev rel_of : String → String → Option String
rel_of ks line = if str_eq ks "/a" then some "db/key" else some "../a/db/key"

abbrev key_sync : KeySync
key_sync = record {
  look_path = ok tt;
  stream_command = λ keystores. ok ("New keys in filesystem:" ∷ " /a/db/key" ∷ []);
  trim_space = λ line. "/a/db/key";
  has_prefix = λ s prefix. str_eq prefix "" || (str_eq prefix "." || str_eq prefix "..");
  rel = rel_of;
  dir = λ path. path;
}

admitted :
    all_admitted key_sync
      ("/a" ∷ "/b" ∷ [])
      (new_keys key_sync false ("New keys in filesystem:" ∷ " /a/db/key" ∷ []))
    ≡ true
unfolding all_admitted line_admitted admits new_keys
admitted = refl

build_signature_db_update_list-all_entries_example :
    build_signature_db_update_list key_sync ("/a" ∷ "/b" ∷ [])
    ≡ ok (
        all_entries key_sync
          ("/a" ∷ "/b" ∷ [])
          (new_keys key_sync false ("New keys in filesystem:" ∷ " /a/db/key" ∷ [])))
build_signature_db_update_list-all_entries_example =
    build_signature_db_update_list-all_entries key_sync "/a" ("/b" ∷ [])
      ("New keys in filesystem:" ∷ " /a/db/key" ∷ []) refl refl admitted

-- The key is listed for the second keystore too.
listed_twice :
    all_entries key_sync ("/a" ∷ "/b" ∷ []) ("/a/db/key" ∷ [])
    ≡ record { db = "db/key"; path = "/a/db/key" }
      ∷ record { db = "../a/db/key"; path = "/a/db/key" }
      ∷ []
unfolding all_entries key_entries or_empty
listed_twice = refl
