-- ===== src/BootManager/Tests.antt =====
-- A small image whose checksum and certificate table entry change.
use secboot.Prelude.{ℕ, ◌≡◌, refl, List, [], ◌∷◌, ◌++◌, false, some, arith}
use secboot.Exec.{ok}
use secboot.Profile.{zeros}
use secboot.SigDb.{le32}
use secboot.BootManager.{PeImages, PeFile, is_pe_signature, with_size, hashed_bytes}
use secboot.BootManager.Checksum.{IsStart, hashed_bytes-ignores}

abbrev start : List ℕ
start = (77 ∷ 90 ∷ zeros 6) ++ ((80 ∷ 69 ∷ zeros 50) ++ (8 ∷ zeros 35))

abbrev directories : List (ℕ × ℕ)
directories = (0, 0) ∷ (0, 0) ∷ (0, 0) ∷ (0, 0) ∷ (170, 1) ∷ []

abbrev file : PeFile
file = record {
  optional_header =
      some (record { is_pe32_plus = false; size_of_headers = 168; data_directory = directories });
  sections = (168, 2) ∷ [];
}

abbrev images : PeImages
images = record {
  open_image = λ i. ok [];
  new_file = λ contents. ok file;
  sort_sections = λ sections. sections;
}

start-IsStart : IsStart start
unfolding le32 is_pe_signature
start-IsStart = record { long = omega arith; is_mz = refl; ends_at_checksum = refl; is_pe = refl }

hashed_bytes-ignores_example :
    hashed_bytes images
      ((start ++ ((1 ∷ 2 ∷ 3 ∷ 4 ∷ []) ++ (zeros 60 ++ zeros 8))) ++ (5 ∷ 6 ∷ 7 ∷ []))
    ≡ hashed_bytes images ((start ++ (zeros 4 ++ (zeros 60 ++ (9 ∷ zeros 7)))) ++ (5 ∷ 6 ∷ 7 ∷ []))
unfolding with_size
hashed_bytes-ignores_example =
    hashed_bytes-ignores images start (zeros 60) (5 ∷ 6 ∷ 7 ∷ []) false 168 ((168, 2) ∷ []) 1
      start-IsStart refl (omega arith) (omega arith, tt) (1 ∷ 2 ∷ 3 ∷ 4 ∷ []) (zeros 4) (zeros 8)
      (9 ∷ zeros 7) directories directories 170 170 refl refl refl refl refl refl refl refl
