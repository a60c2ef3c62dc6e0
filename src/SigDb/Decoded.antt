-- ===== src/SigDb/Decoded.antt =====
-- A whole database as its lists, and as the entries that `decodeSecureBootDb` returns.
use mathlib.Core.Path.{subst, ap₂}
use secboot.Prelude.{
  ℕ, zero, suc, ◌<◌, ◌≤◌, ◌≡◌, refl, sym, ◌∙◌, List, [], ◌∷◌, ◌++◌, Bool, true, false, ◌||◌, Option,
  none, some, length, take, drop, Bool-cases, inl, inr, leb, arith,
}
use secboot.Exec.{Result, ok, wrap, map_error, bind_result}
use secboot.Exec.Results.{bind_result_ok, map_error_ok, ok_injective}
use secboot.SigDb.{SignatureList, read_full, next_signature_list}
use secboot.SigDb.Database.{
  EfiSignatureData, decode_signatures, decode_lists, decode_secure_boot_db, SigDbUpdateQuirkMode,
  list_has, in_database,
}
use secboot.SigDb.Reading.{AllSized}
use secboot.SigDb.Parses.{Parses, next_signature_list-Parses, Parses-append, length-Parses}
use secboot.SigDb.Accepts.{next_signature_list_ok, next_signature_list-none}

-- `s` is the encoding of exactly these lists.
abbrev pub Lists : List SignatureList → List ℕ → Type 0
Lists [] s = s ≡ []
Lists (l ∷ ls) s = (size : ℕ) × (rest : List ℕ) × Parses s l size rest × Lists ls rest

pub Lists-append :
    (ls ls' : List SignatureList) (s t : List ℕ)
    → Lists ls s
    → Lists ls' t
    → Lists (ls ++ ls') (s ++ t)
Lists-append [] ls' s t h h' = subst (λ (u : List ℕ). Lists ls' (u ++ t)) (sym h) h'
Lists-append (l ∷ ls) ls' s t (size, rest, p, h) h' =
    (size, rest ++ t, Parses-append p t, Lists-append ls ls' rest t h h')

-- The entries of a list and of several.
abbrev pub entry : List ℕ → List ℕ → EfiSignatureData
entry signature_type sig = record {
  signature_type = signature_type;
  owner = take 16 sig;
  contents = drop 16 sig;
}

abbrev pub entries_of_type : List ℕ → List (List ℕ) → List EfiSignatureData
entries_of_type signature_type [] = []
entries_of_type signature_type (sig ∷ sigs) =
    entry signature_type sig ∷ entries_of_type signature_type sigs

abbrev pub entries : List SignatureList → List EfiSignatureData
entries [] = []
entries (l ∷ ls) = entries_of_type l.signature_type l.signatures ++ entries ls

decode_signatures-AllSized :
    (signature_type : List ℕ) (sigs : List (List ℕ)) (size : ℕ)
    → 16 ≤ size
    → AllSized size sigs
    → decode_signatures signature_type sigs ≡ ok (entries_of_type signature_type sigs)
unfolding decode_signatures read_full
decode_signatures-AllSized signature_type [] size large all = refl
decode_signatures-AllSized signature_type (sig ∷ sigs) size large all =
    rw (enough, decode_signatures-AllSized signature_type sigs size large all.1) refl
  where
    enough : leb 16 (length sig) ≡ true
    enough = let h : length sig ≡ size = all.0 in ground arith

-- `decodeSecureBootDb` returns the entries of the lists.
decode_lists-Lists :
    (fuel : ℕ) (ls : List SignatureList) (s : List ℕ)
    → length s < fuel
    → Lists ls s
    → decode_lists fuel s ≡ ok (entries ls)
unfolding decode_lists next_signature_list
decode_lists-Lists zero ls s enough h = absurd (omega arith)
decode_lists-Lists (suc fuel) [] s enough h = rw h refl
decode_lists-Lists (suc fuel) (l ∷ ls) s enough (size, rest, p, h) =
    rw
      (
        next_signature_list-Parses p,
        decode_signatures-AllSized l.signature_type l.signatures size p.large p.all_sized,
        decode_lists-Lists fuel ls rest (omega (arith, length-Parses p)) h,
      )
      refl

pub decode_secure_boot_db-Lists :
    (ls : List SignatureList) (s : List ℕ) → Lists ls s → decode_secure_boot_db s ≡ ok (entries ls)
unfolding decode_secure_boot_db
decode_secure_boot_db-Lists ls s h = decode_lists-Lists (suc (length s)) ls s (omega arith) h

-- What was decoded is the encoding of lists with these entries.
pub record Decoded (s : List ℕ) (es : List EfiSignatureData) : Type 0 where
  pub lists : List SignatureList
  pub encoded : Lists lists s
  pub same : es ≡ entries lists

decode_lists_ok :
    (fuel : ℕ) (s : List ℕ) (es : List EfiSignatureData)
    → decode_lists fuel s ≡ ok es
    → Decoded s es
unfolding decode_lists
decode_lists_ok zero s es h = cc h
decode_lists_ok (suc fuel) s es h =
    let (next, e1, h1) =
      bind_result_ok (map_error (wrap "cannot obtain signature list") (next_signature_list s)) _
        h in
    go (decode_lists_ok fuel) next (map_error_ok _ (next_signature_list s) e1) h1
  where
    go :
        ((rest : List ℕ) (more : List EfiSignatureData)
          → decode_lists fuel rest ≡ ok more
          → Decoded rest more)
        → (next : Option (SignatureList × List ℕ)) → next_signature_list s ≡ ok next
        → ◌≡◌ {A = Result (List EfiSignatureData)}
            (elim next [
              | none ↦ ok []
              | some (l, rest) ↦
                  bind_result
                    (decode_signatures l.signature_type l.signatures)
                    λ sigs. bind_result (decode_lists fuel rest) λ more. ok (sigs ++ more)
            ])
            (ok es)
        → Decoded s es
    go ih none e h = record {
      lists = [];
      encoded = next_signature_list-none s e;
      same = sym (ok_injective h);
    }
    go ih (some (l, rest)) e h =
        let (size, p) = next_signature_list_ok s rest l e in
        let (sigs, e2, h2) = bind_result_ok (decode_signatures l.signature_type l.signatures) _ h in
        let (more, e3, h3) = bind_result_ok (decode_lists fuel rest) _ h2 in
        let d : Decoded rest more = ih rest more e3 in
        record {
          lists = l ∷ d.lists;
          encoded = (size, rest, p, d.encoded);
          same =
              sym (ok_injective h3)
              ∙ ap₂ (λ (x y : List EfiSignatureData). x ++ y)
                  (ok_injective (
                    sym e2
                    ∙ decode_signatures-AllSized l.signature_type l.signatures size p.large
                        p.all_sized))
                  d.same;
        }

pub decode_secure_boot_db_ok :
    (s : List ℕ) (es : List EfiSignatureData) → decode_secure_boot_db s ≡ ok es → Decoded s es
unfolding decode_secure_boot_db
decode_secure_boot_db_ok s es h = decode_lists_ok (suc (length s)) s es h

abbrev pub any_list : (SignatureList → Bool) → List SignatureList → Bool
any_list test [] = false
any_list test (l ∷ ls) = test l || any_list test ls

-- The search through a database answers for its lists.
pub in_database-Lists :
    (fuel : ℕ) (quirk : SigDbUpdateQuirkMode) (update_type update_sig : List ℕ)
    (ls : List SignatureList) (s : List ℕ)
    → length s < fuel
    → Lists ls s
    → in_database fuel quirk update_type update_sig s
      ≡ ok (any_list (list_has quirk update_type update_sig) ls)
unfolding in_database next_signature_list
in_database-Lists zero quirk update_type update_sig ls s enough h = absurd (omega arith)
in_database-Lists (suc fuel) quirk update_type update_sig [] s enough h = rw h refl
in_database-Lists (suc fuel) quirk update_type update_sig (l ∷ ls) s enough (size, rest, p, h) =
    rw (next_signature_list-Parses p) (
      rw
        (in_database-Lists fuel quirk update_type update_sig ls rest
          (omega (arith, length-Parses p)) h)
        (elim (Bool-cases (list_has quirk update_type update_sig l)) [
          | inl e ↦ rw e refl
          | inr e ↦ rw e refl
        ]))
