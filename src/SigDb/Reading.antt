-- ===== src/SigDb/Reading.antt =====
-- The readers of secureboot_policy.go: what they take from the front, and that they take it.
use mathlib.Core.List.{append_assoc}
use secboot.Prelude.{
  ℕ, zero, suc, ◌<◌, ◌≡◌, refl, ap, sym, ◌∙◌, List, [], ◌∷◌, ◌++◌, true, Bool-cases, inl, inr, leb,
  length, take, drop, take-append-drop, length-take, length-append, arith,
}
use secboot.Exec.{Result, ok, wrap, map_error}
use secboot.Exec.Results.{bind_result_ok, map_error_ok, not_ok}
use secboot.SigDb.{read_full, read_u32, le32, put_le32, read_signatures}
use secboot.SigDb.Database.{flatten}

take-append_all {ℓ} : {A : Type ℓ} (a r : List A) → take (length a) (a ++ r) ≡ a
take-append_all [] r = refl
take-append_all (x ∷ a) r = ap (λ l. x ∷ l) (take-append_all a r)

drop-append_all {ℓ} : {A : Type ℓ} (a r : List A) → drop (length a) (a ++ r) ≡ r
drop-append_all [] r = refl
drop-append_all (x ∷ a) r = drop-append_all a r

pub read_full-append : (n : ℕ) (a r : List ℕ) → length a ≡ n → read_full n (a ++ r) ≡ ok (a, r)
unfolding read_full
read_full-append n a r h = rw (← h) (rw (enough, take-append_all a r, drop-append_all a r) refl)
  where
    enough : leb (length a) (length (a ++ r)) ≡ true
    enough = ground (arith, length-append a r)

pub read_full_ok :
    (n : ℕ) (s a r : List ℕ) → read_full n s ≡ ok (a, r) → (length a ≡ n) × (s ≡ a ++ r)
unfolding read_full
read_full_ok n s a r h = elim (Bool-cases (leb n (length s))) [
  | inl e ↦ parts e (rw e at h)
  | inr e ↦ not_ok (rw e at h)
]
  where
    parts :
        leb n (length s) ≡ true
        → ◌≡◌ {A = Result (List ℕ × List ℕ)} (ok (take n s, drop n s)) (ok (a, r))
        → (length a ≡ n) × (s ≡ a ++ r)
    parts e p =
        let pa : take n s ≡ a = cc p in
        let pr : drop n s ≡ r = cc p in
        (rw (← pa) (ground (arith, length-take n s)), rw (← pa, ← pr) (sym (take-append-drop n s)))

pub read_u32-append : (f r : List ℕ) → length f ≡ 4 → read_u32 (f ++ r) ≡ ok (le32 f, r)
unfolding read_u32
read_u32-append f r h = rw (read_full-append 4 f r h) refl

-- The bytes of a field, with what they mean.
pub record Field (n : ℕ) (s r : List ℕ) : Type 0 where
  pub bytes : List ℕ
  pub size : length bytes ≡ 4
  pub value : le32 bytes ≡ n
  pub front : s ≡ bytes ++ r

pub read_u32_ok : (s r : List ℕ) (n : ℕ) → read_u32 s ≡ ok (n, r) → Field n s r
unfolding read_u32
read_u32_ok s r n h =
    let (p, first, same) = bind_result_ok (read_full 4 s) _ h in
    let (size, front) = read_full_ok 4 s p.0 p.1 first in
    record {
      bytes = p.0;
      size = size;
      value = cc same;
      front = front ∙ ap (λ l. p.0 ++ l) (cc same);
    }

pub le32-put_le32 : (n : ℕ) → n < 4294967296 → le32 (put_le32 n) ≡ n
unfolding le32 put_le32
le32-put_le32 n h = omega arith

pub length-put_le32 : (n : ℕ) → length (put_le32 n) ≡ 4
unfolding put_le32
length-put_le32 n = refl

abbrev pub AllSized : ℕ → List (List ℕ) → Type 0
AllSized size [] = Unit
AllSized size (sig ∷ sigs) = (length sig ≡ size) × AllSized size sigs

pub read_signatures-flatten :
    (sigs : List (List ℕ)) (size : ℕ) (r : List ℕ)
    → AllSized size sigs
    → read_signatures (length sigs) size (flatten sigs ++ r) ≡ ok (sigs, r)
unfolding read_signatures flatten
read_signatures-flatten [] size r all = refl
read_signatures-flatten (sig ∷ sigs) size r all =
    rw
      (
        append_assoc sig (flatten sigs) r,
        read_full-append size sig (flatten sigs ++ r) all.0,
        read_signatures-flatten sigs size r all.1,
      )
      refl

pub read_signatures_ok :
    (count size : ℕ) (s r : List ℕ) (sigs : List (List ℕ))
    → read_signatures count size s ≡ ok (sigs, r)
    → (length sigs ≡ count) × AllSized size sigs × (s ≡ flatten sigs ++ r)
unfolding read_signatures flatten
read_signatures_ok zero size s r sigs h = let e : [] ≡ sigs = cc h in rw (← e) (refl, tt, cc h)
read_signatures_ok (suc count) size s r sigs h =
    let (p, first, h1) =
      bind_result_ok (map_error (wrap "cannot read EFI_SIGNATURE_DATA entry") (read_full size s)) _
        h in
    let (q, second, same) = bind_result_ok (read_signatures count size p.1) _ h1 in
    let (size', front) = read_full_ok size s p.0 p.1 (map_error_ok _ (read_full size s) first) in
    let (counted, all, front') = read_signatures_ok count size p.1 q.1 q.0 second in
    let e : p.0 ∷ q.0 ≡ sigs = cc same in
    rw (← e) (
      ap suc counted,
      (size', all),
      front
          ∙ ap (λ l. p.0 ++ l) (front' ∙ ap (λ l. flatten q.0 ++ l) (cc same))
          ∙ sym (append_assoc p.0 (flatten q.0) r),
    )
