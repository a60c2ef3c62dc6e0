-- ===== src/Profile/Values.antt =====
-- The entries of a map of PCR values after one of them is changed.
use secboot.Prelude.{ℕ, ◌≡◌, refl, ◌++◌, Option, some, Bool, true, false, ◌==◌, if◌then◌else◌}
use secboot.Tpm.{Alg, Digest, PcrValues, PcrFunctions, in_bank, value_of}
use secboot.Profile.{put_value, extend_value, zeros, or_zeros}

in_bank-if :
    (b : Bool) (x y : Option (ℕ → Option Digest)) (q : ℕ)
    → in_bank (if b then x else y) q ≡ (if b then in_bank x q else in_bank y q)
in_bank-if true x y q = refl
in_bank-if false x y q = refl

pub value_of-put_value :
    (v : PcrValues) (alg : Alg) (pcr : ℕ) (d : Digest) (a : Alg) (q : ℕ)
    → value_of (put_value v alg pcr d) a q
      ≡ (if a == alg then (if q == pcr then some d else value_of v alg q) else value_of v a q)
unfolding put_value
value_of-put_value v alg pcr d a q = in_bank-if (a == alg) _ _ q

-- `extendValue` hashes the old value, or zeroes if there is none, with the new one, and leaves
-- every other PCR of every bank alone.
pub value_of-extend_value :
    (f : PcrFunctions) (alg : Alg) (pcr : ℕ) (value : Digest) (v : PcrValues) (a : Alg) (q : ℕ)
    → value_of (extend_value f alg pcr value v) a q ≡ (
        if a == alg
        then (if q == pcr
            then some (f.hash alg (or_zeros (value_of v alg pcr) (zeros (f.size alg)) ++ value))
            else value_of v alg q)
        else value_of v a q)
unfolding extend_value
value_of-extend_value f alg pcr value v a q = value_of-put_value v alg pcr _ a q
