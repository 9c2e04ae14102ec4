-- ===== src/Cannode/Message/Copy.antt =====
-- memcpy where both arrays are long enough.
use railab_nuttx_code.Prelude.{
  ℕ, zero, suc, ◌≤◌, ◌≡◌, refl, ap, ap₂, ◌∙◌, List, [], ◌∷◌, ◌++◌, length, take, drop, append-nil,
  done, le→leb, arith,
}
use railab_nuttx_code.Cannode.Message.{memcpy}

pub memcpy-done :
    (dst src : List ℕ) (n : ℕ)
    → n ≤ length dst
    → n ≤ length src
    → memcpy dst src n ≡ done (take n src ++ drop n dst)
unfolding memcpy
memcpy-done dst src n hd hs = rw (le→leb n (length dst) hd, le→leb n (length src) hs)

take_all : (n : ℕ) (xs : List ℕ) → length xs ≡ n → take n xs ≡ xs
take_all zero [] e = refl
take_all zero (x ∷ xs) e = absurd (omega arith)
take_all (suc n) [] e = absurd (omega arith)
take_all (suc n) (x ∷ xs) e = ap (λ l. x ∷ l) (take_all n xs (omega arith))

drop_all : (n : ℕ) (xs : List ℕ) → length xs ≡ n → drop n xs ≡ []
drop_all zero [] e = refl
drop_all zero (x ∷ xs) e = absurd (omega arith)
drop_all (suc n) [] e = absurd (omega arith)
drop_all (suc n) (x ∷ xs) e = drop_all n xs (omega arith)

-- A copy over the whole array.
pub memcpy_all :
    (dst src : List ℕ) (n : ℕ) → length dst ≡ n → length src ≡ n → memcpy dst src n ≡ done src
memcpy_all dst src n ed es =
    memcpy-done dst src n (omega arith) (omega arith)
    ∙ ap done (ap₂ ◌++◌ (take_all n src es) (drop_all n dst ed) ∙ append-nil src)

-- What a copy of `n` bytes puts first.
pub take-copy : (n : ℕ) (xs ys : List ℕ) → n ≤ length xs → take n (take n xs ++ ys) ≡ take n xs
take-copy zero xs ys h = refl
take-copy (suc n) [] ys h = absurd (omega arith)
take-copy (suc n) (x ∷ xs) ys h = ap (λ l. x ∷ l) (take-copy n xs ys (omega arith))
