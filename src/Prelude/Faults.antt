-- ===== src/Prelude/Faults.antt =====
-- How a C function can end: with a result, waiting for ever on a mutex that is not released, or
-- in undefined behaviour (an access out of bounds, a signed overflow).
use Prim.Native.Nat.{ℕ, ◌<◌, ◌+◌}
use mathlib.Core.Path.{◌≡◌, refl, ap, ◌∙◌}
use mathlib.Core.Option.{Option, none, some}
use mathlib.Core.List.{List, ◌++◌}
use mathlib.Core.Bool.{Bool, true, false}
use native.Mathlib.Omega.{arith}
use railab_nuttx_code.Prelude.Tests.{ltb, if◌then◌else◌}
use railab_nuttx_code.Prelude.Lists.{
  length, get_elem?, get_or, set, get_elem?-eq-get_or, length-append, set-append, get_or-append,
}

pub data Outcome {ℓ} (A : Type ℓ) : Type ℓ where
  done : A → Outcome A
  blocked : Outcome A
  fault : Outcome A

infixl 5 ◌>>=◌ ◌>>◌
abbrev pub ◌>>=◌ {ℓ κ} : {A : Type ℓ} {B : Type κ} → Outcome A → (A → Outcome B) → Outcome B
done a >>= f = f a
blocked >>= f = blocked
fault >>= f = fault

abbrev pub ◌>>◌ {ℓ} : {B : Type ℓ} → Outcome (Unit {0}) → Outcome B → Outcome B
m >> k = m >>= λ _. k

abbrev pub guard : Bool → Outcome (Unit {0})
guard true = done tt
guard false = fault

module _ {ℓ} {A : Type ℓ} where
  abbrev of_option : Option A → Outcome A
  of_option none = fault
  of_option (some a) = done a

  -- `xs[i]`, and `xs[i] = v`.
  unfoldable pub fetch : List A → ℕ → Outcome A
  fetch xs i = of_option (get_elem? xs i)

  unfoldable pub store : List A → ℕ → A → Outcome (List A)
  store xs i v = if ltb i (length xs) then done (set xs i v) else fault

  pub fetch-done : (xs : List A) (i : ℕ) (d : A) → i < length xs → fetch xs i ≡ done (get_or xs i d)
  unfolding fetch
  fetch-done xs i d h = rw (get_elem?-eq-get_or xs i d h)

  pub store-done : (xs : List A) (i : ℕ) (v : A) → i < length xs → store xs i v ≡ done (set xs i v)
  unfolding store
  store-done xs i v h = ground arith

  -- Access behind a prefix, as a pointer that has moved over it makes it.
  pub store-append :
      (pre post : List A) (p k : ℕ) (v : A)
      → length pre ≡ p
      → k < length post
      → store (pre ++ post) (p + k) v ≡ done (pre ++ set post k v)
  store-append pre post p k v e h = rw (← e) (
      store-done (pre ++ post) (length pre + k) v (omega (arith, length-append {ℓ} pre post))
      ∙ ap done (set-append pre post k v))

  pub fetch-append :
      (pre post : List A) (p k : ℕ) (d : A)
      → length pre ≡ p
      → k < length post
      → fetch (pre ++ post) (p + k) ≡ done (get_or post k d)
  fetch-append pre post p k d e h = rw (← e) (
      fetch-done (pre ++ post) (length pre + k) d (omega (arith, length-append {ℓ} pre post))
      ∙ ap done (get_or-append pre post k d))

  pub store-eq-done :
      (xs : List A) (i : ℕ) (v : A) {ys : List A} → store xs i v ≡ done ys → ys ≡ set xs i v
  unfolding store
  store-eq-done xs i v h = ground arith

-- The parts of a sequence that returns.
pub >>=-eq-done {ℓ κ} :
    {A : Type ℓ} {B : Type κ} (m : Outcome A) (f : A → Outcome B) {b : B}
    → (m >>= f) ≡ done b
    → (a : A) × (m ≡ done a) × (f a ≡ done b)
>>=-eq-done (done a) f h = (a, refl, h)
>>=-eq-done blocked f h = absurd (cc)
>>=-eq-done fault f h = absurd (cc)

pub done-injective {ℓ} : {A : Type ℓ} (a b : A) → done a ≡ done b → a ≡ b
done-injective a b e = cc

pub >>=-done {ℓ} : {A : Type ℓ} (m : Outcome A) → (m >>= λ a. done a) ≡ m
>>=-done (done a) = refl
>>=-done blocked = refl
>>=-done fault = refl

pub >>=-assoc {ℓ} :
    {A B C : Type ℓ} (m : Outcome A) (f : A → Outcome B) (g : B → Outcome C)
    → (m >>= λ a. f a >>= g) ≡ ((m >>= f) >>= g)
>>=-assoc (done a) f g = refl
>>=-assoc blocked f g = refl
>>=-assoc fault f g = refl

pub >>=-ext {ℓ} :
    {A B : Type ℓ} (m : Outcome A) {f g : A → Outcome B}
    → ((a : A) → f a ≡ g a)
    → (m >>= f) ≡ (m >>= g)
>>=-ext (done a) e = e a
>>=-ext blocked e = refl
>>=-ext fault e = refl
