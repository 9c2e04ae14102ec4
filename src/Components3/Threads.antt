-- ===== src/Components3/Threads.antt =====
-- What the variants of the counting threads share: THREADS, and sums over the threads' places.
use railab_nuttx_code.Prelude.{
  ℕ, zero, suc, ◌+◌, ◌≤◌, ◌≡◌, refl, ap, sym, ◌∙◌, List, [], ◌∷◌, map, some, get_elem?, set, arith,
  ◌⊎◌, inl, inr,
}

abbrev pub threads : ℕ
threads = 3

module _ {A : Type 0} where
  abbrev pub total : (A → ℕ) → List A → ℕ
  total f [] = 0
  total f (p ∷ ps) = f p + total f ps

  pub total-set :
      (f : A → ℕ) (ps : List A) (i : ℕ) (p q : A)
      → get_elem? ps i ≡ some p
      → total f (set ps i q) + f p ≡ total f ps + f q
  total-set f [] i p q e = absurd (cc)
  total-set f (x ∷ ps) zero p q e = let same : x ≡ p = cc in omega (arith, ap f same)
  total-set f (x ∷ ps) (suc i) p q e = omega (arith, total-set f ps i p q e)

  -- A thread that a sum counts.
  pub total_member :
      (f : A → ℕ) (ps : List A)
      → 1 ≤ total f ps
      → (i : ℕ) × (p : A) × (get_elem? ps i ≡ some p) × (1 ≤ f p)
  total_member f [] h = absurd (omega arith)
  total_member f (x ∷ ps) h =
      let c : (1 ≤ f x) ⊎ (1 ≤ total f ps) = omega arith in
      elim c [
        | inl here ↦ (0, x, refl, here)
        | inr there ↦ let (i, p, at, one) = total_member f ps there in (suc i, p, at, one)
      ]

  pub total_bound :
      (f : A → ℕ) (ps : List A) (i : ℕ) (p : A) → get_elem? ps i ≡ some p → f p ≤ total f ps
  total_bound f [] i p e = absurd (cc)
  total_bound f (x ∷ ps) zero p e = let same : x ≡ p = cc in omega (arith, ap f same)
  total_bound f (x ∷ ps) (suc i) p e = omega (arith, total_bound f ps i p e)

  pub total_mono : (f g : A → ℕ) → ((p : A) → f p ≤ g p) → (ps : List A) → total f ps ≤ total g ps
  total_mono f g h [] = omega arith
  total_mono f g h (x ∷ ps) = omega (arith, h x, total_mono f g h ps)

  -- What stands at a place of a list that was written to at one place.
  pub get_elem?-set :
      (ps : List A) (i j : ℕ) (p q : A)
      → get_elem? (set ps i q) j ≡ some p
      → (q ≡ p) ⊎ (get_elem? ps j ≡ some p)
  get_elem?-set [] i j p q e = inr e
  get_elem?-set (x ∷ ps) zero zero p q e = inl (cc)
  get_elem?-set (x ∷ ps) zero (suc j) p q e = inr e
  get_elem?-set (x ∷ ps) (suc i) zero p q e = inr e
  get_elem?-set (x ∷ ps) (suc i) (suc j) p q e = get_elem?-set ps i j p q e

module _ {A B : Type 0} (f : A → B) where
  pub map-set : (ps : List A) (i : ℕ) (q : A) → map f (set ps i q) ≡ set (map f ps) i (f q)
  map-set [] i q = refl
  map-set (x ∷ ps) zero q = refl
  map-set (x ∷ ps) (suc i) q = ap (λ l. f x ∷ l) (map-set ps i q)

  pub get_elem?-map :
      (ps : List A) (i : ℕ) (p : A) → get_elem? ps i ≡ some p → get_elem? (map f ps) i ≡ some (f p)
  get_elem?-map [] i p e = absurd (cc)
  get_elem?-map (x ∷ ps) zero p e = let same : x ≡ p = cc in ap (λ y. some (f y)) same
  get_elem?-map (x ∷ ps) (suc i) p e = get_elem?-map ps i p e

  -- A move that the map does not show.
  pub map-set_same :
      (ps : List A) (i : ℕ) (p q : A)
      → get_elem? ps i ≡ some p
      → f p ≡ f q
      → map f (set ps i q) ≡ map f ps
  map-set_same [] i p q e same = refl
  map-set_same (x ∷ ps) zero p q e same =
      let here : x ≡ p = cc in ap (λ y. y ∷ map f ps) (sym (ap f here ∙ same))
  map-set_same (x ∷ ps) (suc i) p q e same = ap (λ l. f x ∷ l) (map-set_same ps i p q e same)
