-- ===== src/Cannode/Network/Merge.antt =====
-- Two lists merged: all elements of both and no others, those of each list in their order.
use railab_nuttx_code.Prelude.{List, [], ◌∷◌, ◌++◌, map}

pub data Merge {ℓ} {A : Type ℓ} : (xs ys zs : List A) → Type ℓ where
  nothing : Merge [] [] []
  left : {xs ys zs : List A} (x : A) → Merge xs ys zs → Merge (x ∷ xs) ys (x ∷ zs)
  right : {xs ys zs : List A} (y : A) → Merge xs ys zs → Merge xs (y ∷ ys) (y ∷ zs)

module _ {ℓ} {A : Type ℓ} where
  pub Merge-snoc_left :
      {xs ys zs : List A} (a : A) → Merge xs ys zs → Merge (xs ++ a ∷ []) ys (zs ++ a ∷ [])
  Merge-snoc_left a nothing = left a nothing
  Merge-snoc_left a (left x m) = left x (Merge-snoc_left a m)
  Merge-snoc_left a (right y m) = right y (Merge-snoc_left a m)

  pub Merge-snoc_right :
      {xs ys zs : List A} (a : A) → Merge xs ys zs → Merge xs (ys ++ a ∷ []) (zs ++ a ∷ [])
  Merge-snoc_right a nothing = right a nothing
  Merge-snoc_right a (left x m) = left x (Merge-snoc_right a m)
  Merge-snoc_right a (right y m) = right y (Merge-snoc_right a m)

  pub Merge-map {κ} :
      {B : Type κ} (f : A → B) {xs ys zs : List A}
      → Merge xs ys zs
      → Merge (map f xs) (map f ys) (map f zs)
  Merge-map f nothing = nothing
  Merge-map f (left x m) = left (f x) (Merge-map f m)
  Merge-map f (right y m) = right (f y) (Merge-map f m)
