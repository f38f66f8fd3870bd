-- ===== src/Prelude/Within.antt =====
-- One list within another: its members stand there too, in the same order.
use mathlib.Core.Path.{◌≡◌, refl}
use mathlib.Core.Logic.{◌⊎◌, inl, inr}
use mathlib.Core.List.{List, [], ◌∷◌, ◌++◌}

module _ {ℓ} {A : Type ℓ} where
  abbrev pub Sub : List A → List A → Type ℓ
  Sub [] ys = Unit
  Sub (x ∷ xs) [] = (x ∷ xs) ≡ []
  Sub (x ∷ xs) (y ∷ ys) = ((x ≡ y) × Sub xs ys) ⊎ Sub (x ∷ xs) ys

  pub Sub-refl : (xs : List A) → Sub xs xs
  Sub-refl [] = tt
  Sub-refl (x ∷ xs) = inl (refl, Sub-refl xs)

  pub Sub-skip : (xs : List A) (y : A) (ys : List A) → Sub xs ys → Sub xs (y ∷ ys)
  Sub-skip [] y ys h = tt
  Sub-skip (x ∷ xs) y ys h = inr h

  pub Sub-tail : (x : A) (xs ys : List A) → Sub (x ∷ xs) ys → Sub xs ys
  Sub-tail x xs [] h = cc
  Sub-tail x xs (y ∷ ys) (inl h) = Sub-skip xs y ys h.1
  Sub-tail x xs (y ∷ ys) (inr h) = Sub-skip xs y ys (Sub-tail x xs ys h)

  pub Sub-init : (xs zs ys : List A) → Sub (xs ++ zs) ys → Sub xs ys
  Sub-init [] zs ys h = tt
  Sub-init (x ∷ xs) zs [] h = cc
  Sub-init (x ∷ xs) zs (y ∷ ys) (inl h) = inl (h.0, Sub-init xs zs ys h.1)
  Sub-init (x ∷ xs) zs (y ∷ ys) (inr h) = inr (Sub-init (x ∷ xs) zs ys h)

  pub Sub-append : (xs ys zs : List A) → Sub xs ys → Sub (xs ++ zs) (ys ++ zs)
  Sub-append [] [] zs h = Sub-refl zs
  Sub-append [] (y ∷ ys) zs h = Sub-skip zs y (ys ++ zs) (Sub-append [] ys zs tt)
  Sub-append (x ∷ xs) [] zs h = cc
  Sub-append (x ∷ xs) (y ∷ ys) zs (inl h) = inl (h.0, Sub-append xs ys zs h.1)
  Sub-append (x ∷ xs) (y ∷ ys) zs (inr h) = inr (Sub-append (x ∷ xs) ys zs h)
