-- ===== src/Prelude/Keyed.antt =====
-- Boolean equality as an interface, and hash sets and hash maps over it: a set is a list of its
-- members, a map an association list. Neither exposes an order to the code that uses it.
use Prim.Native.Nat.{ℕ, suc, ◌+◌}
use mathlib.Core.Path.{◌≡◌, refl}
use mathlib.Core.Logic.{◌↔◌}
use mathlib.Core.Bool.{Bool, true, false, not, ◌&&◌, ◌||◌}
use mathlib.Core.Option.{Option, none, some}
use mathlib.Core.List.{List, [], ◌∷◌, map}
use native.Mathlib.Omega.{arith}
use br_jobs_runner_kit.Prelude.Tests.{nat_beq, nat_beq_iff, if◌then◌else◌}
use br_jobs_runner_kit.Prelude.Lists.{length}

pub record KeyEq {ℓ} (A : Type ℓ) : Type ℓ where
  pub equals : A → A → Bool
  pub equals_iff : (a b : A) → (equals a b ≡ true) ↔ (a ≡ b)

-- `==` on keys.
infix 50 ◌==◌
abbrev pub ◌==◌ {ℓ} : {A : Type ℓ} ⦃e : KeyEq A⦄ → A → A → Bool
◌==◌ ⦃e⦄ = e.equals

instance abbrev pub nat_eq : KeyEq ℕ
nat_eq = record { equals = nat_beq; equals_iff = nat_beq_iff }

module _ {ℓ} {K : Type ℓ} ⦃e : KeyEq K⦄ where
  pub ==_iff : (a b : K) → ((a == b) ≡ true) ↔ (a ≡ b)
  ==_iff a b = e.equals_iff a b

  pub ==_refl : (a : K) → (a == a) ≡ true
  ==_refl a = (e.equals_iff a a).1 refl

  -- `HashSet::contains`.
  unfoldable pub contains : K → List K → Bool
  contains k [] = false
  contains k (j ∷ s) = k == j || contains k s

  -- `HashSet::insert`.
  unfoldable pub insert : K → List K → List K
  unfolding contains
  insert k s = if contains k s then s else k ∷ s

  -- `HashSet::remove`.
  unfoldable pub remove : K → List K → List K
  remove k [] = []
  remove k (j ∷ s) = if k == j then remove k s else j ∷ remove k s

  -- `collect` into a `HashSet`.
  unfoldable pub of_items : List K → List K
  unfolding insert
  of_items [] = []
  of_items (k ∷ ks) = insert k (of_items ks)

  abbrev pub Distinct : List K → Type 0
  Distinct [] = Unit {0}
  Distinct (k ∷ s) = (contains k s ≡ false) × Distinct s

  pub contains-insert : (j k : K) (s : List K) → contains j (insert k s) ≡ (j == k || contains j s)
  unfolding insert
  contains-insert j k s = ground (arith, ==_iff j k)

  pub contains-remove :
      (j k : K) (s : List K) → contains j (remove k s) ≡ (not (j == k) && contains j s)
  unfolding contains remove
  contains-remove j k [] = ground arith
  contains-remove j k (i ∷ s) =
      ground (arith, ==_iff j k, ==_iff k i, ==_iff j i, contains-remove j k s)

  pub contains-of_items : (j : K) (ks : List K) → contains j (of_items ks) ≡ contains j ks
  unfolding contains of_items
  contains-of_items j [] = refl
  contains-of_items j (k ∷ ks) =
      ground (arith, contains-insert j k (of_items ks), contains-of_items j ks)

  pub insert-Distinct : (k : K) (s : List K) → Distinct s → Distinct (insert k s)
  unfolding insert
  insert-Distinct k s d = ground arith

  pub remove-Distinct : (k : K) (s : List K) → Distinct s → Distinct (remove k s)
  unfolding remove
  remove-Distinct k [] d = tt
  remove-Distinct k (j ∷ s) d = ground (arith, remove-Distinct k s d.1, contains-remove j k s)

  pub of_items-Distinct : (ks : List K) → Distinct (of_items ks)
  unfolding of_items
  of_items-Distinct [] = tt
  of_items-Distinct (k ∷ ks) = insert-Distinct k (of_items ks) (of_items-Distinct ks)

  pub length-insert :
      (k : K) (s : List K)
      → length (insert k s) ≡ (if contains k s then length s else suc (length s))
  unfolding insert
  length-insert k s = ground arith

  pub length-remove_absent : (k : K) (s : List K) → contains k s ≡ false → remove k s ≡ s
  unfolding contains remove
  length-remove_absent k [] h = refl
  length-remove_absent k (j ∷ s) h = ground (arith, length-remove_absent k s)

  pub length-remove :
      (k : K) (s : List K)
      → Distinct s
      → length (remove k s) + (if contains k s then 1 else 0) ≡ length s
  unfolding contains remove
  length-remove k [] d = omega arith
  length-remove k (j ∷ s) d =
      ground (arith, ==_iff k j, length-remove_absent k s, length-remove k s d.1)

abbrev pub keys {ℓ κ} : {K : Type ℓ} {V : Type κ} → List (K × V) → List K
keys = map λ p. p.0

module _ {ℓ κ} {K : Type ℓ} {V : Type κ} ⦃e : KeyEq K⦄ where
  -- `HashMap::get`.
  unfoldable pub lookup : K → List (K × V) → Option V
  lookup k [] = none
  lookup k ((j, v) ∷ m) = if k == j then some v else lookup k m

  -- `HashMap::remove`.
  unfoldable pub delete : K → List (K × V) → List (K × V)
  delete k [] = []
  delete k ((j, v) ∷ m) = if k == j then delete k m else (j, v) ∷ delete k m

  -- `HashMap::insert`: the old value of the key is gone.
  unfoldable pub put : K → V → List (K × V) → List (K × V)
  put k v m = (k, v) ∷ delete k m

  pub lookup-delete :
      (j k : K) (m : List (K × V)) → lookup j (delete k m) ≡ (if j == k then none else lookup j m)
  unfolding lookup delete
  lookup-delete j k [] = ground arith
  lookup-delete j k ((i, v) ∷ m) =
      ground (arith, ==_iff j k, ==_iff k i, ==_iff j i, lookup-delete j k m)

  pub lookup-put :
      (j k : K) (v : V) (m : List (K × V))
      → lookup j (put k v m) ≡ (if j == k then some v else lookup j m)
  unfolding lookup put
  lookup-put j k v m = ground (arith, lookup-delete j k m)

  pub contains-keys-delete :
      (j k : K) (m : List (K × V))
      → contains j (keys (delete k m)) ≡ (not (j == k) && contains j (keys m))
  unfolding contains delete
  contains-keys-delete j k [] = ground arith
  contains-keys-delete j k ((i, v) ∷ m) =
      ground (arith, ==_iff j k, ==_iff k i, ==_iff j i, contains-keys-delete j k m)
