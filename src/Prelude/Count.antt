-- ===== src/Prelude/Count.antt =====
-- How often a number stands in a list of numbers.
use Prim.Native.Nat.{◌≤◌, ℕ, ◌+◌, ◌≤◌}
use mathlib.Core.Path.{◌≡◌, refl}
use mathlib.Core.List.{map, List, [], ◌∷◌, ◌++◌}
use mathlib.Core.Option.{none, some}
use native.Mathlib.Omega.{arith}
use br_jobs_runner_kit.Prelude.Lists.{All}
use mathlib.Core.Path.{subst}
use mathlib.Core.Logic.{inl, inr}
use br_jobs_runner_kit.Prelude.Tests.{nat_beq_iff, Bool-cases, nat_beq, if◌then◌else◌}
use br_jobs_runner_kit.Prelude.Keyed.{nat_eq, lookup, delete, put, keys}

abbrev pub one_if : ℕ → ℕ → ℕ
one_if k j = if nat_beq k j then 1 else 0

unfoldable pub count : ℕ → List ℕ → ℕ
count k [] = 0
count k (j ∷ s) = one_if k j + count k s

pub count-append : (k : ℕ) (s t : List ℕ) → count k (s ++ t) ≡ count k s + count k t
unfolding count
count-append k [] t = omega arith
count-append k (j ∷ s) t = omega (arith, count-append k s t)

pub count-all_zero : (s : List ℕ) → ((k : ℕ) → count k s ≡ 0) → s ≡ []
unfolding count
count-all_zero [] h = refl
count-all_zero (j ∷ s) h = ground (arith, h j)

module _ {ℓ} {V : Type ℓ} where
  pub count-keys-delete :
      (k j : ℕ) (m : List (ℕ × V))
      → count k (keys (delete j m)) ≡ (if nat_beq k j then 0 else count k (keys m))
  unfolding count delete
  count-keys-delete k j [] = ground arith
  count-keys-delete k j ((i, v) ∷ m) = ground (arith, count-keys-delete k j m)

  pub count-keys-put :
      (k j : ℕ) (v : V) (m : List (ℕ × V))
      → count k (keys (put j v m)) ≡ (if nat_beq k j then 1 else count k (keys m))
  unfolding count put
  count-keys-put k j v m = ground (arith, count-keys-delete k j m)

  pub count_of_lookup :
      (k : ℕ) (v : V) (m : List (ℕ × V)) → lookup k m ≡ some v → 1 ≤ count k (keys m)
  unfolding count lookup
  count_of_lookup k v [] h = cc
  count_of_lookup k v ((i, w) ∷ m) h = ground (arith, count_of_lookup k v m)

module _ {ℓ} {A : Type ℓ} where
  pub count-map_append :
      (k : ℕ) (f : A → ℕ) (xs ys : List A)
      → count k (map f (xs ++ ys)) ≡ count k (map f xs) + count k (map f ys)
  unfolding count
  count-map_append k f [] ys = omega arith
  count-map_append k f (x ∷ xs) ys = omega (arith, count-map_append k f xs ys)

module _ {ℓ} {V : Type ℓ} where
  pub count_of_lookup-none : (k : ℕ) (m : List (ℕ × V)) → lookup k m ≡ none → count k (keys m) ≡ 0
  unfolding count lookup
  count_of_lookup-none k [] h = refl
  count_of_lookup-none k ((i, w) ∷ m) h = ground (arith, count_of_lookup-none k m)

  pub count-keys_taken :
      (k j : ℕ) (v : V) (m : List (ℕ × V))
      → lookup j m ≡ some v
      → count k (keys m) ≤ 1
      → count k (keys (delete j m)) + one_if k j ≡ count k (keys m)
  count-keys_taken k j v m e h =
      ground (arith, nat_beq_iff k j, count-keys-delete k j m, count_of_lookup j v m)

module _ {ℓ κ} {V : Type ℓ} (P : ℕ × V → Type κ) where
  pub All-delete : (k : ℕ) (m : List (ℕ × V)) → All P m → All P (delete k m)
  unfolding delete
  All-delete k [] h = tt
  All-delete k ((i, w) ∷ m) h = elim (Bool-cases (nat_beq k i)) [
    | inl e ↦ rw e (All-delete k m h.1)
    | inr e ↦ rw e (h.0, All-delete k m h.1)
  ]

  pub All-put : (k : ℕ) (v : V) (m : List (ℕ × V)) → P (k, v) → All P m → All P (put k v m)
  unfolding put
  All-put k v m p h = (p, All-delete k m h)

  pub All-lookup : (k : ℕ) (v : V) (m : List (ℕ × V)) → All P m → lookup k m ≡ some v → P (k, v)
  unfolding lookup
  All-lookup k v [] h e = cc
  All-lookup k v ((i, w) ∷ m) h e = elim (Bool-cases (nat_beq k i)) [
    | inl q ↦ subst P (ground arith) h.0
    | inr q ↦ All-lookup k v m h.1 (ground arith)
  ]
