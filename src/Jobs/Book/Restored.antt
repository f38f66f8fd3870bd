-- ===== src/Jobs/Book/Restored.antt =====
-- Which restored agents a book accepts.
use br_jobs_runner_kit.Prelude.{
  ℕ, ◌≡◌, refl, Bool, true, false, not, ◌&&◌, ◌||◌, List, [], ◌∷◌, map, arith, is_none, nat_eq,
  ==_iff, KeyEq, contains, insert, contains-insert,
}
use br_jobs_runner_kit.Jobs.Book.{AgentKey, key_eq, RestoredAgent, check_from, check_restored}

module _ {ℓ} {K : Type ℓ} ⦃e : KeyEq K⦄ where
  -- Whether a list has a member twice.
  unfoldable pub repeats : List K → Bool
  repeats [] = false
  repeats (k ∷ ks) = contains k ks || repeats ks

  -- Whether two lists have a member in common.
  unfoldable pub meets : List K → List K → Bool
  meets [] seen = false
  meets (k ∷ ks) seen = contains k seen || meets ks seen

  meets-insert :
      (k : K) (ks seen : List K) → meets ks (insert k seen) ≡ (contains k ks || meets ks seen)
  unfolding meets contains
  meets-insert k [] seen = refl
  meets-insert k (j ∷ ks) seen =
      ground (arith, meets-insert k ks seen, contains-insert j k seen, ==_iff j k, ==_iff k j)

  meets-none : (ks : List K) → meets ks [] ≡ false
  unfolding meets contains
  meets-none [] = refl
  meets-none (k ∷ ks) = meets-none ks

abbrev pub keys_of : List RestoredAgent → List AgentKey
keys_of = map λ a. a.key

abbrev pub ids_of : List RestoredAgent → List ℕ
ids_of = map λ a. a.agent_id

module _ (is_v7 : ℕ → Bool) where
  unfoldable pub all_v7 : List RestoredAgent → Bool
  all_v7 [] = true
  all_v7 (a ∷ rest) = is_v7 a.agent_id && all_v7 rest

  check_from-passes :
      (keys : List AgentKey) (ids : List ℕ) (restored : List RestoredAgent)
      → is_none (check_from is_v7 keys ids restored) ≡ (
          all_v7 restored
          && not (repeats (keys_of restored) || meets (keys_of restored) keys)
          && not (repeats (ids_of restored) || meets (ids_of restored) ids))
  unfolding check_from all_v7 repeats meets
  check_from-passes keys ids [] = refl
  check_from-passes keys ids (a ∷ rest) = ground (
    arith,
    check_from-passes (insert a.key keys) (insert a.agent_id ids) rest,
    meets-insert a.key (keys_of rest) keys,
    meets-insert a.agent_id (ids_of rest) ids,
  )

-- The restored agents are accepted exactly if each id is a UUIDv7, and no key and no id is given
-- twice.
pub check_restored-passes :
    (is_v7 : ℕ → Bool) (restored : List RestoredAgent)
    → is_none (check_restored is_v7 restored) ≡ (
        all_v7 is_v7 restored
        && not (repeats (keys_of restored))
        && not (repeats (ids_of restored)))
unfolding check_restored
check_restored-passes is_v7 restored = ground (
  arith,
  check_from-passes is_v7 [] [] restored,
  meets-none (keys_of restored),
  meets-none (ids_of restored),
)
