-- ===== src/Kit/CancelFeed/Listen.antt =====
-- What the cancel set is after any happenings of the bucket and its watch.
use br_jobs_runner_kit.Prelude.{
  ℕ, Bool, true, false, List, [], ◌∷◌, ◌≡◌, refl, ap, ◌∙◌, none, some, arith, nat_eq, ◌==◌,
  contains, of_items, contains-insert, contains-remove, if◌then◌else◌,
}
use br_jobs_runner_kit.Core.Cancel.{
  CancelSet, apply_put, apply_delete, replace_with_replay, is_cancelled,
}
use br_jobs_runner_kit.Kit.CancelFeed.{
  Operation, put, delete, purge, Happening, entry, errors, ends, opens, refuses, next_round, listen,
}

abbrev orders_cancel : Operation → Bool
orders_cancel put = true
orders_cancel _ = false

-- Whether the cancel of the run `r` stands, `before` being whether it stood: what the last entry on
-- it says that a watch yields, and no where the watch was opened again since.
pub stands : ℕ → Bool → Bool → List Happening → Bool
stands r before watch [] = before
stands r before true (entry (some q) operation ∷ hs) =
    stands r (if r == q then orders_cancel operation else before) true hs
stands r before true (errors ∷ hs) = stands r before false hs
stands r before true (ends ∷ hs) = stands r before false hs
stands r before false (opens ∷ hs) = stands r false true hs
stands r before watch (_ ∷ hs) = stands r before watch hs

-- After any happenings the loop counts a run as cancelled exactly if its cancel stands: a broken
-- watch loses no order that the bucket replays when it is opened again, and keeps none that the
-- bucket dropped meanwhile.
pub listen-stands :
    (r : ℕ) (s : CancelSet) (watch : Bool) (hs : List Happening)
    → is_cancelled (listen s watch hs) r ≡ stands r (is_cancelled s r) watch hs
unfolding listen next_round stands is_cancelled apply_put apply_delete replace_with_replay of_items
    contains
listen-stands r s watch [] = refl
listen-stands r s true (entry none operation ∷ hs) = listen-stands r s true hs
listen-stands r s true (entry (some q) put ∷ hs) =
    listen-stands r (apply_put s q) true hs
    ∙ ap (λ b. stands r b true hs) (ground (arith, contains-insert r q s.cancelled))
listen-stands r s true (entry (some q) delete ∷ hs) =
    listen-stands r (apply_delete s q) true hs
    ∙ ap (λ b. stands r b true hs) (ground (arith, contains-remove r q s.cancelled))
listen-stands r s true (entry (some q) purge ∷ hs) =
    listen-stands r (apply_delete s q) true hs
    ∙ ap (λ b. stands r b true hs) (ground (arith, contains-remove r q s.cancelled))
listen-stands r s true (errors ∷ hs) = listen-stands r s false hs
listen-stands r s true (ends ∷ hs) = listen-stands r s false hs
listen-stands r s true (opens ∷ hs) = listen-stands r s true hs
listen-stands r s true (refuses ∷ hs) = listen-stands r s true hs
listen-stands r s false (opens ∷ hs) = listen-stands r (replace_with_replay s []) true hs
listen-stands r s false (entry key operation ∷ hs) = listen-stands r s false hs
listen-stands r s false (errors ∷ hs) = listen-stands r s false hs
listen-stands r s false (ends ∷ hs) = listen-stands r s false hs
listen-stands r s false (refuses ∷ hs) = listen-stands r s false hs
