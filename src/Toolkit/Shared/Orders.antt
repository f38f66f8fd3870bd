-- ===== src/Toolkit/Shared/Orders.antt =====
-- The registered runs against the cancel orders.
use br_jobs_runner_kit.Prelude.{
  ℕ, ◌≡◌, refl, Bool, true, false, not, ◌&&◌, List, [], ◌∷◌, Option, none, some, inl, inr, arith,
  Option-cases, nat_eq, ◌==◌, ==_iff, contains, lookup, contains-insert, contains-remove,
  contains-of_items, lookup-put, lookup-delete,
}
use br_jobs_runner_kit.Toolkit.Shared.{
  new_record, Shared, RunRecord, Call, registers, forgets, makes_order, deletes_order, replaces,
  changes_mode, begins_stop, ends_stop, stop_begins, stop_ends, stop_store, new, register_run,
  forget_run, trigger, trigger_all, order_made, order_deleted, replace_orders, mode_changed, step,
  run,
}

-- Whether the run is registered, and its token not cancelled.
abbrev live_record : Option RunRecord → Bool
live_record none = false
live_record (some r) = not r.cancelled

unfoldable pub is_live : ℕ → List (ℕ × RunRecord) → Bool
is_live r runs = live_record (lookup r runs)

is_live-trigger :
    (j r : ℕ) (runs : List (ℕ × RunRecord))
    → is_live j (trigger r runs) ≡ (is_live j runs && not (j == r))
unfolding is_live trigger
is_live-trigger j r runs = elim (Option-cases (lookup r runs)) [
  | inl e ↦ rw e (ground (arith, e, ==_iff j r))
  | inr (old, e) ↦
      rw e (ground (arith, e, ==_iff j r, lookup-put j r (record old { cancelled = true }) runs))
]

is_live-trigger_all :
    (j : ℕ) (orders : List ℕ) (runs : List (ℕ × RunRecord))
    → is_live j (trigger_all orders runs) ≡ (is_live j runs && not (contains j orders))
unfolding trigger_all contains
is_live-trigger_all j [] runs = ground arith
is_live-trigger_all j (r ∷ orders) runs =
    ground (arith, is_live-trigger_all j orders (trigger r runs), is_live-trigger j r runs)

abbrev Heard : ℕ → Shared → Type 0
Heard r s = (contains r s.known_cancels && is_live r s.runs) ≡ false

register_run-Heard :
    (r : ℕ) (s : Shared) (q job_id : ℕ) → Heard r s → Heard r (register_run s q job_id).0
unfolding register_run new_record is_live
register_run-Heard r s q job_id h = elim (Option-cases (lookup q s.runs)) [
  | inl e ↦ rw e (
      ground (
        arith,
        h,
        ==_iff r q,
        lookup-put r q (new_record q job_id (contains q s.known_cancels)) s.runs,
      ))
  | inr (old, e) ↦ rw e h
]

step-Heard : (r : ℕ) (s : Shared) (c : Call) → Heard r s → Heard r (step s c)
unfolding step
step-Heard r s (registers q job_id) h = register_run-Heard r s q job_id h
step-Heard r s (forgets q) h = unfold forget_run is_live in ground (arith, lookup-delete r q s.runs)
step-Heard r s (makes_order q) h =
    unfold order_made in
    ground (arith, contains-insert r q s.known_cancels, is_live-trigger r q s.runs)
step-Heard r s (deletes_order q) h =
    unfold order_deleted in ground (arith, contains-remove r q s.known_cancels)
step-Heard r s (replaces orders) h =
    unfold replace_orders in
    ground (arith, contains-of_items r orders, is_live-trigger_all r orders s.runs)
step-Heard r s (changes_mode mode) h = unfold mode_changed in h
step-Heard r s (begins_stop epoch) h = unfold stop_begins in ground arith
step-Heard r s (ends_stop epoch) h = unfold stop_ends stop_store in ground arith

run-Heard : (r : ℕ) (s : Shared) (cs : List Call) → Heard r s → Heard r (run s cs)
unfolding run
run-Heard r s [] h = h
run-Heard r s (c ∷ cs) h = run-Heard r (step s c) cs (step-Heard r s c h)

-- Whatever the order in which runs are registered and forgotten and orders are made, deleted and
-- replaced: the token of a registered run whose cancel order stands is cancelled. So an order is
-- heard, whether it came before the run or behind it.
pub run-orders_heard :
    (cs : List Call) (r : ℕ) (found : RunRecord)
    → lookup r (run new cs).runs ≡ some found
    → contains r (run new cs).known_cancels ≡ true
    → found.cancelled ≡ true
run-orders_heard cs r found e stands =
    let h = run-Heard r new cs (unfold new is_live contains in refl) in
    unfold is_live in ground (arith, h, e, stands)
