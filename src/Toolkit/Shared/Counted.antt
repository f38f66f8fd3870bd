-- ===== src/Toolkit/Shared/Counted.antt =====
-- The epochs of stops that were stored or are on their way, against the epoch of the mode.
use br_jobs_runner_kit.Toolkit.Shared.{step}
use br_jobs_runner_kit.Prelude.{sym, ◌∙◌}
use br_jobs_runner_kit.Prelude.{
  subst, All, Bool, ◌||◌, ◌≢◌, contains, nat_eq, Bool-cases, inl, if_branches, ℕ, ◌+◌, ◌≤◌, ◌<◌,
  ◌≡◌, ◌⊎◌, inr, refl, true, false, List, [], ◌∷◌, arith, nat_beq,
}
use br_jobs_runner_kit.Toolkit.Shared.{
  Shared, Mode, Call, registers, forgets, makes_order, deletes_order, replaces, changes_mode,
  begins_stop, ends_stop, stop_begins, stop_ends, stop_store, stop_counts, remove_first,
  not_stopped, register_run, forget_run, order_made, order_deleted, replace_orders, mode_changed,
  claims_stopped, step, run,
}

abbrev pub changed : Call → ℕ
changed (changes_mode mode) = 1
changed _ = 0

-- How often the mode changed.
unfoldable pub changes : List Call → ℕ
changes [] = 0
changes (c ∷ cs) = changed c + changes cs

-- Whether a stop for the epoch is asked for.
unfoldable pub asks : ℕ → List Call → Bool
asks epoch [] = false
asks epoch (begins_stop asked ∷ cs) = nat_beq epoch asked || asks epoch cs
asks epoch (c ∷ cs) = asks epoch cs

All-remove_first : (P : ℕ → Type 0) (k : ℕ) (js : List ℕ) → All P js → All P (remove_first k js)
unfolding remove_first
All-remove_first P k [] h = tt
All-remove_first P k (j ∷ js) h =
    if_branches (All P) (nat_beq k j) {y = j ∷ remove_first k js} (λ q. h.1)
      (λ q. (h.0, All-remove_first P k js h.1))

All-contains : (P : ℕ → Type 0) (k : ℕ) (js : List ℕ) → All P js → contains k js ≡ true → P k
unfolding contains
All-contains P k [] h c = absurd (ground arith)
All-contains P k (j ∷ js) h c = elim (Bool-cases (nat_beq k j)) [
  | inl q ↦ subst P (ground (arith, q)) h.0
  | inr q ↦ All-contains P k js h.1 (ground (arith, c, q))
]

-- The epoch counts the changes, and no stop for a later epoch was stored or is on its way.
pub record Counts (n : ℕ) (s : Shared) : Type 0 where
  pub counted : s.mode_epoch ≡ n
  pub halted : (s.stopped_epoch ≤ n) ⊎ (s.stopped_epoch ≡ not_stopped)
  pub storing : All (λ e. e ≤ n) s.storing

-- The mode is that of an epoch for which no stop was stored or is on its way.
pub record Free (n : ℕ) (s : Shared) : Type 0 where
  pub counted : s.mode_epoch ≡ n
  pub free : s.stopped_epoch ≢ n
  pub storing : All (λ e. e ≢ n) s.storing

All-later : (n : ℕ) (js : List ℕ) → All (λ e. e ≤ n) js → All (λ e. e ≤ n + 1) js
All-later n [] h = tt
All-later n (j ∷ js) h = (omega (arith, h.0), All-later n js h.1)

All-below : (n : ℕ) (js : List ℕ) → All (λ e. e ≤ n) js → All (λ e. e ≢ n + 1) js
All-below n [] h = tt
All-below n (j ∷ js) h = ((λ q. omega (arith, h.0, q)), All-below n js h.1)

stop_begins-Counts : (n : ℕ) (s : Shared) (epoch : ℕ) → Counts n s → Counts n (stop_begins s epoch)
unfolding stop_begins stop_counts
stop_begins-Counts n s epoch h = elim (Bool-cases (nat_beq epoch s.mode_epoch)) [
  | inl q ↦ rw q record {
    counted = h.counted;
    halted = h.halted;
    storing = (ground (arith, q, h.counted), h.storing);
  }
  | inr q ↦ rw q h
]

stop_ends-Counts : (n : ℕ) (s : Shared) (epoch : ℕ) → Counts n s → Counts n (stop_ends s epoch)
unfolding stop_ends stop_store
stop_ends-Counts n s epoch h = elim (Bool-cases (contains epoch s.storing)) [
  | inl q ↦ rw q record {
    counted = h.counted;
    halted = inl (All-contains (λ e. e ≤ n) epoch s.storing h.storing q);
    storing = All-remove_first (λ e. e ≤ n) epoch s.storing h.storing;
  }
  | inr q ↦ rw q h
]

register_run_rest :
    (s : Shared) (q job_id : ℕ)
    → let s' = (register_run s q job_id).0 in
      (s'.mode_epoch ≡ s.mode_epoch)
      × (s'.stopped_epoch ≡ s.stopped_epoch)
      × (s'.storing ≡ s.storing)
unfolding register_run
register_run_rest s q job_id = ground arith

same_Counts :
    {n : ℕ} {s s' : Shared}
    → s'.mode_epoch ≡ s.mode_epoch
    → s'.stopped_epoch ≡ s.stopped_epoch
    → s'.storing ≡ s.storing
    → Counts n s
    → Counts (n + 0) s'
same_Counts {n} {s} {s'} e f g h = record {
  counted = omega (arith, e, h.counted);
  halted = ground (arith, f, h.halted);
  storing =
      subst (All (λ e. e ≤ n + 0)) (sym g)
        (subst (λ m. All (λ e. e ≤ m) s.storing) (omega arith) h.storing);
}

step-Counts :
    (n : ℕ) (s : Shared) (c : Call)
    → n + changed c < not_stopped
    → Counts n s
    → Counts (n + changed c) (step s c)
unfolding step forget_run order_made order_deleted replace_orders mode_changed
step-Counts n s (changes_mode mode) lt h = record {
  counted = ground (arith, h.counted);
  halted = ground (arith, h.halted);
  storing = All-later n s.storing h.storing;
}
step-Counts n s (begins_stop epoch) lt h =
    same_Counts refl refl refl (stop_begins-Counts n s epoch h)
step-Counts n s (ends_stop epoch) lt h = same_Counts refl refl refl (stop_ends-Counts n s epoch h)
step-Counts n s (registers q job_id) lt h =
    let r = register_run_rest s q job_id in same_Counts r.0 r.1 r.2 h
step-Counts n s (forgets q) lt h = same_Counts refl refl refl h
step-Counts n s (makes_order q) lt h = same_Counts refl refl refl h
step-Counts n s (deletes_order q) lt h = same_Counts refl refl refl h
step-Counts n s (replaces orders) lt h = same_Counts refl refl refl h

pub run-Counts :
    (n : ℕ) (s : Shared) (cs : List Call)
    → n + changes cs < not_stopped
    → Counts n s
    → Counts (n + changes cs) (run s cs)
unfolding run changes
run-Counts n s [] lt h = subst (λ m. Counts m s) (omega arith) h
run-Counts n s (c ∷ cs) lt h =
    subst (λ m. Counts m (run (step s c) cs)) (omega arith)
      (run-Counts (n + changed c) (step s c) cs (omega (arith, lt))
        (step-Counts n s c (omega (arith, lt)) h))

pub mode_changed-Free :
    (n : ℕ) (s : Shared) (mode : Mode)
    → n + 1 < not_stopped
    → Counts n s
    → Free (n + 1) (mode_changed s mode)
unfolding mode_changed
mode_changed-Free n s mode lt h = record {
  counted = omega (arith, h.counted, lt);
  free = λ q. ground (arith, h.halted, q, lt);
  storing = All-below n s.storing h.storing;
}

stop_begins-Free :
    (n : ℕ) (s : Shared) (epoch : ℕ)
    → nat_beq n epoch ≡ false
    → Free n s
    → Free n (stop_begins s epoch)
unfolding stop_begins stop_counts
stop_begins-Free n s epoch d h = elim (Bool-cases (nat_beq epoch s.mode_epoch)) [
  | inl q ↦ absurd (ground (arith, q, h.counted, d))
  | inr q ↦ rw q h
]

stop_ends-Free : (n : ℕ) (s : Shared) (epoch : ℕ) → Free n s → Free n (stop_ends s epoch)
unfolding stop_ends stop_store
stop_ends-Free n s epoch h = elim (Bool-cases (contains epoch s.storing)) [
  | inl q ↦ rw q record {
    counted = h.counted;
    free = All-contains (λ e. e ≢ n) epoch s.storing h.storing q;
    storing = All-remove_first (λ e. e ≢ n) epoch s.storing h.storing;
  }
  | inr q ↦ rw q h
]

same_Free :
    {n : ℕ} {s s' : Shared}
    → s'.mode_epoch ≡ s.mode_epoch
    → s'.stopped_epoch ≡ s.stopped_epoch
    → s'.storing ≡ s.storing
    → Free n s
    → Free n s'
same_Free {n} {s} {s'} e f g h = record {
  counted = e ∙ h.counted;
  free = λ q. h.free (sym f ∙ q);
  storing = subst (All (λ e. e ≢ n)) (sym g) h.storing;
}

step-Free :
    (n : ℕ) (s : Shared) (c : Call)
    → changed c ≡ 0
    → asks n (c ∷ []) ≡ false
    → Free n s
    → Free n (step s c)
unfolding step forget_run order_made order_deleted replace_orders asks
step-Free n s (changes_mode mode) z d h = absurd (ground (arith, z))
step-Free n s (begins_stop epoch) z d h = stop_begins-Free n s epoch (ground (arith, d)) h
step-Free n s (ends_stop epoch) z d h = stop_ends-Free n s epoch h
step-Free n s (registers q job_id) z d h =
    let r = register_run_rest s q job_id in same_Free r.0 r.1 r.2 h
step-Free n s (forgets q) z d h = same_Free refl refl refl h
step-Free n s (makes_order q) z d h = same_Free refl refl refl h
step-Free n s (deletes_order q) z d h = same_Free refl refl refl h
step-Free n s (replaces orders) z d h = same_Free refl refl refl h

asks-cons : (n : ℕ) (c : Call) (cs : List Call) → asks n (c ∷ cs) ≡ (asks n (c ∷ []) || asks n cs)
unfolding asks
asks-cons n (begins_stop epoch) cs = ground arith
asks-cons n (changes_mode mode) cs = refl
asks-cons n (ends_stop epoch) cs = refl
asks-cons n (registers q job_id) cs = refl
asks-cons n (forgets q) cs = refl
asks-cons n (makes_order q) cs = refl
asks-cons n (deletes_order q) cs = refl
asks-cons n (replaces orders) cs = refl

pub run-Free :
    (n : ℕ) (s : Shared) (cs : List Call)
    → changes cs ≡ 0
    → asks n cs ≡ false
    → Free n s
    → Free n (run s cs)
unfolding run changes
run-Free n s [] z d h = h
run-Free n s (c ∷ cs) z d h =
    let split = sym (asks-cons n c cs) ∙ d in
    run-Free n (step s c) cs (omega (arith, z)) (ground (arith, split))
      (step-Free n s c (omega (arith, z)) (ground (arith, split)) h)

pub Free-claims : (n : ℕ) (s : Shared) → Free n s → claims_stopped s ≡ false
unfolding claims_stopped
Free-claims n s h = ground (arith, h.counted, h.free)
