-- ===== src/Toolkit/Shared.antt =====
-- crates/br-runner-toolkit/src/shared.rs, built without the feature test-host, and the part of
-- record.rs that it uses. A method under the mutex of the registry is one step.
pub mod Orders
pub mod Counted
pub mod Epochs
use br_jobs_runner_kit.Prelude.{
  ℕ, ◌+◌, ◌%◌, ◌^◌, Bool, true, false, not, ◌&&◌, List, [], ◌∷◌, Option, none, some, nat_eq,
  nat_beq, contains, insert, remove, of_items, lookup, put, delete, if◌then◌else◌,
}

pub data Mode : Type 0 where
  no_entry push claim : Mode

pub record LoopState : Type 0 where
  pub mode : Mode
  pub replay_complete : Bool

abbrev pub is_no_entry : Mode → Bool
is_no_entry no_entry = true
is_no_entry _ = false

unfoldable pub can_ask : LoopState → Bool
can_ask state = not (is_no_entry state.mode) && state.replay_complete

-- `cancelled` is whether the handle of the run's cancel token was triggered.
pub record RunRecord : Type 0 where
  pub run_id : ℕ
  pub job_id : ℕ
  pub cancelled : Bool
  pub started_pending : Bool

-- `u64::MAX`.
abbrev pub not_stopped : ℕ
not_stopped = 18_446_744_073_709_551_615

-- `storing` holds the epochs of the calls of `stop_claims` that are between their load and their
-- store.
pub record Shared : Type 0 where
  pub loop_state : LoopState
  pub draining : Bool
  pub mode_epoch : ℕ
  pub stopped_epoch : ℕ
  pub runs : List (ℕ × RunRecord)
  pub known_cancels : List ℕ
  pub storing : List ℕ

unfoldable pub new : Shared
new = record {
  loop_state = record { mode = no_entry; replay_complete = false };
  draining = false;
  mode_epoch = 0;
  stopped_epoch = not_stopped;
  runs = [];
  known_cancels = [];
  storing = [];
}

pub data Registered : Type 0 where
  ok err : RunRecord → Registered

unfoldable pub new_record : ℕ → ℕ → Bool → RunRecord
new_record run_id job_id cancelled = record {
  run_id = run_id;
  job_id = job_id;
  cancelled = cancelled;
  started_pending = true;
}

abbrev register_as : Shared → RunRecord → Option RunRecord → Shared × Registered
register_as s fresh (some existing) = (s, err existing)
register_as s fresh none = (record s { runs = put fresh.run_id fresh s.runs }, ok fresh)

unfoldable pub register_run : Shared → ℕ → ℕ → Shared × Registered
unfolding new_record
register_run s run_id job_id =
    register_as s (new_record run_id job_id (contains run_id s.known_cancels))
      (lookup run_id s.runs)

unfoldable pub forget_run : Shared → ℕ → Shared
forget_run s run_id = record s { runs = delete run_id s.runs }

-- `cancel.trigger()` on the record of a run, where it is registered.
abbrev pub trigger_at : ℕ → Option RunRecord → List (ℕ × RunRecord) → List (ℕ × RunRecord)
trigger_at run_id none runs = runs
trigger_at run_id (some r) runs = put run_id (record r { cancelled = true }) runs

unfoldable pub trigger : ℕ → List (ℕ × RunRecord) → List (ℕ × RunRecord)
trigger run_id runs = trigger_at run_id (lookup run_id runs) runs

unfoldable pub order_made : Shared → ℕ → Shared
unfolding trigger
order_made s run_id = record s {
  known_cancels = insert run_id s.known_cancels;
  runs = trigger run_id s.runs;
}

unfoldable pub order_deleted : Shared → ℕ → Shared
order_deleted s run_id = record s { known_cancels = remove run_id s.known_cancels }

-- The `for` loop of `replace_orders`.
unfoldable pub trigger_all : List ℕ → List (ℕ × RunRecord) → List (ℕ × RunRecord)
unfolding trigger
trigger_all [] runs = runs
trigger_all (run_id ∷ orders) runs = trigger_all orders (trigger run_id runs)

unfoldable pub replace_orders : Shared → List ℕ → Shared
unfolding trigger_all
replace_orders s orders = record s {
  runs = trigger_all orders s.runs;
  known_cancels = of_items orders;
}

-- `fetch_add` on an AtomicU64 wraps around.
unfoldable pub mode_changed : Shared → Mode → Shared
mode_changed s mode = record s {
  mode_epoch = (s.mode_epoch + 1) % 2 ^ 64;
  loop_state = record (s.loop_state) { mode = mode };
}

-- The test of `stop_claims`, which loads the epoch of the mode.
unfoldable pub stop_counts : Shared → ℕ → Bool
stop_counts s claim_epoch = nat_beq claim_epoch s.mode_epoch

unfoldable pub stop_store : Shared → ℕ → Shared
stop_store s claim_epoch = record s { stopped_epoch = claim_epoch }

-- The whole of `stop_claims` where no other thread comes between its load and its store.
unfoldable pub stop_claims : Shared → ℕ → Shared
unfolding stop_counts stop_store
stop_claims s claim_epoch = if stop_counts s claim_epoch then stop_store s claim_epoch else s

-- The two atomic accesses of `stop_claims` one by one: behind the load the store is still to come.
unfoldable pub stop_begins : Shared → ℕ → Shared
unfolding stop_counts
stop_begins s claim_epoch =
    if stop_counts s claim_epoch then record s { storing = claim_epoch ∷ s.storing } else s

unfoldable pub remove_first : ℕ → List ℕ → List ℕ
remove_first k [] = []
remove_first k (j ∷ js) = if nat_beq k j then js else j ∷ remove_first k js

unfoldable pub stop_ends : Shared → ℕ → Shared
unfolding stop_store remove_first
stop_ends s claim_epoch =
    if contains claim_epoch s.storing
    then record (stop_store s claim_epoch) { storing = remove_first claim_epoch s.storing }
    else s

unfoldable pub claims_stopped : Shared → Bool
claims_stopped s = nat_beq s.stopped_epoch s.mode_epoch

-- The calls on the shared state, in any order; those of `stop_claims` are cut between their two
-- accesses.
pub data Call : Type 0 where
  registers : ℕ → ℕ → Call
  forgets makes_order deletes_order : ℕ → Call
  replaces : List ℕ → Call
  changes_mode : Mode → Call
  begins_stop ends_stop : ℕ → Call

unfoldable pub step : Shared → Call → Shared
step s (registers run_id job_id) = (register_run s run_id job_id).0
step s (forgets run_id) = forget_run s run_id
step s (makes_order run_id) = order_made s run_id
step s (deletes_order run_id) = order_deleted s run_id
step s (replaces orders) = replace_orders s orders
step s (changes_mode mode) = mode_changed s mode
step s (begins_stop claim_epoch) = stop_begins s claim_epoch
step s (ends_stop claim_epoch) = stop_ends s claim_epoch

unfoldable pub run : Shared → List Call → Shared
run s [] = s
run s (c ∷ cs) = run (step s c) cs
