-- ===== src/Jobs/Reason.antt =====
-- crates/br-runner-jobs/src/reason.rs: the words by which jobs says why it refused. The macro
-- `reasons!` makes the type and its two functions from one table.
pub mod Words
use Prim.Native.String.{String}
use text.Mathlib.Text.{◌==◌ as str_eq}
use br_jobs_runner_kit.Prelude.{Bool, List, [], ◌∷◌, if◌then◌else◌}

pub data RefusalReason : Type 0 where
  instance_unknown not_claim_mode instance_draining runner_type_retired claim_spent : RefusalReason
  malformed_claim busy run_unknown run_not_started run_ended run_removed instance_mismatch :
      RefusalReason
  agent_id_in_other_tree agent_id_not_finished item_not_yours malformed run_held : RefusalReason
  run_reserved_elsewhere run_not_pending not_requester runner_not_working_the_job : RefusalReason
  acting_run_missing acting_run_not_live job_unknown job_terminal passport_required : RefusalReason
  passport_user_mismatch passport_parent_mismatch initial_job_mismatch parent_terminal :
      RefusalReason
  parent_job_unknown invalid_priority payload_too_large payload_not_uploaded : RefusalReason
  payload_uploader_mismatch mode_required caller_address_not_held : RefusalReason
  caller_address_not_of_run max_attempts_above_ceiling id_reuse duplicate_active_entity :
      RefusalReason
  malformed_payload mail_not_yours : RefusalReason
  unknown : String → RefusalReason

unfoldable pub as_str : RefusalReason → String
as_str instance_unknown = "instance_unknown"
as_str not_claim_mode = "not_claim_mode"
as_str instance_draining = "instance_draining"
as_str runner_type_retired = "runner_type_retired"
as_str claim_spent = "claim_spent"
as_str malformed_claim = "malformed_claim"
as_str busy = "busy"
as_str run_unknown = "run_unknown"
as_str run_not_started = "run_not_started"
as_str run_ended = "run_ended"
as_str run_removed = "run_removed"
as_str instance_mismatch = "instance_mismatch"
as_str agent_id_in_other_tree = "agent_id_in_other_tree"
as_str agent_id_not_finished = "agent_id_not_finished"
as_str item_not_yours = "item_not_yours"
as_str malformed = "malformed"
as_str run_held = "run_held"
as_str run_reserved_elsewhere = "run_reserved_elsewhere"
as_str run_not_pending = "run_not_pending"
as_str not_requester = "not_requester"
as_str runner_not_working_the_job = "runner_not_working_the_job"
as_str acting_run_missing = "acting_run_missing"
as_str acting_run_not_live = "acting_run_not_live"
as_str job_unknown = "job_unknown"
as_str job_terminal = "job_terminal"
as_str passport_required = "passport_required"
as_str passport_user_mismatch = "passport_user_mismatch"
as_str passport_parent_mismatch = "passport_parent_mismatch"
as_str initial_job_mismatch = "initial_job_mismatch"
as_str parent_terminal = "parent_terminal"
as_str parent_job_unknown = "parent_job_unknown"
as_str invalid_priority = "invalid_priority"
as_str payload_too_large = "payload_too_large"
as_str payload_not_uploaded = "payload_not_uploaded"
as_str payload_uploader_mismatch = "payload_uploader_mismatch"
as_str mode_required = "mode_required"
as_str caller_address_not_held = "caller_address_not_held"
as_str caller_address_not_of_run = "caller_address_not_of_run"
as_str max_attempts_above_ceiling = "max_attempts_above_ceiling"
as_str id_reuse = "id_reuse"
as_str duplicate_active_entity = "duplicate_active_entity"
as_str malformed_payload = "malformed_payload"
as_str mail_not_yours = "mail_not_yours"
as_str (unknown word) = word

-- The arms of the `match` in `from_word`, in the order of the table.
abbrev pub reasons : List (String × RefusalReason)
reasons =
    ("instance_unknown", instance_unknown)
    ∷ ("not_claim_mode", not_claim_mode)
    ∷ ("instance_draining", instance_draining)
    ∷ ("runner_type_retired", runner_type_retired)
    ∷ ("claim_spent", claim_spent)
    ∷ ("malformed_claim", malformed_claim)
    ∷ ("busy", busy)
    ∷ ("run_unknown", run_unknown)
    ∷ ("run_not_started", run_not_started)
    ∷ ("run_ended", run_ended)
    ∷ ("run_removed", run_removed)
    ∷ ("instance_mismatch", instance_mismatch)
    ∷ ("agent_id_in_other_tree", agent_id_in_other_tree)
    ∷ ("agent_id_not_finished", agent_id_not_finished)
    ∷ ("item_not_yours", item_not_yours)
    ∷ ("malformed", malformed)
    ∷ ("run_held", run_held)
    ∷ ("run_reserved_elsewhere", run_reserved_elsewhere)
    ∷ ("run_not_pending", run_not_pending)
    ∷ ("not_requester", not_requester)
    ∷ ("runner_not_working_the_job", runner_not_working_the_job)
    ∷ ("acting_run_missing", acting_run_missing)
    ∷ ("acting_run_not_live", acting_run_not_live)
    ∷ ("job_unknown", job_unknown)
    ∷ ("job_terminal", job_terminal)
    ∷ ("passport_required", passport_required)
    ∷ ("passport_user_mismatch", passport_user_mismatch)
    ∷ ("passport_parent_mismatch", passport_parent_mismatch)
    ∷ ("initial_job_mismatch", initial_job_mismatch)
    ∷ ("parent_terminal", parent_terminal)
    ∷ ("parent_job_unknown", parent_job_unknown)
    ∷ ("invalid_priority", invalid_priority)
    ∷ ("payload_too_large", payload_too_large)
    ∷ ("payload_not_uploaded", payload_not_uploaded)
    ∷ ("payload_uploader_mismatch", payload_uploader_mismatch)
    ∷ ("mode_required", mode_required)
    ∷ ("caller_address_not_held", caller_address_not_held)
    ∷ ("caller_address_not_of_run", caller_address_not_of_run)
    ∷ ("max_attempts_above_ceiling", max_attempts_above_ceiling)
    ∷ ("id_reuse", id_reuse)
    ∷ ("duplicate_active_entity", duplicate_active_entity)
    ∷ ("malformed_payload", malformed_payload)
    ∷ ("mail_not_yours", mail_not_yours)
    ∷ []

-- The first arm whose word is the text; the text is kept where none is.
unfoldable pub match_word : List (String × RefusalReason) → String → RefusalReason
match_word [] word = unknown word
match_word ((text, reason) ∷ arms) word = if str_eq word text then reason else match_word arms word

unfoldable pub from_word : String → RefusalReason
unfolding match_word
from_word word = match_word reasons word

-- `PartialEq`: two reasons are equal by their words.
unfoldable pub eq : RefusalReason → RefusalReason → Bool
unfolding as_str
eq a b = str_eq (as_str a) (as_str b)
