-- ===== src/Threads/Stream/Close/Commands.antt =====
-- Which command `close_message` sends.
use Prim.Native.String.{String}
use br_jobs_runner_kit.Prelude.{Bool, true, false}
use br_jobs_runner_kit.Threads.Closing
use br_jobs_runner_kit.Threads.Wire.{Command, complete}

-- Whether the command is a `message.complete`.
pub completes : Command → Bool
completes command = elim command.body [ complete m ↦ true | _ ↦ false ]
