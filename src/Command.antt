-- ===== src/Command.antt =====
-- src/command.rs: what a workflow may request, and the kind that divergence reports name.
use yaoki.Step.{StepName}
use yaoki.Time.{Deadline}

pub data CommandKind : Type 0 where
  run_step read_now draw_random sleep : CommandKind

pub data Command : Type 0 where
  run_step : StepName → Command
  read_now : Command
  draw_random : Command
  sleep : Deadline → Command

unfoldable pub kind : Command → CommandKind
kind (Command.run_step name) = CommandKind.run_step
kind Command.read_now = CommandKind.read_now
kind Command.draw_random = CommandKind.draw_random
kind (Command.sleep deadline) = CommandKind.sleep
