-- ===== src/Execution/Schedule/Reported.antt =====
-- A run that reports success has no node in error.
use light_soar.Prelude.{Option, none, some}
use light_soar.Execution.Status.{Status}
use light_soar.Execution.Data.{Node}
use light_soar.Execution.Graph.Defs.{ExecutionGraph}
use light_soar.Execution.Node.Defs.{LogCheck, EvalInt}
use light_soar.Execution.Schedule.Worker.{Config, Run, Worker, Phase}
use light_soar.Execution.Schedule.Told.{Told}

module _ (cfg : Config) (log : LogCheck) (eval : EvalInt) (g : ExecutionGraph) where
  abbrev IsToldMove : Run → Option (Run × Option Phase) → Type 0
  IsToldMove r none = Unit
  IsToldMove r (some n) = Told r n.0
