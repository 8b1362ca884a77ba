-- ===== src/Campaign/Nodes/Idle.antt =====
-- The processes of a whole campaign (main.py): none is left behind.
use net_latency_lab.Base.{String, Bool, true, false, List, [], ◌≡◌, refl}
use net_latency_lab.Python.Error.{Result}
use net_latency_lab.Python.Stateful.Keeps.{Keeps, Keeps->>=, Keeps-give}
use net_latency_lab.Campaign.Schedule.{RunTuple}
use net_latency_lab.Campaign.Run.{run_campaign}
use net_latency_lab.Campaign.Run.Kept.{run_campaign-kept}
use net_latency_lab.Campaign.Nodes.{build_node, build_other, build_nodes, environment_of}
use net_latency_lab.Pacing.Report.{Percentiles}
use net_latency_lab.Verdict.Qualification.{Floats}
use net_latency_lab.Execution.Commands.{RuntimeConfig}
use net_latency_lab.Execution.Lab.{Side, receiver, sender, Request, History, Lab, no_locals}
use net_latency_lab.Execution.Plan.{RunConfig}
use net_latency_lab.Execution.Measure.{Numbers}
use net_latency_lab.Execution.Stable.{Keeps-ask}
use net_latency_lab.Execution.Run.Reaped.{unreaped, Standing, Standing-IsStable, Idle}
use net_latency_lab.Execution.Run.Reaped.Ended.{execute_run-Idle}

module _ {F : Type 0} (lab : Lab F) where
  build_node-Keeps :
      (side : Side) (root : String) (runtime : RuntimeConfig F)
      → Keeps (Standing lab Idle) (build_node lab side root runtime)
  unfolding build_node
  build_node-Keeps side root runtime =
      let P = Standing lab Idle in
      Keeps->>= P _ _
        (Keeps-ask lab P (Standing-IsStable lab Idle) (Request.run side _ 120) lab.output refl)
        (λ _.
          Keeps->>= P _ _
            (Keeps-ask lab P (Standing-IsStable lab Idle) (Request.run side _ 900) lab.output refl)
            (λ _. Keeps-give P tt))

  build_other-Keeps :
      (differs : Bool) (root : String) (runtime : RuntimeConfig F)
      → Keeps (Standing lab Idle) (build_other lab differs root runtime)
  build_other-Keeps true root runtime = build_node-Keeps sender root runtime
  build_other-Keeps false root runtime = Keeps-give (Standing lab Idle) tt

  build_nodes-Keeps : (config : RunConfig F) → Keeps (Standing lab Idle) (build_nodes lab config)
  unfolding build_nodes
  build_nodes-Keeps config =
      Keeps->>= (Standing lab Idle) _ _ (build_node-Keeps receiver _ _)
        (λ _. build_other-Keeps _ _ _)

  -- No process of a node is left.
  abbrev pub IsIdle : History F → Type 0
  IsIdle history = (unreaped lab receiver history ≡ []) × (unreaped lab sender history ≡ [])

module _ {F : Type 0} (numbers : Numbers F) (floats : Floats F) (percentiles : Percentiles)
    (lab : Lab F) (reconnected : History F → Result (Unit {0})) where
  -- However a campaign ends, with its builds, its runs, their second attempts and the reconnections between, every
  -- process that it started on either node was waited for with a result or handed to `shutdown_process`,
  -- provided that no earlier one was left.
  pub run_campaign-IsIdle :
      (config : RunConfig F) (session_id : String) (skip_build : Bool)
      (uses_qualified : RunTuple → Bool) (qualification comparative : List RunTuple)
      (history : History F)
      → IsIdle lab history
      → IsIdle lab
          (run_campaign
            (environment_of numbers floats percentiles lab reconnected config session_id)
            skip_build
            uses_qualified
            qualification
            comparative
            history).1.nodes
  unfolding environment_of
  run_campaign-IsIdle config session_id skip_build uses_qualified qualification comparative
        history =
      run_campaign-kept
        (environment_of numbers floats percentiles lab reconnected config session_id) (IsIdle lab)
        (record {
          builds = λ h idle. (build_nodes-Keeps lab config).at (no_locals h) idle;
          runs = λ item h idle.
              execute_run-Idle numbers floats percentiles lab config session_id item h idle;
          reconnects = λ h idle. idle;
          closes = λ h idle. idle;
        })
        skip_build uses_qualified qualification comparative history
