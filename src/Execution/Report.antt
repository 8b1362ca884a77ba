-- ===== src/Execution/Report.antt =====
-- The statistics that a sender and a receiver write, as `execute_run` (main.py) and its callees read them.
use net_latency_lab.Base.{ℕ, String, Bool, Option, List}
use net_latency_lab.Base.Int.{ℤ}
use net_latency_lab.Verdict.Stats.{SenderStats, ReceiverStats}

-- A key that is read by an index or by `get` is an option; `fields` are the integers under the other keys.
pub record SenderReport (F : Type 0) : Type 0 where
  pub stats : SenderStats
  pub failed_sends : Option ℤ
  pub attempted_sends : Option ℤ
  pub elapsed_seconds : Option F
  pub achieved_successful_send_pps : Option F
  pub start_mono_ns : Option ℕ
  pub scheduled_end_mono_ns : Option ℕ
  pub thread_outcomes : List (Option Bool)
  pub fields : List (String × ℤ)

pub record ReceiverReport : Type 0 where
  pub stats : ReceiverStats
  pub variant : Option String
  pub fields : List (String × ℤ)
