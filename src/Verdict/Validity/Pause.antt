-- ===== src/Verdict/Validity/Pause.antt =====
-- From the snapshots of the counters to the verdict of `validity_reasons` (main.py): `execute_run` passes the
-- result of `counter_deltas` on.
use net_latency_lab.Base.{String, true, Option, List, [], ◌≡◌, inl, inr}
use net_latency_lab.Base.Int.{pos}
use net_latency_lab.Python.Error.{ok}
use net_latency_lab.Counters.Deltas.{Sample, counter_deltas}
use net_latency_lab.Counters.Deltas.Reported.{IsMeasured, counter_deltas-IsMeasured}
use net_latency_lab.Verdict.State.{State, lookup}
use net_latency_lab.Verdict.Stats.{SenderStats, ReceiverStats, Totals, totals_of}
use net_latency_lab.Verdict.Validity.{validity_reasons, is_distributed}
use net_latency_lab.Verdict.Validity.Passed.{validity_reasons_iff}

-- A run between two machines against which no reason is given has had both pause counters read before and after
-- it, without an error, and neither of them changed.
pub validity_reasons-IsMeasured :
    (sender : SenderStats) (receiver : ReceiverStats) (first second : List (String × Sample))
    (before after : State) (topology : String) (sender_before sender_after : Option State)
    (t : Totals)
    → totals_of sender receiver ≡ ok t
    → is_distributed topology ≡ true
    → validity_reasons sender receiver
        (counter_deltas first second)
        before
        after
        topology
        sender_before
        sender_after
      ≡ ok []
    → IsMeasured (lookup "nic_rx_pause" first) (lookup "nic_rx_pause" second) (pos 0)
      × IsMeasured (lookup "nic_tx_pause" first) (lookup "nic_tx_pause" second) (pos 0)
validity_reasons-IsMeasured sender receiver first second before after topology sender_before
      sender_after t read far passed =
    let conditions =
      (validity_reasons_iff sender receiver (counter_deltas first second) before after topology
          sender_before sender_after t read).0
        passed in
    elim conditions.6 [
      | inl near ↦ cc
      | inr quiet ↦ (
        (counter_deltas-IsMeasured first second "nic_rx_pause" (pos 0)).0 quiet.0.0,
        (counter_deltas-IsMeasured first second "nic_tx_pause" (pos 0)).0 quiet.0.1,
      )
    ]
