-- ===== src/Verdict/Validity/Passed.antt =====
-- That `validity_reasons` (main.py) finds nothing against exactly the runs that satisfy its conditions.
use net_latency_lab.Base.{
  String, false, Option, List, [], ◌++◌, ◌≡◌, ap, ◌⊎◌, inl, inr, ◌↔◌, Bool-cases,
}
use net_latency_lab.Python.Error.{Result, ok}
use net_latency_lab.Counters.Deltas.{CounterDelta}
use net_latency_lab.Verdict.Notes.{append-both_iff}
use net_latency_lab.Verdict.State.{State}
use net_latency_lab.Verdict.Stats.{SenderStats, ReceiverStats, Totals, totals_of}
use net_latency_lab.Verdict.Validity.{
  pause_reasons, throttle_reasons, metadata_reasons, validity_reasons, is_distributed,
  when_distributed,
}
use net_latency_lab.Verdict.Validity.Accepted.{
  IsReconciled, IsPlaced, HasBuffers, HasWindows, IsDrained, IsMonotone, accounting_reasons_iff,
  affinity_reasons_iff, buffer_reasons_iff, window_reasons_iff, backlog_reasons_iff,
  delta_reasons_iff,
}
use net_latency_lab.Verdict.Validity.Distributed.{
  IsPauseFree, IsUnthrottled, AreComplete, pause_reasons_iff, throttle_reasons_iff,
  metadata_reasons_iff,
}

module _ (sender : SenderStats) (receiver : ReceiverStats) (counters : List (String × CounterDelta))
    (before after : State) (topology : String) (sender_before sender_after : Option State) where
  -- The machines were quiet: no pause frame, no throttling, no probe that reports an error of some text.
  abbrev pub IsQuiet : Type 0
  IsQuiet =
      (IsPauseFree "nic_rx_pause" counters × IsPauseFree "nic_tx_pause" counters)
      × IsUnthrottled before after sender_before sender_after
      × AreComplete before after sender_before sender_after

  abbrev pub IsPassed : Totals → Type 0
  IsPassed t =
      IsReconciled t
      × IsPlaced sender receiver
      × HasBuffers sender receiver
      × HasWindows t receiver
      × IsDrained receiver
      × IsMonotone counters
      × ((is_distributed topology ≡ false) ⊎ IsQuiet)

  distributed_iff :
      (when_distributed topology (
          pause_reasons counters
          ++ throttle_reasons before after sender_before sender_after
          ++ metadata_reasons before after sender_before sender_after)
        ≡ [])
      ↔ ((is_distributed topology ≡ false) ⊎ IsQuiet)
  distributed_iff =
      let all =
        append-both_iff
          (append-both_iff (pause_reasons_iff counters)
            (throttle_reasons_iff before after sender_before sender_after))
          (metadata_reasons_iff before after sender_before sender_after) in
      elim (Bool-cases (is_distributed topology)) [
        | inl far ↦ rw far (
          λ h. let ((pauses, throttles), states) = all.0 h in inr (pauses, throttles, states),
          λ h. elim h [ inl near ↦ cc | inr quiet ↦ all.1 ((quiet.0, quiet.1), quiet.2) ],
        )
        | inr near ↦ (λ h. inl near, λ h. rw near)
      ]

  ok_inj : {A : Type 0} {a b : A} → (Result.ok a ≡ Result.ok b) → a ≡ b
  ok_inj h = cc

  -- Where the statistics have the numbers that are read by an index, no reason is given against a run
  -- exactly when: no more packets were received or processed than sent, and those processed and those
  -- that overflowed the queue are those received; every affinity and scheduler outcome that the receiver
  -- reports is a success, and the sender reports that its affinity is one; a socket buffer that was
  -- requested is as large as requested; a stage that handled packets has both ends of its window; nothing
  -- is left in the queue or the socket; no counter went backwards; and, unless the topology is the local
  -- loopback, both pause counters were read and did not change, the receiver was not throttled, nor the
  -- sender where it has a state before and after, and no entry of a node state holds an error whose text is not
  -- empty. A probe that failed with an empty text is no reason.
  pub validity_reasons_iff :
      (t : Totals)
      → totals_of sender receiver ≡ ok t
      → (validity_reasons sender receiver counters before after topology sender_before sender_after
          ≡ ok [])
        ↔ IsPassed t
  unfolding validity_reasons
  validity_reasons_iff t read =
      let all =
        append-both_iff
          (append-both_iff
            (append-both_iff
              (append-both_iff
                (append-both_iff
                  (append-both_iff (accounting_reasons_iff t)
                    (affinity_reasons_iff sender receiver))
                  (buffer_reasons_iff sender receiver))
                (window_reasons_iff t receiver))
              (backlog_reasons_iff receiver))
            (delta_reasons_iff counters))
          distributed_iff in
      rw read (
        λ h. let ((((((a, b), c), d), e), f), g) = all.0 (ok_inj h) in (a, b, c, d, e, f, g),
        λ h. ap ok (all.1 ((((((h.0, h.1), h.2), h.3), h.4), h.5), h.6)),
      )
