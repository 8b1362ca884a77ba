-- ===== src/Verdict/Qualification/Passed.antt =====
-- What a run must satisfy for `qualification_reasons` (main.py) to find nothing against it, stated without the
-- function.
use net_latency_lab.Base.{
  String, Bool, true, false, ◌||◌, some, List, [], any, length, ◌≡◌, refl, ap, ◌↔◌,
}
use net_latency_lab.Base.Int.{differs_iff, pos, ◌+ℤ◌, ◌*ℤ◌}
use net_latency_lab.Python.Error.{ok}
use net_latency_lab.Verdict.Notes.{append-both_iff, note_if_iff}
use net_latency_lab.Verdict.State.{lookup}
use net_latency_lab.Verdict.Stats.{get_or}
use net_latency_lab.Verdict.Qualification.{
  Floats, RunRecord, Readings, readings_of, count_in, packet_reasons, receive_fields,
  processing_fields, at_least_one, reordering_reasons, is_unsuccessful, thread_reasons,
  first_occurrences, all_reasons, qualification_reasons,
}
use net_latency_lab.Verdict.Qualification.Groups.{
  not_iff, AreZero, nonzero_reasons_iff, AreStill, counter_reasons_iff, IsSteady, role_reasons_iff,
  pacing_reasons_iff, first_occurrences_iff,
}

module _ {F : Type 0} (floats : Floats F) (run : RunRecord F) where
  -- The counts of packets and bytes of the two sides agree, and the rate was reached.
  abbrev pub IsReached : Readings F → Type 0
  IsReached r =
      (floats.is_in_band r.rate r.achieved ≡ true)
      × (r.failed ≡ pos 0)
      × (r.attempted ≡ r.successful +ℤ r.failed)
      × (count_in run.sender_fields "successful_bytes" ≡ r.successful *ℤ r.payload)
      × (r.unique_valid ≡ r.successful)
      × (count_in run.receiver_fields "unique_processed_packets" ≡ r.successful)

  packet_reasons_iff : (r : Readings F) → (packet_reasons floats run r ≡ []) ↔ IsReached r
  unfolding packet_reasons
  packet_reasons_iff r =
      let all =
        append-both_iff
          (append-both_iff
            (append-both_iff
              (append-both_iff
                (append-both_iff (note_if_iff _ (not_iff (floats.is_in_band r.rate r.achieved)))
                  (note_if_iff _ (differs_iff r.failed (pos 0))))
                (note_if_iff _ (differs_iff r.attempted (r.successful +ℤ r.failed))))
              (note_if_iff _ (
                differs_iff (count_in run.sender_fields "successful_bytes")
                  (r.successful *ℤ r.payload))))
            (note_if_iff _ (differs_iff r.unique_valid r.successful)))
          (note_if_iff _
            (differs_iff (count_in run.receiver_fields "unique_processed_packets") r.successful)) in
      (
        λ h. let (((((a, b), c), d), e), f) = all.0 h in (a, b, c, d, e, f),
        λ h. all.1 (((((h.0, h.1), h.2), h.3), h.4), h.5),
      )

  -- As many threads as configured reported, each of them placed on its CPU.
  abbrev pub AreThreadsPlaced : Type 0
  AreThreadsPlaced =
      (pos (length run.thread_outcomes) ≡ get_or (lookup "threads" run.sender_fields) (pos 1))
      × (any is_unsuccessful run.thread_outcomes ≡ false)

  both_false_iff :
      {P Q : Type 0} (a b : Bool)
      → ((a ≡ false) ↔ P)
      → ((b ≡ false) ↔ Q)
      → (((a || b) ≡ false) ↔ (P × Q))
  both_false_iff true b p q = (λ h. cc, λ h. p.1 h.0)
  both_false_iff false b p q = (λ h. (p.0 refl, q.0 h), λ h. q.1 h.1)

  thread_reasons_iff : (thread_reasons run ≡ []) ↔ AreThreadsPlaced
  unfolding thread_reasons
  thread_reasons_iff = note_if_iff _ (
      both_false_iff _ (any is_unsuccessful run.thread_outcomes)
        (differs_iff (pos (length run.thread_outcomes))
          (get_or (lookup "threads" run.sender_fields) (pos 1)))
        (λ h. h, λ h. h))

  abbrev pub IsQualifying : Readings F → Type 0
  IsQualifying r =
      IsReached r
      × AreZero receive_fields run.receiver_fields
      × (floats.is_frequent (count_in run.receiver_fields "receive_reordered")
            (at_least_one r.unique_valid)
          ≡ false)
      × AreZero processing_fields run.receiver_fields
      × AreStill run.counters
      × AreStill run.sender_counters
      × IsSteady run.receiver_before run.receiver_after
      × IsSteady run.sender_before run.sender_after
      × AreThreadsPlaced
      × (run.pacing ≡ some [])
      × (run.validity ≡ [])

  reordering_reasons_iff :
      (r : Readings F)
      → (reordering_reasons floats run r ≡ []) ↔ (
          floats.is_frequent
            (count_in run.receiver_fields "receive_reordered")
            (at_least_one r.unique_valid)
          ≡ false)
  unfolding reordering_reasons
  reordering_reasons_iff r = note_if_iff _ (λ h. h, λ h. h)

  all_reasons_iff : (r : Readings F) → (all_reasons floats run r ≡ []) ↔ IsQualifying r
  unfolding all_reasons
  all_reasons_iff r =
      let all =
        append-both_iff
          (append-both_iff
            (append-both_iff
              (append-both_iff
                (append-both_iff
                  (append-both_iff
                    (append-both_iff
                      (append-both_iff
                        (append-both_iff
                          (append-both_iff (packet_reasons_iff r)
                            (nonzero_reasons_iff receive_fields run.receiver_fields))
                          (reordering_reasons_iff r))
                        (nonzero_reasons_iff processing_fields run.receiver_fields))
                      (counter_reasons_iff "counters" run.counters))
                    (counter_reasons_iff "sender_counters" run.sender_counters))
                  (role_reasons_iff "receiver" run.receiver_before run.receiver_after))
                (role_reasons_iff "sender" run.sender_before run.sender_after))
              thread_reasons_iff)
            (pacing_reasons_iff run.pacing))
          (λ h. h, λ h. h) in
      (
        λ h.
            let ((((((((((a, b), c), d), e), f), g), i), j), k), l) = all.0 h in
            (a, b, c, d, e, f, g, i, j, k, l),
        λ h. all.1 ((((((((((h.0, h.1), h.2), h.3), h.4), h.5), h.6), h.7), h.8), h.9), h.10),
      )

  returned_iff :
      (reasons : List String) → (ok (first_occurrences [] reasons) ≡ ok []) ↔ (reasons ≡ [])
  returned_iff reasons =
      let first = first_occurrences_iff reasons in (λ h. first.0 (cc h), λ h. ap ok (first.1 h))

  -- Where the metadata has the numbers that are read by an index, a run qualifies exactly when: the rate was
  -- reached within the band, no send failed, and the packets and bytes of sender and receiver agree; the
  -- receiver saw no gap, duplicate, malformed packet or overflow, and little reordering; every counter of
  -- either side was read and did not change; both machines had a full gigabit link and no throttling before
  -- and after; every sender thread was placed; the pacing was analysed; and neither that analysis nor the
  -- validity verdict gave a reason.
  pub qualification_reasons_iff :
      (r : Readings F)
      → readings_of run ≡ ok r
      → (qualification_reasons floats run ≡ ok []) ↔ IsQualifying r
  unfolding qualification_reasons
  qualification_reasons_iff r read =
      let all = all_reasons_iff r in
      let returned = returned_iff (all_reasons floats run r) in
      rw read (λ h. all.0 (returned.0 h), λ h. returned.1 (all.1 h))
