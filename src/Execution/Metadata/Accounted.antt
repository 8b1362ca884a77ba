-- ===== src/Execution/Metadata/Accounted.antt =====
-- The packet accounting and the verdict in the metadata of a run (`execute_run` of main.py).
use net_latency_lab.Base.{
  String, true, Option, none, some, List, [], ◌∷◌, ◌≡◌, refl, ap, sym, ◌∙◌, ◌↔◌, subst, arith,
}
use net_latency_lab.Base.Int.{ℤ, pos, ◌-ℤ◌, ◌+ℤ◌, ◌≤ℤ◌, eq_of_parts, +ℤ_parts, -ℤ_parts}
use net_latency_lab.Python.Error.{Result, ok, >>=-BothReturn}
use net_latency_lab.Counters.Deltas.{counter_deltas}
use net_latency_lab.Pacing.Report.{is_empty}
use net_latency_lab.Verdict.Stats.{SenderStats, ReceiverStats, Totals, required, totals_of}
use net_latency_lab.Verdict.Validity.{Reason, validity_reasons}
use net_latency_lab.Verdict.Validity.Passed.{validity_reasons_iff}
use net_latency_lab.Verdict.Qualification.{required_float}
use net_latency_lab.Execution.Report.{SenderReport, ReceiverReport}
use net_latency_lab.Execution.Plan.{Plan}
use net_latency_lab.Execution.Measure.{Numbers, Measured}
use net_latency_lab.Execution.Metadata.{Metadata, required_text, accounting_of, metadata_of}

ok_inj : {A : Type 0} {a b : A} → (Result.ok a ≡ Result.ok b) → a ≡ b
ok_inj h = cc

required-ok :
    (key : String) (field : Option ℤ) (value : ℤ)
    → required key field ≡ ok value
    → field ≡ some value
required-ok key none value h = cc
required-ok key (some v) value h = cc

-- Each of the three numbers that the accounting reads is a total of the statistics.
pub record HasTotals (sender : SenderStats) (receiver : ReceiverStats)
    (successful unique_received unique_processed : ℤ) : Type 0 where
  pub sent : sender.successful_sends ≡ some successful
  pub received : receiver.unique_valid_packets ≡ some unique_received
  pub processed : receiver.unique_processed_packets ≡ some unique_processed

is_empty_iff : {A : Type 0} (xs : List A) → (is_empty xs ≡ true) ↔ (xs ≡ [])
is_empty_iff [] = (λ h. refl, λ h. refl)
is_empty_iff (x ∷ xs) = (λ h. cc, λ h. cc)

loss-sum : (total part : ℤ) → (total -ℤ part) +ℤ part ≡ total
loss-sum total part =
    eq_of_parts _ _ (omega (arith, +ℤ_parts (total -ℤ part) part, -ℤ_parts total part))

loss_not_negative : (total part : ℤ) → part ≤ℤ total → pos 0 ≤ℤ (total -ℤ part)
loss_not_negative total part h = omega (arith, h, -ℤ_parts total part)

-- The first three totals of `validity_reasons` are those numbers.
totals_of-HasTotals :
    (sender : SenderStats) (receiver : ReceiverStats) (sent received processed : ℤ)
    → HasTotals sender receiver sent received processed
    → (t : Totals) → totals_of sender receiver ≡ ok t
    → (t.successful ≡ sent) × (t.unique_received ≡ received) × (t.unique_processed ≡ processed)
unfolding totals_of
totals_of-HasTotals sender receiver sent received processed h t read =
    let found = rw (h.sent, h.received, h.processed) at read in
    let one = >>=-BothReturn (required "processed_packets" receiver.processed_packets) _ found in
    let two = >>=-BothReturn (required "spsc_overflow" receiver.spsc_overflow) _ one.second in
    let three = >>=-BothReturn (required "valid_packets" receiver.valid_packets) _ two.second in
    let same = sym (ok_inj three.second) in
    (
      ap (λ (u : Totals). u.successful) same,
      ap (λ (u : Totals). u.unique_received) same,
      ap (λ (u : Totals). u.unique_processed) same,
    )

module _ {F : Type 0} (numbers : Numbers F) (plan : Plan F) (measured : Measured)
    (sender : SenderReport F) (receiver : ReceiverReport) where
  abbrev pub verdict : Result (List Reason)
  verdict =
      validity_reasons sender.stats receiver.stats
        (counter_deltas measured.before.receiver_counters measured.after.receiver_counters)
        measured.before.receiver_state measured.after.receiver_state plan.config.topology
        (some measured.before.sender_state) (some measured.after.sender_state)

  -- The verdict and the accounting of metadata.
  pub record IsAccounted (m : Metadata F) : Type 0 where
    pub successful : ℤ
    pub unique_received : ℤ
    pub unique_processed : ℤ
    pub read : HasTotals sender.stats receiver.stats successful unique_received unique_processed
    pub ingress : m.packet_accounting.ingress_loss +ℤ unique_received ≡ successful
    pub application : m.packet_accounting.application_loss +ℤ unique_processed ≡ successful
    pub judged : verdict ≡ ok m.reasons
    pub valid_iff : (m.valid ≡ true) ↔ (m.reasons ≡ [])
    pub no_gain :
        m.valid ≡ true
        → (pos 0 ≤ℤ m.packet_accounting.ingress_loss)
          × (pos 0 ≤ℤ m.packet_accounting.application_loss)

  losses :
      (sent received processed : ℤ)
      → HasTotals sender.stats receiver.stats sent received processed
      → verdict ≡ ok []
      → (pos 0 ≤ℤ (sent -ℤ received)) × (pos 0 ≤ℤ (sent -ℤ processed))
  unfolding validity_reasons
  losses sent received processed h passed =
      let t = >>=-BothReturn (totals_of sender.stats receiver.stats) _ passed in
      let (a, b, c) =
        totals_of-HasTotals sender.stats receiver.stats sent received processed h t.value t.first in
      let reconciled = ((validity_reasons_iff _ _ _ _ _ _ _ _ t.value t.first).0 passed).0 in
      (
        rw (sym a, sym b) (loss_not_negative _ _ reconciled.0),
        rw (sym a, sym c) (loss_not_negative _ _ reconciled.1),
      )

  -- Metadata are computed only from statistics that have the packets sent, received and processed. Its
  -- two losses are what is left of the packets sent, its reasons are those of `validity_reasons` on the
  -- two snapshots, it is valid exactly when there is none, and the losses of a valid run are not negative.
  pub metadata_of-IsAccounted :
      (m : Metadata F) → metadata_of numbers plan measured sender receiver ≡ ok m → IsAccounted m
  unfolding metadata_of accounting_of
  metadata_of-IsAccounted m made =
      let a = >>=-BothReturn (required "successful_sends" sender.stats.successful_sends) _ made in
      let b =
        >>=-BothReturn (required "unique_valid_packets" receiver.stats.unique_valid_packets) _
          a.second in
      let c =
        >>=-BothReturn (required "unique_processed_packets" receiver.stats.unique_processed_packets)
          _ b.second in
      let d = >>=-BothReturn (required_float "elapsed_seconds" sender.elapsed_seconds) _ c.second in
      let e = >>=-BothReturn verdict _ d.second in
      let f = >>=-BothReturn (required_text numbers plan "variant" receiver.variant) _ e.second in
      let totals : HasTotals sender.stats receiver.stats a.value b.value c.value = record {
        sent = required-ok "successful_sends" _ a.value a.first;
        received = required-ok "unique_valid_packets" _ b.value b.first;
        processed = required-ok "unique_processed_packets" _ c.value c.first;
      } in
      subst IsAccounted (ok_inj f.second) (record {
        successful = a.value;
        unique_received = b.value;
        unique_processed = c.value;
        read = totals;
        ingress = loss-sum a.value b.value;
        application = loss-sum a.value c.value;
        judged = e.first;
        valid_iff = is_empty_iff e.value;
        no_gain = λ valid.
            losses a.value b.value c.value totals
              (e.first ∙ ap ok ((is_empty_iff e.value).0 valid));
      })
