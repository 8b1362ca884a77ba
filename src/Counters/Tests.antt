-- ===== src/Counters/Tests.antt =====
-- Counter probes and snapshots (main.py), on concrete inputs.
use net_latency_lab.Base.{String, ◌≡◌, refl, ◌↔◌, none, some, List, [], ◌∷◌}
use net_latency_lab.Base.Int.{ℤ, pos, ◌+ℤ◌}
use net_latency_lab.Python.Spaces.{is_white, split_words, strip, read_int}
use net_latency_lab.Python.Error.{Error, Result, ok, err}
use net_latency_lab.Counters.Kernel.{
  parse_udp_named_counter, parse_udp_socket_drops, parse_qdisc_drops, parse_ethtool_statistic,
}
use net_latency_lab.Counters.Snapshot.{snapshot_counters, counters_of}
use net_latency_lab.Counters.Snapshot.Complete.{
  HasKeys, counter_names, snapshot_counters-IsComplete,
}
use net_latency_lab.Counters.Text.{splitlines}
use net_latency_lab.Counters.Sections.{split_counter_sections, missing}
use net_latency_lab.Counters.Sections.Isolated.{
  Block, last_section, section_or, section_in, split_counter_sections_isolated,
}
use net_latency_lab.Counters.Parsing.{parse_counter, IsParsed, parse_counter-IsParsed}
use net_latency_lab.Counters.Deltas.{Sample, counter_deltas}
use net_latency_lab.Counters.Deltas.Reported.{IsMeasured, delta_in, counter_deltas-IsMeasured}
use net_latency_lab.Verdict.State.{lookup}

abbrev output : String
output = "login banner\n<<<NLL-COUNTER snmp>>>\nUdp: 1 2\r\nUdp: 3 4\n<<<NLL-COUNTER qdisc>>>\n"

abbrev blocks : List Block
blocks =
    record { header = "<<<NLL-COUNTER snmp>>>"; body = "Udp: 1 2" ∷ "Udp: 3 4" ∷ [] }
    ∷ record { header = "<<<NLL-COUNTER qdisc>>>"; body = [] }
    ∷ []

split_counter_sections_isolated_example :
    section_in
      (split_counter_sections (record { value = some output; error = none }) ("snmp" ∷ "udp" ∷ []))
      "snmp"
    ≡ section_or (last_section "snmp" blocks) (some (missing "snmp"))
unfolding splitlines
split_counter_sections_isolated_example =
    split_counter_sections_isolated ("snmp" ∷ "udp" ∷ []) "snmp" output ("login banner" ∷ []) blocks
      refl (refl, tt) ((refl, (refl, (refl, tt))), ((refl, tt), tt)) refl

abbrev describe : Error → String
describe e = "no digits"

abbrev parser : String → Result ℤ
parser text = ok (pos 12)

parse_counter-IsParsed_example :
    ((parse_counter describe (record { value = some "12"; error = none }) parser).value
      ≡ some (pos 12))
    ↔ IsParsed (record { value = some "12"; error = none }) parser (pos 12)
parse_counter-IsParsed_example =
    parse_counter-IsParsed describe (record { value = some "12"; error = none }) parser (pos 12)

abbrev first : List (String × Sample)
first =
    ("nic_rx_errors", record { value = some (pos 5); error = none })
    ∷ ("qdisc_drops", record { value = some (pos 1); error = none })
    ∷ []

abbrev second : List (String × Sample)
second =
    ("qdisc_drops", record { value = none; error = some "timed out" })
    ∷ ("nic_rx_errors", record { value = some (pos 9); error = none })
    ∷ []

counter_deltas-IsMeasured_example :
    (delta_in (lookup "nic_rx_errors" (counter_deltas first second)) ≡ some (pos 4))
    ↔ IsMeasured (lookup "nic_rx_errors" first) (lookup "nic_rx_errors" second) (pos 4)
counter_deltas-IsMeasured_example = counter_deltas-IsMeasured first second "nic_rx_errors" (pos 4)

abbrev snmp : String
snmp =
    "Ip: 1\nUdp: InDatagrams RcvbufErrors SndbufErrors\nUdp: 10 4 2\nUdpLite: RcvbufErrors\nUdpLite: 9\n"

parse_udp_named_counter_rcvbuf : parse_udp_named_counter snmp "RcvbufErrors" ≡ ok (pos 4)
unfolding parse_udp_named_counter split_words read_int
parse_udp_named_counter_rcvbuf = refl

parse_udp_named_counter_absent :
    parse_udp_named_counter snmp "InErrors" ≡ err (Error.value_error "UDP InErrors is unavailable")
unfolding parse_udp_named_counter split_words read_int
parse_udp_named_counter_absent = refl

parse_udp_socket_drops_two :
    parse_udp_socket_drops "sl local drops\n 1: 0A 3\n\n 2: 0B 4\n" ≡ ok (pos 7)
unfolding parse_udp_socket_drops is_white split_words read_int ◌+ℤ◌
parse_udp_socket_drops_two = refl

parse_qdisc_drops_two :
    parse_qdisc_drops "qdisc mq (dropped 3, overlimits 0)\n undropped 8 dropped  40," ≡ ok (pos 43)
unfolding parse_qdisc_drops
parse_qdisc_drops_two = refl

parse_ethtool_statistic_pause :
    parse_ethtool_statistic "NIC statistics:\n  rx_pause: 12\n  tx_pause: 3\n" "tx_pause"
    ≡ ok (pos 3)
unfolding parse_ethtool_statistic strip read_int
parse_ethtool_statistic_pause = refl

-- A node that answers with a section it was asked for
abbrev answer : List String → Result String
answer command = ok "<<<NLL-COUNTER qdisc>>>\nqdisc mq (dropped 3, overlimits 0)\n"

snapshot_counters-IsComplete_example :
    HasKeys counter_names (snapshot_counters describe answer "eth0")
snapshot_counters-IsComplete_example = snapshot_counters-IsComplete describe answer "eth0"

snapshot_counters_qdisc :
    counters_of describe
      (("snmp", missing "snmp") ∷ ("udp", missing "udp") ∷ ("qdisc", missing "qdisc") ∷ [])
    ≡ err (Error.key_error "ethtool_stats")
unfolding counters_of
snapshot_counters_qdisc = refl
