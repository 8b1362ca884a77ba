-- ===== src/Counters/Snapshot.antt =====
-- `snapshot_counters` of a node (main.py): one command prints every section, and each counter is read from its own.
pub mod Complete
use net_latency_lab.Base.{String, Option, none, some, List, [], ◌∷◌, ◌++◌, map}
use net_latency_lab.Base.Int.{ℤ}
use net_latency_lab.Python.Error.{Error, Result, ok, err, ◌>>=◌}
use net_latency_lab.Python.Show.{concat}
use net_latency_lab.Python.Spaces.{strip, read_int}
use net_latency_lab.Counters.Sections.{section_prefix, split_counter_sections}
use net_latency_lab.Counters.Parsing.{parse_counter}
use net_latency_lab.Counters.Deltas.{Sample}
use net_latency_lab.Counters.Kernel.{
  parse_udp_rcvbuf_errors, parse_udp_sndbuf_errors, parse_udp_socket_drops, parse_qdisc_drops,
  parse_ethtool_statistic,
}
use net_latency_lab.Verdict.State.{Probe, lookup}
use Prim.Native.String.{◌++◌ as str_append}

abbrev pub nic_statistics : List String
nic_statistics =
    "rx_dropped" ∷ "rx_errors" ∷ "rx_missed_errors" ∷ "rx_crc_errors" ∷ "tx_dropped" ∷ "tx_errors"
    ∷ "tx_carrier_errors" ∷ []

abbrev pub nic_name : String → String
nic_name name = str_append "nic_" name

abbrev pub nic_section : String → String → String × String
nic_section interface name =
    (nic_name name, concat ("cat /sys/class/net/" ∷ interface ∷ "/statistics/" ∷ name ∷ []))

-- The sections by name, with the command of each.
abbrev pub sections : String → List (String × String)
sections interface =
    ("snmp", "cat /proc/net/snmp")
    ∷ ("udp", "cat /proc/net/udp")
    ∷ ("qdisc", str_append "tc -s qdisc show dev " interface)
    ∷ ("ethtool_stats", str_append "ethtool -S " interface)
    ∷ map (nic_section interface) nic_statistics

abbrev pub section_script : String × String → String
section_script (name, command) =
    concat
      ("printf '" ∷ section_prefix ∷ "%s>>>\\n' " ∷ name ∷ "; " ∷ command ∷ " 2>/dev/null; " ∷ [])

abbrev pub script : String → String
script interface = concat (map section_script (sections interface))

abbrev pub section_names : List String
section_names = "snmp" ∷ "udp" ∷ "qdisc" ∷ "ethtool_stats" ∷ map nic_name nic_statistics

-- `probe`: what a command printed, or the text of the exception.
abbrev pub probe : (Error → String) → Result String → Probe
probe str_exc (ok text) = record { value = some text; error = none }
probe str_exc (err exc) = record { value = none; error = some (str_exc exc) }

-- `captured[name]`
abbrev pub required_probe : String → Option Probe → Result Probe
required_probe name none = err (Error.key_error name)
required_probe name (some sample) = ok sample

module _ (str_exc : Error → String) where
  -- A counter by name, read from its section.
  abbrev pub counter :
      List (String × Probe) → String → String → (String → Result ℤ) → Result (String × Sample)
  counter captured name section parser =
      required_probe section (lookup section captured) >>= λ sample.
      ok (name, parse_counter str_exc sample parser)

  unfoldable pub nic_counters :
      List (String × Probe) → List String → Result (List (String × Sample))
  nic_counters captured [] = ok []
  nic_counters captured (name ∷ names) =
      let rest = nic_counters captured names in
      counter captured (nic_name name) (nic_name name) (λ text. read_int (strip text)) >>= λ first.
      rest >>= λ others. ok (first ∷ others)

  unfoldable pub counters_of : List (String × Probe) → Result (List (String × Sample))
  counters_of captured = do
    rcvbuf ← counter captured "udp_rcvbuf_errors" "snmp" parse_udp_rcvbuf_errors
    sndbuf ← counter captured "udp_sndbuf_errors" "snmp" parse_udp_sndbuf_errors
    drops ← counter captured "udp_socket_drops" "udp" parse_udp_socket_drops
    qdisc ← counter captured "qdisc_drops" "qdisc" parse_qdisc_drops
    rx_pause ←
        counter captured "nic_rx_pause" "ethtool_stats"
          (λ text. parse_ethtool_statistic text "rx_pause")
    tx_pause ←
        counter captured "nic_tx_pause" "ethtool_stats"
          (λ text. parse_ethtool_statistic text "tx_pause")
    nics ← nic_counters captured nic_statistics
    ok (rcvbuf ∷ sndbuf ∷ drops ∷ qdisc ∷ rx_pause ∷ tx_pause ∷ nics)

  -- `run` is what the node answers to a command.
  unfoldable pub snapshot_counters :
      (List String → Result String) → String → Result (List (String × Sample))
  snapshot_counters run interface = do
    captured ←
        split_counter_sections (probe str_exc (run ("sh" ∷ "-c" ∷ script interface ∷ [])))
          section_names
    counters_of captured
