-- ===== src/Counters/Snapshot/Complete.antt =====
-- A snapshot of the counters (main.py) always has all thirteen.
use net_latency_lab.Base.{
  String, Bool, true, false, Option, none, some, List, [], ◌∷◌, map, ◌≡◌, refl, ap, ◌∙◌, sym, inl,
  inr, Bool-cases, if◌then◌else◌, arith,
}
use net_latency_lab.Python.Error.{Error, Result, ok, err}
use net_latency_lab.Counters.Text.{splitlines}
use net_latency_lab.Counters.Sections.{
  Splitter, put, is_header, repeat_for, missing_all, flushed, split_line, split_lines,
  split_counter_sections,
}
use net_latency_lab.Counters.Deltas.{Sample}
use net_latency_lab.Base.Int.{ℤ}
use net_latency_lab.Counters.Kernel.{
  parse_udp_rcvbuf_errors, parse_udp_sndbuf_errors, parse_udp_socket_drops, parse_qdisc_drops,
  parse_ethtool_statistic,
}
use net_latency_lab.Counters.Parsing.{parse_counter}
use net_latency_lab.Python.Error.{◌>>=◌}
use net_latency_lab.Counters.Snapshot.{counter, required_probe, nic_name, script}
use net_latency_lab.Counters.Snapshot.{
  nic_statistics, section_names, probe, counters_of, snapshot_counters, nic_counters,
}
use net_latency_lab.Verdict.State.{Probe, lookup}
use text.Mathlib.Text.{◌==◌}

-- The keys of a dict
abbrev keys {ℓ} : {A : Type ℓ} → List (String × A) → List String
keys [] = []
keys ((key, value) ∷ entries) = key ∷ keys entries

keys-put :
    (name : String) (p : Probe) (captured : List (String × Probe))
    → keys (put name p captured) ≡ keys captured
keys-put name p [] = refl
keys-put name p ((key, old) ∷ captured) = elim (Bool-cases (key == name)) [
  | inl same ↦ rw same refl
  | inr other ↦ rw other (ap (λ (ks : List String). key ∷ ks) (keys-put name p captured))
]

keys-flushed :
    (captured : List (String × Probe)) (current : Option String) (lines : List String)
    → keys (flushed captured current lines) ≡ keys captured
keys-flushed captured none lines = refl
keys-flushed captured (some name) lines = keys-put name _ captured

keys-split_line :
    (s : Splitter) (line : String) → keys (split_line s line).captured ≡ keys s.captured
unfolding split_line
keys-split_line s line = elim (Bool-cases (is_header line)) [
  | inl header ↦ rw header (keys-flushed s.captured s.current s.lines)
  | inr plain ↦ rw plain refl
]

keys-split_lines :
    (s : Splitter) (lines : List String) → keys (split_lines s lines) ≡ keys s.captured
unfolding split_lines
keys-split_lines s [] = keys-flushed s.captured s.current s.lines
keys-split_lines s (line ∷ lines) =
    keys-split_lines (split_line s line) lines ∙ keys-split_line s line

keys-missing_all : (names : List String) → keys (missing_all names) ≡ names
keys-missing_all [] = refl
keys-missing_all (name ∷ names) = ap (λ (ks : List String). name ∷ ks) (keys-missing_all names)

keys-repeat_for : (p : Probe) (names : List String) → keys (repeat_for p names) ≡ names
keys-repeat_for p [] = refl
keys-repeat_for p (name ∷ names) = ap (λ (ks : List String). name ∷ ks) (keys-repeat_for p names)

-- The sections of a probe are under the names that were asked for, in their order.
split-keys :
    (str_exc : Error → String) (answer : Result String) (names : List String)
    → (captured : List (String × Probe)) × (split_counter_sections (probe str_exc answer) names
        ≡ ok captured)
      × (keys captured ≡ names)
unfolding split_counter_sections
split-keys str_exc (ok text) names =
    (_, refl, keys-split_lines _ (splitlines text) ∙ keys-missing_all names)
split-keys str_exc (err exc) names = (_, refl, keys-repeat_for _ names)

abbrev has_key : String → List String → Bool
has_key name [] = false
has_key name (key ∷ ks) = if key == name then true else has_key name ks

-- A key of a dict has a value.
lookup-keys {ℓ} :
    {A : Type ℓ}
    → (name : String) (entries : List (String × A)) → has_key name (keys entries) ≡ true
    → (a : A) × (lookup name entries ≡ some a)
lookup-keys name [] h = ground (arith, h)
lookup-keys name ((key, a) ∷ entries) h = elim (Bool-cases (key == name)) [
  | inl same ↦ (a, ap (λ b. if b then some a else lookup name entries) same)
  | inr other ↦
      let (found, found_at) =
        lookup-keys name entries
          (sym (ap (λ b. if b then true else has_key name (keys entries)) other) ∙ h) in
      (found, ap (λ b. if b then some a else lookup name entries) other ∙ found_at)
]

-- Every section of the names is known.
abbrev are_known : List String → Bool
are_known [] = true
are_known (name ∷ names) = if has_key (nic_name name) section_names then are_known names else false

-- A body returned a dict with these keys.
pub record HasKeys (names : List String) (m : Result (List (String × Sample))) : Type 0 where
  counters : List (String × Sample)
  pub returned : m ≡ ok counters
  pub named : keys counters ≡ names

-- The counters of a snapshot
abbrev pub counter_names : List String
counter_names =
    "udp_rcvbuf_errors"
    ∷ "udp_sndbuf_errors"
    ∷ "udp_socket_drops"
    ∷ "qdisc_drops"
    ∷ "nic_rx_pause"
    ∷ "nic_tx_pause"
    ∷ map nic_name nic_statistics

>>=-returned :
    {A B : Type 0}
    → (m : Result A) (rest : A → Result B) {a : A} {b : B} → m ≡ ok a
    → rest a ≡ ok b
    → (m >>= rest) ≡ ok b
>>=-returned m rest h k = ap (λ m. m >>= rest) h ∙ k

module _ (str_exc : Error → String) (captured : List (String × Probe))
    (kept : keys captured ≡ section_names) where
  counter-ok :
      (name section : String) (parser : String → Result ℤ)
      → has_key section section_names ≡ true
      → (sample : Sample) × (counter str_exc captured name section parser ≡ ok (name, sample))
  counter-ok name section parser known =
      let (sample, found) =
        lookup-keys section captured (ap (λ ks. has_key section ks) kept ∙ known) in
      (
        _,
        ap (λ o. required_probe section o >>= λ s. ok (name, parse_counter str_exc s parser)) found,
      )

  nic_counters-HasKeys :
      (names : List String)
      → are_known names ≡ true
      → HasKeys (map nic_name names) (nic_counters str_exc captured names)
  unfolding nic_counters
  nic_counters-HasKeys [] h = record { counters = []; returned = refl; named = refl }
  nic_counters-HasKeys (name ∷ names) h =
      elim (Bool-cases (has_key (nic_name name) section_names)) [
        | inl known ↦
            let (sample, found) = counter-ok (nic_name name) (nic_name name) _ known in
            let others =
              nic_counters-HasKeys names
                (sym (ap (λ b. if b then are_known names else false) known) ∙ h) in
            record {
              counters = (nic_name name, sample) ∷ others.counters;
              returned =
                  ap
                    (λ m. m >>= λ first.
                      nic_counters str_exc captured names >>= λ rest. ok (first ∷ rest))
                    found
                  ∙ ap (λ m. m >>= λ rest. ok ((nic_name name, sample) ∷ rest)) others.returned;
              named = ap (λ ks. nic_name name ∷ ks) others.named;
            }
        | inr unknown ↦
            let never = sym (ap (λ b. if b then are_known names else false) unknown) ∙ h in cc
      ]

  counters_of-HasKeys : HasKeys counter_names (counters_of str_exc captured)
  unfolding counters_of
  counters_of-HasKeys =
      let (rcvbuf, at_rcvbuf) =
        counter-ok "udp_rcvbuf_errors" "snmp" parse_udp_rcvbuf_errors refl in
      let (sndbuf, at_sndbuf) =
        counter-ok "udp_sndbuf_errors" "snmp" parse_udp_sndbuf_errors refl in
      let (drops, at_drops) = counter-ok "udp_socket_drops" "udp" parse_udp_socket_drops refl in
      let (qdisc, at_qdisc) = counter-ok "qdisc_drops" "qdisc" parse_qdisc_drops refl in
      let (rx_pause, at_rx) =
        counter-ok "nic_rx_pause" "ethtool_stats" (λ text. parse_ethtool_statistic text "rx_pause")
          refl in
      let (tx_pause, at_tx) =
        counter-ok "nic_tx_pause" "ethtool_stats" (λ text. parse_ethtool_statistic text "tx_pause")
          refl in
      let nics = nic_counters-HasKeys nic_statistics refl in
      record {
        counters =
            ("udp_rcvbuf_errors", rcvbuf)
            ∷ ("udp_sndbuf_errors", sndbuf)
            ∷ ("udp_socket_drops", drops)
            ∷ ("qdisc_drops", qdisc)
            ∷ ("nic_rx_pause", rx_pause)
            ∷ ("nic_tx_pause", tx_pause)
            ∷ nics.counters;
        returned = >>=-returned _ _ at_rcvbuf (
            >>=-returned _ _ at_sndbuf (
              >>=-returned _ _ at_drops (
                >>=-returned _ _ at_qdisc (
                  >>=-returned _ _ at_rx
                    (>>=-returned _ _ at_tx (>>=-returned _ _ nics.returned refl))))));
        named =
            ap
              (λ ks.
                "udp_rcvbuf_errors" ∷ "udp_sndbuf_errors" ∷ "udp_socket_drops" ∷ "qdisc_drops"
                ∷ "nic_rx_pause" ∷ "nic_tx_pause" ∷ ks)
              nics.named;
      }

-- Whatever a node answers to the command of a snapshot, an exception included, `snapshot_counters` returns: a
-- dict with exactly the thirteen counters in their order, so that no section is missing when a counter is
-- read.
pub snapshot_counters-IsComplete :
    (str_exc : Error → String) (run : List String → Result String) (interface : String)
    → HasKeys counter_names (snapshot_counters str_exc run interface)
unfolding snapshot_counters
snapshot_counters-IsComplete str_exc run interface =
    let (captured, split, kept) =
      split-keys str_exc (run ("sh" ∷ "-c" ∷ script interface ∷ [])) section_names in
    let all = counters_of-HasKeys str_exc captured kept in
    record {
      counters = all.counters;
      returned = >>=-returned _ _ split all.returned;
      named = all.named;
    }
