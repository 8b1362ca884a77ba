-- ===== src/Config/Global.antt =====
-- The first half of `validate_config` (main.py): the shape of the configuration, the topology and the
-- two nodes.
use net_latency_lab.Base.{
  String, Bool, true, false, not, ◌&&◌, ◌||◌, Option, none, some, List, [], ◌∷◌, filter,
  if◌then◌else◌,
}
use net_latency_lab.Python.Error.{Error, Result, ok, err, raise_if, ◌>>=◌, ◌>>◌}
use net_latency_lab.Python.Show.{concat, join}
use net_latency_lab.Config.Value.{
  Value, null, str, object, Entries, end, entry, Conversions, value_error, find, found_or, has, get,
  required, index, is_text, is_in, is_member, is_true, str_value, all_chars, is_interface_char,
}
use net_latency_lab.Execution.Commands.{is_local}
use text.Mathlib.Text.{◌==◌}

abbrev pub shape_error : Error
shape_error = value_error "Configuration requires a global object"

abbrev pub raise_missing : String → List String → Result (Unit {0})
raise_missing place [] = ok tt
raise_missing place (name ∷ names) =
    err (value_error (concat (place ∷ " is missing: " ∷ join ", " (name ∷ names) ∷ [])))

abbrev pub global_keys : List String
global_keys =
    "local_data_dir" ∷ "metadata_collection" ∷ "nodes" ∷ "remote_project_root" ∷ "runtime"
    ∷ "topology" ∷ "tuning_state" ∷ "user" ∷ []

module _ {F : Type 0} where
  -- A dict, or else the exception.
  abbrev pub dict_or : Error → Option (Value F) → Result (Entries F)
  dict_or e none = err e
  dict_or e (some (object entries)) = ok entries
  dict_or e (some other) = err e

  unfoldable pub global_of : Value F → Result (Entries F)
  global_of config = do
    entries ← dict_or shape_error (some config)
    dict_or shape_error (find "global" entries)

  -- The names that a dict has not, in their order.
  abbrev pub missing_keys : Entries F → List String → List String
  missing_keys entries names = filter (λ name. not (has (find name entries))) names

abbrev pub node_error : String → Error
node_error role =
    value_error
      (concat ("global.nodes." ∷ role ∷ " requires management_host and benchmark_ip" ∷ []))

abbrev pub interface_error : Error
interface_error = value_error "receiver interface is missing or invalid"

pub record Addresses : Type 0 where
  pub rx_management : String
  pub tx_management : String
  pub rx_benchmark : String
  pub tx_benchmark : String
  pub interface : String

abbrev pub topologies : List String
topologies = "local_loopback" ∷ "distributed_ethernet" ∷ "external_generator" ∷ []

abbrev pub all_local : Addresses → Bool
all_local a =
    is_local a.rx_management
    && is_local a.tx_management
    && is_local a.rx_benchmark
    && is_local a.tx_benchmark

abbrev pub loopback_error : Error
loopback_error =
    value_error "local_loopback requires loopback control/data addresses and interface lo"

abbrev pub distributed_error : Error
distributed_error =
    value_error "distributed_ethernet requires distinct management hosts and benchmark IPs"

abbrev pub external_error : Error
external_error = value_error (
    "external_generator requires a remote receiver and local sender with distinct dedicated Ethernet addresses")

abbrev pub is_misplaced : Addresses → Bool
is_misplaced a =
    is_local a.rx_management
    || is_local a.tx_management
    || a.rx_management == a.tx_management
    || a.rx_benchmark == a.tx_benchmark
    || a.interface == "lo"

abbrev pub is_not_external : Addresses → Bool
is_not_external a =
    is_local a.rx_management
    || not (is_local a.tx_management)
    || a.rx_benchmark == a.tx_benchmark
    || a.interface == "lo"

module _ {F : Type 0} (conversions : Conversions F) where
  -- `management_host` and `benchmark_ip` of a node
  abbrev pub address : String → Entries F → String
  address key node =
      str_value conversions (found_or (found_or (str "") (find "host" node)) (find key node))

  -- One round of the loop over the two roles: the node, if it has both addresses.
  unfoldable pub node_of : Value F → String → Result (Entries F)
  node_of nodes role = do
    found ← get nodes role null
    node ← dict_or (node_error role) (some found)
    raise_if (address "management_host" node == "" || address "benchmark_ip" node == "")
        (node_error role)
    ok node

  -- The interface, if it is a text of the right characters.
  abbrev pub interface_text : Value F → Result String
  interface_text (str t) =
      if t == "" || not (all_chars is_interface_char t) then err interface_error else ok t
  interface_text other =
      if is_true conversions other then err Error.type_error else err interface_error

  unfoldable pub interface_of : Entries F → Result String
  interface_of receiver = interface_text (found_or null (find "interface" receiver))

module _ {F : Type 0} where
  -- `value in {None, "lo"}`
  abbrev pub is_none_or_lo : Value F → Result Bool
  is_none_or_lo null = ok true
  is_none_or_lo other = is_member other ("lo" ∷ [])

  unfoldable pub check_external : Addresses → Value F → Result (Unit {0})
  check_external a sender_interface =
      if is_not_external a
      then err external_error
      else (is_none_or_lo sender_interface >>= λ same. raise_if same external_error)

  unfoldable pub check_topology : Value F → Addresses → Value F → Result (Unit {0})
  check_topology topology a sender_interface =
      if is_text "local_loopback" topology
      then raise_if (not (all_local a) || not (a.interface == "lo")) loopback_error
      else if is_text "distributed_ethernet" topology
      then raise_if (is_misplaced a) distributed_error
      else check_external a sender_interface

  abbrev pub is_filled_text : Value F → Bool
  is_filled_text (str t) = not (t == "")
  is_filled_text other = false

  abbrev pub check_present : String → String → Value F → Bool → Result (Unit {0})
  check_present role field node false = ok tt
  check_present role field node true = index node field >>= λ value.
      raise_if (not (is_filled_text value)) (
        value_error
          (concat ("global.nodes." ∷ role ∷ "." ∷ field ∷ " must be a nonempty string" ∷ [])))

  unfoldable pub check_fields : String → Value F → List String → Result (Unit {0})
  check_fields role node [] = ok tt
  check_fields role node (field ∷ fields) =
      let rest = check_fields role node fields in
      is_in field node >>= λ present. check_present role field node present >> rest

  -- The loop over `nodes.items()`
  unfoldable pub check_nodes : Entries F → Result (Unit {0})
  check_nodes end = ok tt
  check_nodes (entry role node nodes) =
      let rest = check_nodes nodes in
      check_fields role node ("project_root" ∷ "build_preset" ∷ "build_subdir" ∷ []) >> rest

module _ {F : Type 0} (conversions : Conversions F) where
  abbrev pub addresses : Entries F → Entries F → String → Addresses
  addresses receiver sender interface = record {
    rx_management = address conversions "management_host" receiver;
    tx_management = address conversions "management_host" sender;
    rx_benchmark = address conversions "benchmark_ip" receiver;
    tx_benchmark = address conversions "benchmark_ip" sender;
    interface = interface;
  }

  -- The checks of the global object up to the loop over the nodes.
  unfoldable pub check_global : Entries F → Result (Unit {0})
  check_global global = do
    raise_missing "global" (missing_keys global global_keys)
    topology ← required "topology" (find "topology" global)
    nodes ← required "nodes" (find "nodes" global)
    known ← is_member topology topologies
    raise_if (not known) (
        value_error
          ("global.topology must be local_loopback, distributed_ethernet, or external_generator"))
    receiver ← node_of conversions nodes "receiver"
    sender ← node_of conversions nodes "sender"
    interface ← interface_of conversions receiver
    check_topology topology (addresses receiver sender interface)
        (found_or null (find "interface" sender))
    entries ← dict_or Error.attribute_error (some nodes)
    check_nodes entries
