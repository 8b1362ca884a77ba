-- ===== src/Config/Validate.antt =====
-- `validate_config` (main.py): the configuration itself, or the first exception.
pub mod Accepted
pub mod Benchmarks
pub mod Nodes
pub mod Placement
pub mod Settings
use net_latency_lab.Base.{String, List, [], ◌∷◌, Option, some, if◌then◌else◌, true}
use net_latency_lab.Python.Error.{Error, Result, ok, err, ◌>>=◌, ◌>>◌}
use net_latency_lab.Config.Value.{
  Value, null, boolean, array, object, Items, nil, cons, end, Conversions, value_error, find,
  required, get, is_true,
}
use net_latency_lab.Config.Global.{shape_error, dict_or, global_of, check_global}
use net_latency_lab.Config.Runtime.{check_runtime}
use net_latency_lab.Config.Benchmark.{name_text, check_receiver}
use net_latency_lab.Config.Sender.{check_sender}

abbrev pub no_benchmark : Error
no_benchmark = value_error "At least one benchmark is required"

module _ {F : Type 0} where
  -- A list that is not empty.
  abbrev pub filled_items : Option (Value F) → Result (Items F)
  filled_items (some (array (cons value items))) = ok (cons value items)
  filled_items other = err no_benchmark

module _ {F : Type 0} (conversions : Conversions F) where
  -- An enabled benchmark: the names with its own.
  unfoldable pub check_enabled : List String → Value F → Result (List String)
  check_enabled names benchmark = do
    name_value ← get benchmark "name" null
    name ← name_text conversions names name_value
    receiver ← get benchmark "receiver" (object end)
    sender ← get benchmark "sender" (object end)
    check_receiver conversions name receiver
    check_sender conversions name sender
    ok (name ∷ names)

  -- One round of the loop over the benchmarks: a disabled one is skipped.
  unfoldable pub check_benchmark : List String → Value F → Result (List String)
  check_benchmark names benchmark = do
    enabled ← get benchmark "enabled" (boolean true)
    if is_true conversions enabled then check_enabled names benchmark else ok names

  unfoldable pub check_benchmarks : List String → Items F → Result (List String)
  check_benchmarks names nil = ok names
  check_benchmarks names (cons benchmark benchmarks) =
      check_benchmark names benchmark >>= λ names'. check_benchmarks names' benchmarks

  unfoldable pub validate_config : Value F → Result (Value F)
  validate_config config = do
    global ← global_of config
    check_global conversions global
    runtime ← required "runtime" (find "runtime" global)
    settings ← dict_or Error.attribute_error (some runtime)
    check_runtime conversions settings
    entries ← dict_or shape_error (some config)
    benchmarks ← filled_items (find "benchmarks" entries)
    names ← check_benchmarks [] benchmarks
    ok config
