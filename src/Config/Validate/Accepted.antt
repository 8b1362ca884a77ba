-- ===== src/Config/Validate/Accepted.antt =====
-- What `validate_config` (main.py) guarantees of a configuration that it returns.
use net_latency_lab.Base.{some, String, true, false, some, List, [], ◌∷◌, ◌≡◌, ◌⊎◌}
use net_latency_lab.Python.Error.{Error, ok}
use net_latency_lab.Config.Value.{
  Value, null, boolean, str, object, Items, nil, cons, Entries, end, Conversions, find, get,
  is_true, all_chars, is_name_char,
}
use net_latency_lab.Config.Global.{global_of}
use net_latency_lab.Config.Benchmark.{is_used}
use net_latency_lab.Config.Validate.{filled_items}
use net_latency_lab.Config.Validate.Settings.{IsSettled}
use net_latency_lab.Config.Validate.Nodes.{IsGlobal}
use net_latency_lab.Config.Validate.Benchmarks.{IsReceiver, IsSender}
use text.Mathlib.Text.{◌==◌}

-- A name that is not empty, is new, and has safe characters only.
pub record IsName (names : List String) (name : String) : Type 0 where
  pub filled : (name == "") ≡ false
  pub fresh : is_used name names ≡ false
  pub safe : all_chars is_name_char name ≡ true

-- No name stands twice.
abbrev pub AreDistinct : List String → Type 0
AreDistinct [] = Unit
AreDistinct (name ∷ names) = (is_used name names ≡ false) × AreDistinct names

module _ {F : Type 0} (conversions : Conversions F) where
  -- An enabled benchmark, and the names with its own.
  pub record IsEnabled (names : List String) (benchmark : Value F) (names' : List String)
      : Type 0 where
    pub name : String
    pub named : get benchmark "name" null ≡ ok (str name)
    pub is_name : IsName names name
    pub added : names' ≡ name ∷ names
    pub receiver : Value F
    pub received : get benchmark "receiver" (object end) ≡ ok receiver
    pub is_receiver : IsReceiver conversions receiver
    pub sender : Value F
    pub sent : get benchmark "sender" (object end) ≡ ok sender
    pub is_sender : IsSender conversions sender

  -- A disabled benchmark is not looked into.
  pub record IsDisabled (names : List String) (benchmark : Value F) (names' : List String)
      : Type 0 where
    pub enabled : Value F
    pub read : get benchmark "enabled" (boolean true) ≡ ok enabled
    pub off : is_true conversions enabled ≡ false
    pub same : names' ≡ names

  -- Each benchmark is disabled, or its name is new and its receiver and sender are accepted.
  pub AreAccepted : List String → Items F → List String → Type 0
  AreAccepted names nil names' = names' ≡ names
  AreAccepted names (cons benchmark benchmarks) names' =
      (middle : List String) × (IsDisabled names benchmark middle
        ⊎ IsEnabled names benchmark middle)
      × AreAccepted middle benchmarks names'

  -- An accepted configuration.
  pub record IsAccepted (config : Value F) : Type 0 where
    pub entries : Entries F
    pub is_dict : config ≡ object entries
    pub global : Entries F
    pub rooted : global_of config ≡ ok global
    pub is_global : IsGlobal conversions global
    pub settings : Entries F
    pub set : find "runtime" global ≡ some (object settings)
    pub is_settled : IsSettled conversions settings
    pub items : Items F
    pub names : List String
    pub benchmarks : AreAccepted [] items names
    pub distinct : AreDistinct names
    pub listed : filled_items (find "benchmarks" entries) ≡ ok items
