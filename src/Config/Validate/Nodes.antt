-- ===== src/Config/Validate/Nodes.antt =====
-- The global object of a configuration that `validate_config` (main.py) accepts: its topology and its two nodes.
use net_latency_lab.Base.{
  Option-cases, subst, String, true, not, ◌||◌, some, ◌≡◌, ◌∙◌, ap, inl, inr, arith, Bool-cases,
}
use net_latency_lab.Python.Error.{Error, ok, >>=-BothReturn}
use net_latency_lab.Config.Value.{
  Value, null, boolean, int, float, str, array, object, Entries, Conversions, find, found_or, get,
  required, is_member, all_chars, is_interface_char,
}
use net_latency_lab.Config.Global.{
  dict_or, missing_keys, raise_missing, global_keys, address, node_error, node_of, interface_text,
  interface_of, addresses, topologies, check_topology, check_global,
}
use net_latency_lab.Config.Checked.{ok_inj, never, guard-ok, guard_not-ok, then-ok}
use net_latency_lab.Config.Validate.Settings.{required-ok, member-ok}
use text.Mathlib.Text.{◌==◌}
use net_latency_lab.Config.Validate.Placement.{IsPlaced, check_topology-IsPlaced}

pub dict-ok :
    {F : Type 0} (e : Error) (value : Value F) (entries : Entries F)
    → dict_or e (some value) ≡ ok entries
    → value ≡ object entries
dict-ok e null entries h = cc
dict-ok e (boolean b) entries h = cc
dict-ok e (int n) entries h = cc
dict-ok e (float f) entries h = cc
dict-ok e (str t) entries h = cc
dict-ok e (array items) entries h = cc
dict-ok e (object found) entries h = cc

module _ {F : Type 0} (conversions : Conversions F) where
  -- What the global object of an accepted configuration holds.
  pub record IsGlobal (global : Entries F) : Type 0 where
    pub topology : Value F
    pub named : find "topology" global ≡ some topology
    pub nodes : Value F
    pub listed : find "nodes" global ≡ some nodes
    pub receiver : Entries F
    pub received : get nodes "receiver" null ≡ ok (object receiver)
    pub sender : Entries F
    pub sent : get nodes "sender" null ≡ ok (object sender)
    pub interface : String
    pub read : find "interface" receiver ≡ some (str interface)
    pub safe : all_chars is_interface_char interface ≡ true
    pub placed :
        IsPlaced topology
          (addresses conversions receiver sender interface)
          (found_or null (find "interface" sender))

  node_of-ok :
      (nodes : Value F) (role : String) (node : Entries F)
      → node_of conversions nodes role ≡ ok node
      → get nodes role null ≡ ok (object node)
  unfolding node_of
  node_of-ok nodes role node h =
      let a = >>=-BothReturn (get nodes role null) _ h in
      let b = >>=-BothReturn (dict_or (node_error role) (some a.value)) _ a.second in
      let c =
        guard-ok
          (address conversions "management_host" b.value == ""
            || address conversions "benchmark_ip" b.value == "")
          (node_error role) _ b.second in
      a.first ∙ ap ok (dict-ok (node_error role) a.value b.value b.first ∙ ap object (ok_inj c.1))

  interface_text-ok :
      (value : Value F) (interface : String)
      → interface_text conversions value ≡ ok interface
      → (value ≡ str interface) × (all_chars is_interface_char interface ≡ true)
  interface_text-ok (str t) interface h =
      elim (Bool-cases (t == "" || not (all_chars is_interface_char t))) [
        | inl bad ↦ cc (rw bad at h)
        | inr good ↦
            let same = ok_inj (rw good at h) in
            (
              ap str same,
              subst (λ text. all_chars is_interface_char text ≡ true) same (ground (arith, good)),
            )
      ]
  interface_text-ok null interface h = cc
  interface_text-ok (boolean b) interface h = elim (never _ _ _ _ h) [ ]
  interface_text-ok (int n) interface h = elim (never _ _ _ _ h) [ ]
  interface_text-ok (float f) interface h = elim (never _ _ _ _ h) [ ]
  interface_text-ok (array items) interface h = elim (never _ _ _ _ h) [ ]
  interface_text-ok (object entries) interface h = elim (never _ _ _ _ h) [ ]

  interface_of-ok :
      (receiver : Entries F) (interface : String)
      → interface_of conversions receiver ≡ ok interface
      → (find "interface" receiver ≡ some (str interface))
        × (all_chars is_interface_char interface ≡ true)
  unfolding interface_of
  interface_of-ok receiver interface h = elim (Option-cases (find "interface" receiver)) [
    | inl missing ↦ cc (rw missing at h)
    | inr (value, e) ↦
        let (same, safe) = interface_text-ok value interface (rw e at h) in (e ∙ ap some same, safe)
  ]

  -- The check of the global object returns only for a known topology whose conditions on the addresses
  -- of the two nodes and on the receiver's interface hold.
  pub check_global-IsGlobal :
      (global : Entries F) {u : Unit {0}} → check_global conversions global ≡ ok u → IsGlobal global
  unfolding check_global
  check_global-IsGlobal global h =
      let a = then-ok (raise_missing "global" (missing_keys global global_keys)) _ h in
      let b = >>=-BothReturn (required "topology" (find "topology" global)) _ a.1 in
      let c = >>=-BothReturn (required "nodes" (find "nodes" global)) _ b.second in
      let d = >>=-BothReturn (is_member b.value topologies) _ c.second in
      let e = guard_not-ok d.value _ _ d.second in
      let f = >>=-BothReturn (node_of conversions c.value "receiver") _ e.1 in
      let g = >>=-BothReturn (node_of conversions c.value "sender") _ f.second in
      let i = >>=-BothReturn (interface_of conversions f.value) _ g.second in
      let j =
        then-ok
          (check_topology b.value (addresses conversions f.value g.value i.value)
            (found_or null (find "interface" g.value)))
          _ i.second in
      let (read, safe) = interface_of-ok f.value i.value i.first in
      record {
        topology = b.value;
        named = required-ok "topology" _ b.value b.first;
        nodes = c.value;
        listed = required-ok "nodes" _ c.value c.first;
        receiver = f.value;
        received = node_of-ok c.value "receiver" f.value f.first;
        sender = g.value;
        sent = node_of-ok c.value "sender" g.value g.first;
        interface = i.value;
        read = read;
        safe = safe;
        placed =
            check_topology-IsPlaced b.value (addresses conversions f.value g.value i.value)
              (found_or null (find "interface" g.value))
              (member-ok b.value topologies d.first ∙ e.0) j.0;
      }
