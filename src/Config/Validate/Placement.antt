-- ===== src/Config/Validate/Placement.antt =====
-- The topology and the nodes of a configuration that `validate_config` (main.py) accepts.
use net_latency_lab.Base.{
  String, true, false, not, ◌||◌, ◌≡◌, ◌≢◌, ◌∙◌, ap, ◌⊎◌, inl, inr, arith, Bool-cases,
}
use net_latency_lab.Python.Error.{ok, >>=-BothReturn}
use net_latency_lab.Execution.Commands.{is_local}
use net_latency_lab.Config.Value.{Value, is_text, is_among}
use net_latency_lab.Config.Global.{
  Addresses, topologies, all_local, is_misplaced, is_not_external, is_none_or_lo, check_external,
  check_topology,
}
use net_latency_lab.Config.Checked.{
  or_false, and4_true, or4_false, or5_false, not-false, raise_if-ok,
}
use text.Mathlib.Text.{◌==◌}
use text.Mathlib.TextEquality.{eq_iff}

-- All is on this machine, and the interface is its loopback.
pub record IsLoopback (a : Addresses) : Type 0 where
  pub rx_management : is_local a.rx_management ≡ true
  pub tx_management : is_local a.tx_management ≡ true
  pub rx_benchmark : is_local a.rx_benchmark ≡ true
  pub tx_benchmark : is_local a.tx_benchmark ≡ true
  pub interface : a.interface ≡ "lo"

-- Two other machines, with addresses of their own.
pub record IsDistributed (a : Addresses) : Type 0 where
  pub rx_management : is_local a.rx_management ≡ false
  pub tx_management : is_local a.tx_management ≡ false
  pub apart : a.rx_management ≢ a.tx_management
  pub benchmarks : a.rx_benchmark ≢ a.tx_benchmark
  pub interface : a.interface ≢ "lo"

-- This machine sends to another one, and neither uses the loopback.
pub record IsExternal {F : Type 0} (a : Addresses) (sender_interface : Value F) : Type 0 where
  pub rx_management : is_local a.rx_management ≡ false
  pub tx_management : is_local a.tx_management ≡ true
  pub benchmarks : a.rx_benchmark ≢ a.tx_benchmark
  pub interface : a.interface ≢ "lo"
  pub own : is_none_or_lo sender_interface ≡ ok false

differs : (a b : String) → (a == b) ≡ false → a ≢ b
differs a b h e = cc (h, (eq_iff a b).1 e)

all_local-IsLoopback :
    (a : Addresses) → (not (all_local a) || not (a.interface == "lo")) ≡ false → IsLoopback a
all_local-IsLoopback a h =
    let (near, lo) = or_false (not (all_local a)) (not (a.interface == "lo")) h in
    let (rm, tm, rb, tb) =
      and4_true (is_local a.rx_management) (is_local a.tx_management) (is_local a.rx_benchmark)
        (is_local a.tx_benchmark) (not-false (all_local a) near) in
    record {
      rx_management = rm;
      tx_management = tm;
      rx_benchmark = rb;
      tx_benchmark = tb;
      interface = (eq_iff a.interface "lo").0 (not-false (a.interface == "lo") lo);
    }

is_misplaced-IsDistributed : (a : Addresses) → is_misplaced a ≡ false → IsDistributed a
is_misplaced-IsDistributed a h =
    let (rm, tm, apart, own, lo) =
      or5_false (is_local a.rx_management) (is_local a.tx_management)
        (a.rx_management == a.tx_management) (a.rx_benchmark == a.tx_benchmark)
        (a.interface == "lo") h in
    record {
      rx_management = rm;
      tx_management = tm;
      apart = differs a.rx_management a.tx_management apart;
      benchmarks = differs a.rx_benchmark a.tx_benchmark own;
      interface = differs a.interface "lo" lo;
    }

-- What each topology asks for.
pub IsPlaced : {F : Type 0} → Value F → Addresses → Value F → Type 0
IsPlaced topology a sender_interface =
    ((is_text "local_loopback" topology ≡ true) × IsLoopback a)
    ⊎ ((is_text "distributed_ethernet" topology ≡ true) × IsDistributed a)
    ⊎ ((is_text "external_generator" topology ≡ true) × IsExternal a sender_interface)

module _ {F : Type 0} (topology : Value F) (a : Addresses) (sender_interface : Value F) where
  check_external-IsExternal :
      {u : Unit {0}} → check_external a sender_interface ≡ ok u → IsExternal a sender_interface
  unfolding check_external
  check_external-IsExternal h = elim (Bool-cases (is_not_external a)) [
    | inl bad ↦ cc (rw bad at h)
    | inr good ↦
        let both = >>=-BothReturn (is_none_or_lo sender_interface) _ (rw good at h) in
        let (rm, tm, own, lo) =
          or4_false (is_local a.rx_management) (not (is_local a.tx_management))
            (a.rx_benchmark == a.tx_benchmark) (a.interface == "lo") good in
        record {
          rx_management = rm;
          tx_management = not-false (is_local a.tx_management) tm;
          benchmarks = differs a.rx_benchmark a.tx_benchmark own;
          interface = differs a.interface "lo" lo;
          own = both.first ∙ ap ok (raise_if-ok both.value _ both.second);
        }
  ]

  among_third :
      is_among topology topologies ≡ true
      → is_text "local_loopback" topology ≡ false
      → is_text "distributed_ethernet" topology ≡ false
      → is_text "external_generator" topology ≡ true
  among_third known first second = ground (arith, known, first, second)

  pub check_topology-IsPlaced :
      {u : Unit {0}}
      → is_among topology topologies ≡ true
      → check_topology topology a sender_interface ≡ ok u
      → IsPlaced topology a sender_interface
  unfolding check_topology IsPlaced
  check_topology-IsPlaced known h = elim (Bool-cases (is_text "local_loopback" topology)) [
    | inl loopback ↦ inl (loopback, all_local-IsLoopback a (raise_if-ok _ _ (rw loopback at h)))
    | inr not_loopback ↦ elim (Bool-cases (is_text "distributed_ethernet" topology)) [
      | inl distributed ↦ inr (
          inl (
            distributed,
            is_misplaced-IsDistributed a (raise_if-ok _ _ (rw (not_loopback, distributed) at h)),
          ))
      | inr not_distributed ↦ inr (
          inr (
            among_third known not_loopback not_distributed,
            check_external-IsExternal (rw (not_loopback, not_distributed) at h),
          ))
    ]
  ]
