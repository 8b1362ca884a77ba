-- ===== src/Config/Validate/Settings.antt =====
-- The runtime settings of a configuration that `validate_config` (main.py) accepts.
use net_latency_lab.Base.{
  List, String, Bool, true, false, ◌&&◌, Option, none, some, ◌≡◌, refl, ap, ◌∙◌, ◌⊎◌, inl, inr,
  arith, Bool-cases,
}
use net_latency_lab.Base.Int.{ℤ, pos, leb_ℤ, ◌≤ℤ◌}
use net_latency_lab.Python.Error.{ok, >>=-BothReturn}
use net_latency_lab.Config.Value.{
  Value, null, float, Entries, Conversions, find, found_or, required, is_text, is_among, is_member,
  is_int_in, is_int_from, is_hashable, as_int, holds,
}
use net_latency_lab.Config.Global.{missing_keys, raise_missing}
use net_latency_lab.Config.Runtime.{
  runtime_keys, schedulers, is_positive_number, is_not_negative_number, is_cpu, equals_zero,
  is_in_range, check_priority, check_delay, check_runtime,
}
use net_latency_lab.Config.Checked.{raise_if-not_ok, guard_not-ok, then-ok}

pub required-ok :
    {F : Type 0} (key : String) (field : Option (Value F)) (value : Value F)
    → required key field ≡ ok value
    → field ≡ some value
required-ok key none value h = cc
required-ok key (some v) value h = cc

-- An integer between two bounds.
pub record IsBounded {F : Type 0} (low high : ℤ) (value : Value F) : Type 0 where
  pub number : ℤ
  pub read : as_int value ≡ some number
  pub above : low ≤ℤ number
  pub below : number ≤ℤ high

IsBounded-holds :
    {F : Type 0} (low high : ℤ) (value : Value F) (n : Option ℤ)
    → as_int value ≡ n
    → holds (λ m. leb_ℤ low m && leb_ℤ m high) n ≡ true
    → IsBounded low high value
IsBounded-holds low high value none e h = cc
IsBounded-holds low high value (some m) e h = record {
  number = m;
  read = e;
  above = ground (arith, h);
  below = ground (arith, h);
}

pub is_int_in-IsBounded :
    {F : Type 0} (low high : ℤ) (value : Value F)
    → is_int_in low high value ≡ true
    → IsBounded low high value
is_int_in-IsBounded low high value h = IsBounded-holds low high value (as_int value) refl h

pub member-ok :
    {F : Type 0} (value : Value F) (names : List String) {b : Bool}
    → is_member value names ≡ ok b
    → is_among value names ≡ b
member-ok value names h = elim (Bool-cases (is_hashable value)) [
  | inl can ↦ cc (rw can at h)
  | inr cannot ↦ cc (rw cannot at h)
]

module _ {F : Type 0} (conversions : Conversions F) where
  -- The other scheduler with priority 0, or a real-time one with a priority in 1..99.
  abbrev pub IsScheduled : Value F → Value F → Type 0
  IsScheduled scheduler priority =
      ((is_text "other" scheduler ≡ true) × (equals_zero conversions priority ≡ true))
      ⊎ ((is_text "other" scheduler ≡ false) × (is_in_range conversions priority ≡ ok true))

  -- A delay that is there and is positive.
  abbrev pub IsDelay : String → Entries F → Type 0
  IsDelay name runtime =
      (delay : Value F) × (find name runtime ≡ some delay)
      × (is_positive_number conversions delay ≡ true)

  pub record IsSettled (runtime : Entries F) : Type 0 where
    pub repetitions : Value F
    pub repeated : find "repetitions" runtime ≡ some repetitions
    pub counted : is_int_from (pos 1) repetitions ≡ true
    pub port : Value F
    pub opened : find "port" runtime ≡ some port
    pub bounded : IsBounded (pos 1) (pos 65535) port
    pub startup : IsDelay "receiver_startup_seconds" runtime
    pub shutdown : IsDelay "shutdown_timeout_seconds" runtime
    pub receiver_cpu : is_cpu conversions (found_or null (find "receiver_cpu" runtime)) ≡ true
    pub worker_cpu : is_cpu conversions (found_or null (find "worker_cpu" runtime)) ≡ true
    pub sender_cpu : is_cpu conversions (found_or null (find "sender_cpu" runtime)) ≡ true
    pub scheduler : Value F
    pub chosen : find "scheduler" runtime ≡ some scheduler
    pub known : is_among scheduler schedulers ≡ true
    pub priority : Value F
    pub given : find "priority" runtime ≡ some priority
    pub scheduled : IsScheduled scheduler priority

  check_priority-IsScheduled :
      (scheduler priority : Value F) {u : Unit {0}}
      → check_priority conversions scheduler priority ≡ ok u
      → IsScheduled scheduler priority
  unfolding check_priority
  check_priority-IsScheduled scheduler priority h = elim (Bool-cases (is_text "other" scheduler)) [
    | inl other ↦ inl (other, raise_if-not_ok _ _ (rw other at h))
    | inr real ↦
        let both = >>=-BothReturn (is_in_range conversions priority) _ (rw real at h) in
        inr (real, both.first ∙ ap ok (raise_if-not_ok both.value _ both.second))
  ]

  check_delay-IsDelay :
      (name : String) (runtime : Entries F) {u : Unit {0}}
      → check_delay conversions name runtime ≡ ok u
      → IsDelay name runtime
  check_delay-IsDelay name runtime h =
      let both = >>=-BothReturn (required name (find name runtime)) _ h in
      (both.value, required-ok name _ both.value both.first, raise_if-not_ok _ _ both.second)

  -- The check of the runtime settings returns only if the repetitions are a positive integer, the port
  -- is in 1..65535, both delays are positive, each CPU is left out or a nonnegative integer, and the
  -- scheduler is `other` with priority 0 or a real-time one with a priority in 1..99.
  pub check_runtime-IsSettled :
      (runtime : Entries F) {u : Unit {0}}
      → check_runtime conversions runtime ≡ ok u
      → IsSettled runtime
  unfolding check_runtime
  check_runtime-IsSettled runtime h =
      let a = then-ok (raise_missing "global.runtime" (missing_keys runtime runtime_keys)) _ h in
      let b = >>=-BothReturn (required "repetitions" (find "repetitions" runtime)) _ a.1 in
      let c = guard_not-ok (is_int_from (pos 1) b.value) _ _ b.second in
      let d = >>=-BothReturn (required "port" (find "port" runtime)) _ c.1 in
      let e = guard_not-ok (is_int_in (pos 1) (pos 65535) d.value) _ _ d.second in
      let f = then-ok (check_delay conversions "receiver_startup_seconds" runtime) _ e.1 in
      let g = then-ok (check_delay conversions "shutdown_timeout_seconds" runtime) _ f.1 in
      let i =
        guard_not-ok
          (is_not_negative_number conversions
            (found_or (float conversions.one) (find "post_sender_drain_seconds" runtime)))
          _ _ g.1 in
      let j =
        guard_not-ok (is_cpu conversions (found_or null (find "receiver_cpu" runtime))) _ _ i.1 in
      let k =
        guard_not-ok (is_cpu conversions (found_or null (find "worker_cpu" runtime))) _ _ j.1 in
      let l =
        guard_not-ok (is_cpu conversions (found_or null (find "sender_cpu" runtime))) _ _ k.1 in
      let m = >>=-BothReturn (required "scheduler" (find "scheduler" runtime)) _ l.1 in
      let n = >>=-BothReturn (is_member m.value schedulers) _ m.second in
      let o = guard_not-ok n.value _ _ n.second in
      let p = >>=-BothReturn (required "priority" (find "priority" runtime)) _ o.1 in
      record {
        repetitions = b.value;
        repeated = required-ok "repetitions" _ b.value b.first;
        counted = c.0;
        port = d.value;
        opened = required-ok "port" _ d.value d.first;
        bounded = is_int_in-IsBounded (pos 1) (pos 65535) d.value e.0;
        startup = check_delay-IsDelay "receiver_startup_seconds" runtime f.0;
        shutdown = check_delay-IsDelay "shutdown_timeout_seconds" runtime g.0;
        receiver_cpu = j.0;
        worker_cpu = k.0;
        sender_cpu = l.0;
        scheduler = m.value;
        chosen = required-ok "scheduler" _ m.value m.first;
        known = member-ok m.value schedulers n.first ∙ o.0;
        priority = p.value;
        given = required-ok "priority" _ p.value p.first;
        scheduled = check_priority-IsScheduled m.value p.value p.second;
      }
