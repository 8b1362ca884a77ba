-- ===== src/Config/Validate/Benchmarks.antt =====
-- The benchmarks of a configuration that `validate_config` (main.py) accepts.
use net_latency_lab.Base.{String, Bool, true, false, not, ◌&&◌, ◌≡◌, ◌∙◌, arith}
use net_latency_lab.Base.Int.{pos, ltb_ℤ}
use net_latency_lab.Python.Error.{ok, >>=-BothReturn}
use net_latency_lab.Config.Value.{
  Value, null, int, array, Conversions, get, index, is_text, is_among, is_member, is_int_in,
  is_int_from,
}
use net_latency_lab.Config.Benchmark.{
  binaries, modes, one_item, is_filled_list, is_only_one, int_or, check_receiver, check_required,
  check_mode, check_cpus, is_null,
}
use net_latency_lab.Config.Sender.{sender_keys, check_load, check_threads, check_sender}
use net_latency_lab.Config.Checked.{raise_if-ok, raise_if-not_ok, guard-ok, guard_not-ok, then-ok}
use net_latency_lab.Config.Validate.Settings.{member-ok, IsBounded, is_int_in-IsBounded}

module _ {F : Type 0} (conversions : Conversions F) where
  -- The settings of a receiver: `binary` and `batch_sizes`.
  pub record IsReceiver (receiver : Value F) : Type 0 where
    pub binary : Value F
    pub named : get receiver "binary" null ≡ ok binary
    pub known : is_among binary binaries ≡ true
    pub batches : Value F
    pub listed : get receiver "batch_sizes" (array one_item) ≡ ok batches
    pub sized : is_filled_list (is_int_in (pos 1) (pos 1024)) batches ≡ true
    pub single : is_text "receiver_baseline" binary ≡ true → is_only_one conversions batches ≡ true

  pub record IsSender (sender : Value F) : Type 0 where
    pub mode : Value F
    pub chosen : index sender "mode" ≡ ok mode
    pub known : is_among mode modes ≡ true
    pub rates : Value F
    pub offered : index sender "rates_pps" ≡ ok rates
    pub positive : is_filled_list (is_int_from (pos 1)) rates ≡ true
    pub payload : Value F
    pub sized : index sender "payload_size" ≡ ok payload
    pub fits : IsBounded (pos 16) (pos 65507) payload
    pub bursts : Value F
    pub shaped : get sender "burst_sizes" (array one_item) ≡ ok bursts
    pub steady : is_text "steady" mode ≡ true → is_only_one conversions bursts ≡ true
    pub threads : Value F
    pub counted : get sender "threads" (int (pos 1)) ≡ ok threads
    pub few : IsBounded (pos 1) (pos 128) threads
    pub single :
        is_text "burst" mode ≡ true → ltb_ℤ (pos 1) (int_or conversions threads (pos 1)) ≡ false

  implied : (a b : Bool) → (a && not b) ≡ false → a ≡ true → b ≡ true
  implied a b h e = ground (arith, h, e)

  excluded : (a b : Bool) → (a && b) ≡ false → a ≡ true → b ≡ false
  excluded a b h e = ground (arith, h, e)

  pub check_receiver-IsReceiver :
      (name : String) (receiver : Value F) {u : Unit {0}}
      → check_receiver conversions name receiver ≡ ok u
      → IsReceiver receiver
  unfolding check_receiver
  check_receiver-IsReceiver name receiver h =
      let a = >>=-BothReturn (get receiver "binary" null) _ h in
      let b = >>=-BothReturn (is_member a.value binaries) _ a.second in
      let c = guard_not-ok b.value _ _ b.second in
      let d = >>=-BothReturn (get receiver "batch_sizes" (array one_item)) _ c.1 in
      let e = guard_not-ok (is_filled_list (is_int_in (pos 1) (pos 1024)) d.value) _ _ d.second in
      let f =
        guard-ok (is_text "receiver_baseline" a.value && not (is_only_one conversions d.value)) _ _
          e.1 in
      record {
        binary = a.value;
        named = a.first;
        known = member-ok a.value binaries b.first ∙ c.0;
        batches = d.value;
        listed = d.first;
        sized = e.0;
        single = implied _ _ f.0;
      }

  check_load-facts :
      (name : String) (sender : Value F) {u : Unit {0}}
      → check_load conversions name sender ≡ ok u
      → (rates : Value F) × (payload : Value F) × (index sender "rates_pps" ≡ ok rates)
        × (is_filled_list (is_int_from (pos 1)) rates ≡ true)
        × (index sender "payload_size" ≡ ok payload)
        × IsBounded (pos 16) (pos 65507) payload
  unfolding check_load
  check_load-facts name sender h =
      let a = >>=-BothReturn (index sender "rates_pps") _ h in
      let b = guard_not-ok (is_filled_list (is_int_from (pos 1)) a.value) _ _ a.second in
      let c = >>=-BothReturn (index sender "payload_size") _ b.1 in
      (
        a.value,
        c.value,
        a.first,
        b.0,
        c.first,
        is_int_in-IsBounded (pos 16) (pos 65507) c.value (raise_if-not_ok _ _ c.second),
      )

  check_threads-facts :
      (name : String) (sender mode : Value F) {u : Unit {0}}
      → check_threads conversions name sender mode ≡ ok u
      → (threads : Value F) × (get sender "threads" (int (pos 1)) ≡ ok threads)
        × IsBounded (pos 1) (pos 128) threads
        × (is_text "burst" mode ≡ true → ltb_ℤ (pos 1) (int_or conversions threads (pos 1)) ≡ false)
  unfolding check_threads
  check_threads-facts name sender mode h =
      let a = >>=-BothReturn (get sender "threads" (int (pos 1))) _ h in
      let b = >>=-BothReturn (get sender "cpus" null) _ a.second in
      let c = guard_not-ok (is_int_in (pos 1) (pos 128) a.value) _ _ b.second in
      let d =
        then-ok (check_cpus conversions name (int_or conversions a.value (pos 1)) b.value) _ c.1 in
      let e =
        guard-ok (ltb_ℤ (pos 1) (int_or conversions a.value (pos 1)) && is_null b.value) _ _ d.1 in
      (
        a.value,
        a.first,
        is_int_in-IsBounded (pos 1) (pos 128) a.value c.0,
        excluded _ _ (raise_if-ok _ _ e.1),
      )

  check_mode-known :
      (name : String) (sender mode : Value F) {u : Unit {0}}
      → check_mode conversions name sender mode ≡ ok u
      → is_among mode modes ≡ true
  unfolding check_mode
  check_mode-known name sender mode h =
      let a = >>=-BothReturn (is_member mode modes) _ h in
      member-ok mode modes a.first ∙ (guard_not-ok a.value _ _ a.second).0

  pub check_sender-IsSender :
      (name : String) (sender : Value F) {u : Unit {0}}
      → check_sender conversions name sender ≡ ok u
      → IsSender sender
  unfolding check_sender
  check_sender-IsSender name sender h =
      let a = then-ok (check_required conversions name sender sender_keys) _ h in
      let b = >>=-BothReturn (index sender "mode") _ a.1 in
      let c = then-ok (check_mode conversions name sender b.value) _ b.second in
      let d = then-ok (check_load conversions name sender) _ c.1 in
      let e = >>=-BothReturn (get sender "burst_sizes" (array one_item)) _ d.1 in
      let f =
        guard-ok (is_text "steady" b.value && not (is_only_one conversions e.value)) _ _ e.second in
      let g = >>=-BothReturn (get sender "send_batch_max" (int (pos 1))) _ f.1 in
      let i = >>=-BothReturn (get sender "batch_window_us" (int (pos 10))) _ g.second in
      let j = guard_not-ok (is_int_in (pos 1) (pos 1024) g.value) _ _ i.second in
      let k = guard_not-ok (is_int_in (pos 1) (pos 1_000_000) i.value) _ _ j.1 in
      let l = then-ok (check_threads conversions name sender b.value) _ k.1 in
      let (rates, payload, offered, positive, sized, fits) = check_load-facts name sender d.0 in
      let (threads, counted, few, single) = check_threads-facts name sender b.value l.0 in
      record {
        mode = b.value;
        chosen = b.first;
        known = check_mode-known name sender b.value c.0;
        rates = rates;
        offered = offered;
        positive = positive;
        payload = payload;
        sized = sized;
        fits = fits;
        bursts = e.value;
        shaped = e.first;
        steady = implied _ _ f.0;
        threads = threads;
        counted = counted;
        few = few;
        single = single;
      }
