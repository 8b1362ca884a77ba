-- ===== src/Profiles/Session/Run.antt =====
-- What one round of `validate_profile_session` (analysis/profile_tools.py) has shown of a run.
use net_latency_lab.Base.{
  String, true, false, inl, inr, Option, none, some, ◌≡◌, sym, ap, ◌∙◌, Bool-cases,
}
use net_latency_lab.Base.Int.{ℤ, pos, leb_ℤ, eqb_ℤ}
use net_latency_lab.Python.Error.{Error, ok, >>=-BothReturn}
use net_latency_lab.Config.Value.{
  Value, null, boolean, int, float, str, array, object, Entries, find,
}
use net_latency_lab.Config.Checked.{ok_inj, raise_if-ok, raise_if-not_ok}
use net_latency_lab.Profiles.Fields.{
  dict_of, pid_of, is_true_value, equals_text, check_valid, check_campaign, check_pids,
}

module _ {F : Type 0} where
  pub dict_of-ok :
      (exc : Error) (o : Option (Value F)) {entries : Entries F}
      → dict_of exc o ≡ ok entries
      → o ≡ some (object entries)
  unfolding dict_of
  dict_of-ok exc (some (object entries)) h = ap (λ e. some (object e)) (ok_inj h)
  dict_of-ok exc none h = cc
  dict_of-ok exc (some null) h = cc
  dict_of-ok exc (some (boolean b)) h = cc
  dict_of-ok exc (some (int n)) h = cc
  dict_of-ok exc (some (float f)) h = cc
  dict_of-ok exc (some (str t)) h = cc
  dict_of-ok exc (some (array items)) h = cc

  pid_of-ok :
      (exc : Error) (o : Option (Value F)) {n : ℤ}
      → pid_of exc o ≡ ok n
      → (o ≡ some (int n)) × (leb_ℤ n (pos 0) ≡ false)
  unfolding pid_of
  pid_of-ok exc (some (int n)) h = elim (Bool-cases (leb_ℤ n (pos 0))) [
    | inl bad ↦ let never = rw bad at h in cc
    | inr good ↦
        let same_pid = ok_inj (rw good at h) in
        (ap (λ m. some (int m)) same_pid, ap (λ m. leb_ℤ m (pos 0)) (sym same_pid) ∙ good)
  ]
  pid_of-ok exc none h = cc
  pid_of-ok exc (some null) h = cc
  pid_of-ok exc (some (boolean b)) h = cc
  pid_of-ok exc (some (object entries)) h = cc
  pid_of-ok exc (some (float f)) h = cc
  pid_of-ok exc (some (str t)) h = cc
  pid_of-ok exc (some (array items)) h = cc

  is_true_value-true : (o : Option (Value F)) → is_true_value o ≡ true → o ≡ some (boolean true)
  is_true_value-true (some (boolean b)) h = ap (λ c. some (boolean c)) h
  is_true_value-true none h = cc
  is_true_value-true (some null) h = cc
  is_true_value-true (some (int n)) h = cc
  is_true_value-true (some (object entries)) h = cc
  is_true_value-true (some (float f)) h = cc
  is_true_value-true (some (str t)) h = cc
  is_true_value-true (some (array items)) h = cc

  -- A dict under a key of a dict
  pub record HasDict (key : String) (outer inner : Entries F) : Type 0 where
    pub found : find key outer ≡ some (object inner)

  pub record IsPassed (metadata : Entries F) : Type 0 where
    pub validity : Entries F
    pub has_validity : HasDict "validity" metadata validity
    pub valid : find "valid" validity ≡ some (boolean true)

  pub check_valid-IsPassed :
      (run_id : String) (metadata : Entries F) {u : Unit {0}}
      → check_valid run_id metadata ≡ ok u
      → IsPassed metadata
  unfolding check_valid
  check_valid-IsPassed run_id metadata h =
      let a = >>=-BothReturn (dict_of _ (find "validity" metadata)) _ h in
      record {
        validity = a.value;
        has_validity = record { found = dict_of-ok _ (find "validity" metadata) a.first };
        valid =
            is_true_value-true (find "valid" a.value)
              (raise_if-not_ok (is_true_value (find "valid" a.value)) _ a.second);
      }

  pub record IsProfileCampaign (metadata : Entries F) : Type 0 where
    pub run : Entries F
    pub has_run : HasDict "run" metadata run
    pub campaign : equals_text "profile" (find "campaign" run) ≡ true

  pub check_campaign-IsProfileCampaign :
      (run_id : String) (metadata : Entries F) {u : Unit {0}}
      → check_campaign run_id metadata ≡ ok u
      → IsProfileCampaign metadata
  unfolding check_campaign
  check_campaign-IsProfileCampaign run_id metadata h =
      let a = >>=-BothReturn (dict_of _ (find "run" metadata)) _ h in
      record {
        run = a.value;
        has_run = record { found = dict_of-ok _ (find "run" metadata) a.first };
        campaign = raise_if-not_ok (equals_text "profile" (find "campaign" a.value)) _ a.second;
      }

  -- Two PIDs, each above 0, of different processes
  pub record HasPids (metadata : Entries F) : Type 0 where
    pub processes : Entries F
    pub has_processes : HasDict "processes" metadata processes
    pub receiver_pid : ℤ
    pub profile_wrapper : ℤ
    pub receiver : find "receiver_pid" processes ≡ some (int receiver_pid)
    pub wrapper : find "profile_wrapper_pid" processes ≡ some (int profile_wrapper)
    pub receiver_positive : leb_ℤ receiver_pid (pos 0) ≡ false
    pub wrapper_positive : leb_ℤ profile_wrapper (pos 0) ≡ false
    pub distinct : eqb_ℤ receiver_pid profile_wrapper ≡ false

  pub check_pids-HasPids :
      (run_id : String) (metadata : Entries F) {u : Unit {0}}
      → check_pids run_id metadata ≡ ok u
      → HasPids metadata
  unfolding check_pids
  check_pids-HasPids run_id metadata h =
      let a = >>=-BothReturn (dict_of _ (find "processes" metadata)) _ h in
      let b = >>=-BothReturn (pid_of _ (find "receiver_pid" a.value)) _ a.second in
      let c = >>=-BothReturn (pid_of _ (find "profile_wrapper_pid" a.value)) _ b.second in
      let (receiver, receiver_positive) = pid_of-ok _ (find "receiver_pid" a.value) b.first in
      let (wrapper, wrapper_positive) = pid_of-ok _ (find "profile_wrapper_pid" a.value) c.first in
      record {
        processes = a.value;
        has_processes = record { found = dict_of-ok _ (find "processes" metadata) a.first };
        receiver_pid = b.value;
        profile_wrapper = c.value;
        receiver = receiver;
        wrapper = wrapper;
        receiver_positive = receiver_positive;
        wrapper_positive = wrapper_positive;
        distinct = raise_if-ok (eqb_ℤ b.value c.value) _ c.second;
      }
