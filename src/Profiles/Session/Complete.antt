-- ===== src/Profiles/Session/Complete.antt =====
-- What `validate_profile_session` (analysis/profile_tools.py) has shown of a session that it accepts.
use net_latency_lab.Base.{
  ℕ, suc, String, true, false, not, ◌||◌, Option, none, some, ◌∷◌, ◌≡◌, sym, ap, ◌∙◌, ◌==◌, ==_iff,
  Bool-cases, inl, inr,
}
use net_latency_lab.Python.Error.{ok, raise_if, >>=-BothReturn}
use net_latency_lab.Python.Paths.{PurePath, child, str_path}
use net_latency_lab.Config.Value.{
  Value, null, boolean, int, float, str, array, object, Items, nil, cons, Entries, find, found_or,
  count,
}
use net_latency_lab.Config.Checked.{
  ok_inj, raise_if-ok, raise_if-not_ok, then-ok, or_false, not-false,
}
use net_latency_lab.Config.Benchmark.{is_used}
use net_latency_lab.Config.Validate.Accepted.{AreDistinct}
use net_latency_lab.Profiles.Fields.{
  filled_text, dict_of, equals_text, check_valid, check_campaign, check_pids, count_mode,
  check_counts, entries_of_list, twelve_runs,
}
use net_latency_lab.Profiles.Session.{
  Files, Seen, read_json_object, require_nonempty, check_files, check_profile, check_run,
  check_runs, nothing_seen, validate_profile_session,
}
use net_latency_lab.Profiles.Session.Run.{
  dict_of-ok, IsPassed, check_valid-IsPassed, IsProfileCampaign, check_campaign-IsProfileCampaign,
  HasPids, check_pids-HasPids,
}
use net_latency_lab.Profiles.Session.Artifacts.{
  filled_text-ok, IsLoaded, require_nonempty-ok, read_json_object-IsLoaded, HasProfile,
  check_profile-HasProfile,
}

module _ {F : Type 0} (files : Files F) (session : PurePath) where
  -- A run of the manifest, given what was seen before it and what is seen after it
  pub record IsProfileRun (value : Value F) (seen seen' : Seen) : Type 0 where
    pub run_entry : Entries F
    pub is_entry : value ≡ object run_entry
    pub metadata_name : String
    pub has_metadata : find "metadata" run_entry ≡ some (str metadata_name)
    pub trace_name : String
    pub has_trace : find "trace" run_entry ≡ some (str trace_name)
    pub trace_filled : files.is_filled (child session trace_name) ≡ true
    pub metadata : Entries F
    pub loaded : IsLoaded files (child session metadata_name) metadata
    pub run_id : String
    pub has_id : find "run_id" metadata ≡ some (str run_id)
    pub agrees : equals_text run_id (find "run_id" run_entry) ≡ true
    pub new_path : is_used (str_path (child session metadata_name)) seen.metadata_paths ≡ false
    pub new_id : is_used run_id seen.run_ids ≡ false
    pub passed : IsPassed metadata
    pub campaign : IsProfileCampaign metadata
    pub pids : HasPids metadata
    pub mode : String
    pub profile : HasProfile files (child session metadata_name) metadata mode
    pub added : seen' ≡ record {
      modes = mode ∷ seen.modes;
      run_ids = run_id ∷ seen.run_ids;
      metadata_paths = str_path (child session metadata_name) ∷ seen.metadata_paths;
    }

  trace-filled :
      (trace path : PurePath) (run_id : String) (metadata : Entries F) {u : Unit {0}}
      → check_files files trace path run_id metadata ≡ ok u
      → files.is_filled trace ≡ true
  unfolding check_files
  trace-filled trace path run_id metadata h =
      require_nonempty-ok files trace _ (then-ok (require_nonempty files trace _) _ h).0

  check_run-IsProfileRun :
      (index : ℕ) (value : Value F) (seen : Seen) {seen' : Seen}
      → check_run files session index value seen ≡ ok seen'
      → IsProfileRun value seen seen'
  unfolding check_run
  check_run-IsProfileRun index value seen h =
      let a = >>=-BothReturn (dict_of _ (some value)) _ h in
      let b = >>=-BothReturn (filled_text _ (find "metadata" a.value)) _ a.second in
      let c = >>=-BothReturn (filled_text _ (find "trace" a.value)) _ b.second in
      let path = child session b.value in
      let d = then-ok (raise_if (is_used (str_path path) seen.metadata_paths) _) _ c.second in
      let e = >>=-BothReturn (read_json_object files path "run metadata") _ d.1 in
      let f = >>=-BothReturn (filled_text _ (find "run_id" e.value)) _ e.second in
      let g = then-ok (raise_if (is_used f.value seen.run_ids) _) _ f.second in
      let i = then-ok (raise_if (not (equals_text f.value (find "run_id" a.value))) _) _ g.1 in
      let j = then-ok (check_valid f.value e.value) _ i.1 in
      let k = then-ok (check_campaign f.value e.value) _ j.1 in
      let l = then-ok (check_pids f.value e.value) _ k.1 in
      let m = then-ok (check_files files (child session c.value) path f.value e.value) _ l.1 in
      let n = >>=-BothReturn (check_profile files path f.value e.value) _ m.1 in
      record {
        run_entry = a.value;
        is_entry = ap (found_or null) (dict_of-ok _ (some value) a.first);
        metadata_name = b.value;
        has_metadata = filled_text-ok _ (find "metadata" a.value) b.first;
        trace_name = c.value;
        has_trace = filled_text-ok _ (find "trace" a.value) c.first;
        trace_filled = trace-filled (child session c.value) path f.value e.value m.0;
        metadata = e.value;
        loaded = read_json_object-IsLoaded files path _ e.first;
        run_id = f.value;
        has_id = filled_text-ok _ (find "run_id" e.value) f.first;
        agrees = raise_if-not_ok (equals_text f.value (find "run_id" a.value)) _ i.0;
        new_path = raise_if-ok (is_used (str_path path) seen.metadata_paths) _ d.0;
        new_id = raise_if-ok (is_used f.value seen.run_ids) _ g.0;
        passed = check_valid-IsPassed f.value e.value j.0;
        campaign = check_campaign-IsProfileCampaign f.value e.value k.0;
        pids = check_pids-HasPids f.value e.value l.0;
        mode = n.value;
        profile = check_profile-HasProfile files path f.value e.value n.first;
        added = sym (ok_inj n.second);
      }

  -- The runs of a list in turn
  pub AreProfileRuns : Items F → Seen → Seen → Type 0
  AreProfileRuns nil seen seen' = seen' ≡ seen
  AreProfileRuns (cons value items) seen seen' =
      (next : Seen) × IsProfileRun value seen next × AreProfileRuns items next seen'

  check_runs-AreProfileRuns :
      (index : ℕ) (items : Items F) (seen : Seen) {seen' : Seen}
      → check_runs files session index items seen ≡ ok seen'
      → AreProfileRuns items seen seen'
  unfolding check_runs AreProfileRuns
  check_runs-AreProfileRuns index nil seen h = sym (ok_inj h)
  check_runs-AreProfileRuns index (cons value items) seen h =
      let a = >>=-BothReturn (check_run files session index value seen) _ h in
      (
        a.value,
        check_run-IsProfileRun index value seen a.first,
        check_runs-AreProfileRuns (suc index) items a.value a.second,
      )

  -- No run ID and no metadata path twice
  pub record IsDistinct (seen : Seen) : Type 0 where
    pub ids : AreDistinct seen.run_ids
    pub paths : AreDistinct seen.metadata_paths

  runs-IsDistinct :
      (items : Items F) (seen seen' : Seen)
      → IsDistinct seen
      → AreProfileRuns items seen seen'
      → IsDistinct seen'
  unfolding AreProfileRuns
  runs-IsDistinct nil seen seen' distinct same_seen = rw same_seen distinct
  runs-IsDistinct (cons value items) seen seen' distinct (next, run, runs) =
      runs-IsDistinct items next seen'
        (rw run.added
          (record { ids = (run.new_id, distinct.ids); paths = (run.new_path, distinct.paths) }))
        runs

  pub record IsComplete (seen : Seen) : Type 0 where
    pub is_dir : files.is_dir session ≡ true
    pub manifest : Entries F
    pub loaded : IsLoaded files (child session "session_manifest.json") manifest
    pub runs : Items F
    pub has_runs : find "runs" manifest ≡ some (array runs)
    pub twelve : count runs ≡ 12
    pub are_runs : AreProfileRuns runs nothing_seen seen
    pub distinct : IsDistinct seen
    pub nine_stat : count_mode "stat" seen.modes ≡ 9
    pub three_record : count_mode "record" seen.modes ≡ 3

  list-ok :
      (o : Option (Value F)) {items : Items F}
      → twelve_runs (entries_of_list o) ≡ ok items
      → (o ≡ some (array items)) × (count items ≡ 12)
  unfolding twelve_runs
  list-ok (some (array items)) h = elim (Bool-cases (count items == 12)) [
    | inl twelve ↦
        let same_items = ok_inj (rw twelve at h) in
        (
          ap (λ i. some (array i)) same_items,
          ap count (sym same_items) ∙ (==_iff (count items) 12).0 twelve,
        )
    | inr other ↦ let never = rw other at h in cc
  ]
  list-ok none h = cc
  list-ok (some null) h = cc
  list-ok (some (boolean b)) h = cc
  list-ok (some (int n)) h = cc
  list-ok (some (float f)) h = cc
  list-ok (some (str t)) h = cc
  list-ok (some (object entries)) h = cc

  check_counts-ok :
      (stat record_runs : ℕ) {u : Unit {0}}
      → check_counts stat record_runs ≡ ok u
      → (stat ≡ 9) × (record_runs ≡ 3)
  check_counts-ok stat record_runs h =
      let (nine, three) =
        or_false (not (stat == 9)) (not (record_runs == 3))
          (raise_if-ok (not (stat == 9) || not (record_runs == 3)) _ h) in
      (
        (==_iff stat 9).0 (not-false (stat == 9) nine),
        (==_iff record_runs 3).0 (not-false (record_runs == 3) three),
      )

  -- A session that `validate_profile_session` accepts is a directory whose manifest has exactly twelve runs;
  -- each names its metadata and a trace that is not empty, agrees with its metadata on the run's ID, is valid and of the
  -- profile campaign, has two positive PIDs that differ, and has the perf artifacts of its mode, none
  -- empty. No run ID and no metadata path comes twice, and nine runs are in the mode `stat` and three in the
  -- mode `record`.
  pub validate_profile_session-IsComplete :
      (seen : Seen) → validate_profile_session files session ≡ ok seen → IsComplete seen
  unfolding validate_profile_session
  validate_profile_session-IsComplete seen h =
      let a = then-ok (raise_if (not (files.is_dir session)) _) _ h in
      let path = child session "session_manifest.json" in
      let b = >>=-BothReturn (read_json_object files path "session manifest") _ a.1 in
      let c = >>=-BothReturn (twelve_runs (entries_of_list (find "runs" b.value))) _ b.second in
      let d = >>=-BothReturn (check_runs files session 1 c.value nothing_seen) _ c.second in
      let e =
        then-ok (check_counts (count_mode "stat" d.value.modes) (count_mode "record" d.value.modes))
          _ d.second in
      let (has_runs, twelve) = list-ok (find "runs" b.value) c.first in
      let are_runs = check_runs-AreProfileRuns 1 c.value nothing_seen d.first in
      let (nine, three) = check_counts-ok _ _ e.0 in
      rw (← ok_inj e.1) (record {
        is_dir = raise_if-not_ok (files.is_dir session) _ a.0;
        manifest = b.value;
        loaded = read_json_object-IsLoaded files path _ b.first;
        runs = c.value;
        has_runs = has_runs;
        twelve = twelve;
        are_runs = are_runs;
        distinct =
            runs-IsDistinct c.value nothing_seen d.value (record { ids = tt; paths = tt }) are_runs;
        nine_stat = nine;
        three_record = three;
      })
