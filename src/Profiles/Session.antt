-- ===== src/Profiles/Session.antt =====
-- `validate_profile_session` (analysis/profile_tools.py), on what the files of a session hold. JSON values
-- are those of a configuration, of which YAML has the same.
pub mod Run
pub mod Artifacts
pub mod Complete
use Prim.Native.String.{[] as end_of_text, ◌∷◌ as char_before}
use net_latency_lab.Base.{
  ℕ, suc, String, Bool, true, false, not, ◌&&◌, ◌||◌, Option, none, some, List, [], ◌∷◌, any, ◌==◌,
  ltb, if◌then◌else◌,
}
use net_latency_lab.Base.Int.{ℤ, pos, pos_part, leb_ℤ, eqb_ℤ}
use net_latency_lab.Python.Error.{Error, Result, ok, err, raise_if, ◌>>=◌, ◌>>◌}
use net_latency_lab.Python.Show.{concat, str_nat}
use net_latency_lab.Python.Paths.{PurePath, child, parent, str_path, last_or_blank}
use net_latency_lab.Config.Value.{
  Value, null, boolean, int, str, array, object, Items, nil, cons, Entries, value_error, find,
  is_text, is_member, count, found_or,
}
use net_latency_lab.Config.Benchmark.{is_used}
use net_latency_lab.Profiles.Fields.{
  without_suffix, failure, filled_text, dict_of, equals_text, check_valid, check_campaign,
  check_pids, entries_of_list, twelve_runs, count_mode, check_counts,
}
use text.Mathlib.Text.{◌==◌ as same}

-- What `json.loads` of a file's text comes to: a value, or the text of an exception.
pub data Loaded (F : Type 0) : Type 0 where
  json : Value F → Loaded F
  malformed : String → Loaded F

pub record Files (F : Type 0) : Type 0 where
  pub is_dir : PurePath → Bool
  -- `path.is_file()`, and its size is not 0
  pub is_filled : PurePath → Bool
  pub load : PurePath → Loaded F
  -- `repr(value)`
  pub repr : Value F → String

-- The three locals of the loop, newest first.
pub record Seen : Type 0 where
  pub modes : List String
  pub run_ids : List String
  pub metadata_paths : List String

abbrev pub nothing_seen : Seen
nothing_seen = record { modes = []; run_ids = []; metadata_paths = [] }

module _ {F : Type 0} (files : Files F) where
  unfoldable pub require_nonempty : PurePath → String → Result (Unit {0})
  require_nonempty path description =
      raise_if (not (files.is_filled path))
        (failure ("Missing or empty " ∷ description ∷ ": " ∷ str_path path ∷ []))

  abbrev pub json_object : PurePath → String → Loaded F → Result (Entries F)
  json_object path description (malformed text) =
      err (failure ("Malformed " ∷ description ∷ ": " ∷ str_path path ∷ ": " ∷ text ∷ []))
  json_object path description (json (object entries)) = ok entries
  json_object path description (json other) = err (
      failure ("Malformed " ∷ description ∷ ": " ∷ str_path path ∷ ": expected a JSON object" ∷ []))

  unfoldable pub read_json_object : PurePath → String → Result (Entries F)
  unfolding require_nonempty
  read_json_object path description =
      require_nonempty path description >> json_object path description (files.load path)

  unfoldable pub read_stats : PurePath → String → Option String → Result (Entries F)
  unfolding read_json_object
  read_stats metadata_path run_id none =
      err (failure ("Unexpected metadata filename: " ∷ str_path metadata_path ∷ []))
  read_stats metadata_path run_id (some stem) =
      read_json_object (child (parent metadata_path) (concat (stem ∷ "_rx_stats.json" ∷ [])))
        (concat ("receiver stats for " ∷ run_id ∷ []))

  -- The trace and the receiver's statistics
  unfoldable pub check_files : PurePath → PurePath → String → Entries F → Result (Unit {0})
  unfolding require_nonempty read_stats without_suffix dict_of
  check_files trace_path metadata_path run_id metadata = do
    require_nonempty trace_path (concat ("trace for " ∷ run_id ∷ []))
    stats ←
        read_stats metadata_path run_id
          (without_suffix "_meta.json" (last_or_blank metadata_path.parts))
    receiver_stats ←
        dict_of (failure ("Run metadata is missing receiver stats: " ∷ run_id ∷ []))
          (find "receiver_stats" metadata)
    ok tt

  unfoldable pub check_stat : PurePath → String → Entries F → Result (Unit {0})
  unfolding require_nonempty filled_text
  check_stat metadata_path run_id profile = do
    artifact ←
        filled_text (failure ("Stat run is missing its perf artifact: " ∷ run_id ∷ []))
          (find "artifact" profile)
    require_nonempty (child (parent metadata_path) artifact)
        (concat ("perf stat artifact for " ∷ run_id ∷ []))

  unfoldable pub check_record : PurePath → String → Entries F → Result (Unit {0})
  unfolding require_nonempty filled_text
  check_record metadata_path run_id profile = do
    perf_data ←
        filled_text (failure ("Record run is missing its perf artifact: " ∷ run_id ∷ []))
          (find "perf_data" profile)
    report ←
        filled_text (failure ("Record run is missing its perf report: " ∷ run_id ∷ []))
          (find "report" profile)
    require_nonempty (child (parent metadata_path) perf_data)
        (concat ("perf record artifact for " ∷ run_id ∷ []))
    require_nonempty (child (parent metadata_path) report)
        (concat ("perf record report for " ∷ run_id ∷ []))

  -- The mode, if it is one of the two
  unfoldable pub mode_of : String → Value F → Result String
  mode_of run_id value = do
    known ← is_member value ("stat" ∷ "record" ∷ [])
    raise_if (not known)
        (failure ("Unexpected profile mode for " ∷ run_id ∷ ": " ∷ files.repr value ∷ []))
    ok (if is_text "stat" value then "stat" else "record")

  unfoldable pub check_profile : PurePath → String → Entries F → Result String
  unfolding dict_of mode_of check_stat check_record
  check_profile metadata_path run_id metadata = do
    profile ←
        dict_of (failure ("Run is missing profile metadata: " ∷ run_id ∷ []))
          (find "profile" metadata)
    mode ← mode_of run_id (found_or null (find "mode" profile))
    if same mode "stat"
        then check_stat metadata_path run_id profile
        else check_record metadata_path run_id profile
    ok mode

  -- One round of the loop
  unfoldable pub check_run : PurePath → ℕ → Value F → Seen → Result Seen
  unfolding dict_of filled_text read_json_object check_valid check_campaign check_pids check_files
      check_profile
  check_run session index value seen = do
    let no_metadata = failure ("Run " ∷ str_nat index ∷ " is missing manifest metadata" ∷ [])
    run_entry ← dict_of no_metadata (some value)
    metadata_name ← filled_text no_metadata (find "metadata" run_entry)
    trace_name ←
        filled_text (failure ("Run " ∷ str_nat index ∷ " is missing its trace path" ∷ []))
          (find "trace" run_entry)
    let metadata_path = child session metadata_name
    raise_if (is_used (str_path metadata_path) seen.metadata_paths)
        (failure ("Duplicate metadata path in manifest: " ∷ metadata_name ∷ []))
    metadata ← read_json_object metadata_path "run metadata"
    run_id ←
        filled_text (failure ("Run metadata is missing run_id: " ∷ str_path metadata_path ∷ []))
          (find "run_id" metadata)
    raise_if (is_used run_id seen.run_ids) (failure ("Duplicate run_id: " ∷ run_id ∷ []))
    raise_if (not (equals_text run_id (find "run_id" run_entry)))
        (failure ("Manifest and metadata run_id disagree for " ∷ str_path metadata_path ∷ []))
    check_valid run_id metadata
    check_campaign run_id metadata
    check_pids run_id metadata
    check_files (child session trace_name) metadata_path run_id metadata
    mode ← check_profile metadata_path run_id metadata
    ok (record {
      modes = mode ∷ seen.modes;
      run_ids = run_id ∷ seen.run_ids;
      metadata_paths = str_path metadata_path ∷ seen.metadata_paths;
    })

  unfoldable pub check_runs : PurePath → ℕ → Items F → Seen → Result Seen
  unfolding check_run
  check_runs session index nil seen = ok seen
  check_runs session index (cons value items) seen =
      check_run session index value seen >>= λ seen'. check_runs session (suc index) items seen'

  -- The resolved path that the source returns is left out.
  unfoldable pub validate_profile_session : PurePath → Result Seen
  unfolding read_json_object twelve_runs check_runs
  validate_profile_session session = do
    raise_if (not (files.is_dir session))
        (failure ("Profile session is not a directory: " ∷ str_path session ∷ []))
    manifest ← read_json_object (child session "session_manifest.json") "session manifest"
    runs ← twelve_runs (entries_of_list (find "runs" manifest))
    seen ← check_runs session 1 runs nothing_seen
    check_counts (count_mode "stat" seen.modes) (count_mode "record" seen.modes)
    ok seen
