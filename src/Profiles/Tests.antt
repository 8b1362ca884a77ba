-- ===== src/Profiles/Tests.antt =====
-- A profile session of twelve runs that `validate_profile_session` (analysis/profile_tools.py) accepts.
use net_latency_lab.Base.{
  ℕ, String, true, none, some, List, [], ◌∷◌, ◌≡◌, refl, map, any, if◌then◌else◌,
}
use net_latency_lab.Base.Int.{pos}
use net_latency_lab.Python.Error.{ok, err}
use net_latency_lab.Python.Show.{concat}
use net_latency_lab.Python.Paths.{PurePath, child, parent, str_path, last_or_blank}
use net_latency_lab.Config.Value.{
  Value, boolean, int, str, array, object, Items, nil, cons, Entries, end, entry, find,
}
use net_latency_lab.Profiles.Fields.{without_suffix, failure}
use net_latency_lab.Profiles.Session.{Files, Loaded, json, Seen, validate_profile_session}
use net_latency_lab.Profiles.Session.Complete.{IsComplete, validate_profile_session-IsComplete}
use text.Mathlib.Text.{◌==◌ as same}

abbrev stat_ids : List String
stat_ids = "a" ∷ "b" ∷ "c" ∷ "d" ∷ "e" ∷ "f" ∷ "g" ∷ "h" ∷ "i" ∷ []

abbrev record_ids : List String
record_ids = "j" ∷ "k" ∷ "l" ∷ []

abbrev run_entry : String → Value ℕ
run_entry id = object (
    entry "run_id" (str id) (
      entry "metadata" (str (concat ("run/" ∷ id ∷ "_meta.json" ∷ [])))
        (entry "trace" (str (concat ("run/" ∷ id ∷ ".bin" ∷ []))) end)))

abbrev run_entries : List String → Items ℕ → Items ℕ
run_entries [] items = items
run_entries (id ∷ ids) items = cons (run_entry id) (run_entries ids items)

abbrev profile_of : String → Entries ℕ
profile_of id =
    if any (λ i. same i id) record_ids
    then entry "mode" (str "record")
        (entry "perf_data" (str "perf.data") (entry "report" (str "report.txt") end))
    else entry "mode" (str "stat") (entry "artifact" (str "perf.csv") end)

abbrev metadata_with : String → Value ℕ
metadata_with id = object (
    entry "run_id" (str id) (
      entry "validity" (object (entry "valid" (boolean true) end)) (
        entry "run" (object (entry "campaign" (str "profile") end)) (
          entry "processes"
            (object (
              entry "receiver_pid" (int (pos 11)) (entry "profile_wrapper_pid" (int (pos 10)) end)))
            (entry "receiver_stats" (object end) (entry "profile" (object (profile_of id)) end))))))

abbrev loaded_as : Items ℕ → String → Loaded ℕ
loaded_as runs name =
    if same name "session_manifest.json"
    then json (object (entry "runs" (array runs) end))
    else elim (without_suffix "_meta.json" name) [
      | some id ↦ json (metadata_with id)
      | none ↦ json (object end)
    ]

abbrev files_of : Items ℕ → Files ℕ
files_of runs = record {
  is_dir = λ path. true;
  is_filled = λ path. true;
  load = λ path. loaded_as runs (last_or_blank path.parts);
  repr = λ value. "";
}

abbrev session : PurePath
session = record { is_absolute = true; parts = "data" ∷ "session_1" ∷ [] }

abbrev files : Files ℕ
files = files_of (run_entries stat_ids (run_entries record_ids nil))

abbrev seen : Seen
seen = record {
  modes = "record" ∷ "record" ∷ "record" ∷ map (λ id. "stat") stat_ids;
  run_ids = "l" ∷ "k" ∷ "j" ∷ "i" ∷ "h" ∷ "g" ∷ "f" ∷ "e" ∷ "d" ∷ "c" ∷ "b" ∷ "a" ∷ [];
  metadata_paths =
      map (λ id. concat ("/data/session_1/run/" ∷ id ∷ "_meta.json" ∷ []))
        ("l" ∷ "k" ∷ "j" ∷ "i" ∷ "h" ∷ "g" ∷ "f" ∷ "e" ∷ "d" ∷ "c" ∷ "b" ∷ "a" ∷ []);
}

accepted : validate_profile_session files session ≡ ok seen
unfolding validate_profile_session child find parent str_path
accepted = refl

validate_profile_session-IsComplete_example : IsComplete files session seen
validate_profile_session-IsComplete_example =
    validate_profile_session-IsComplete files session seen accepted

-- The same run twice
repeated :
    validate_profile_session
      (files_of (run_entries stat_ids (run_entries ("j" ∷ "k" ∷ "a" ∷ []) nil)))
      session
    ≡ err (failure ("Duplicate metadata path in manifest: " ∷ "run/a_meta.json" ∷ []))
unfolding validate_profile_session child find parent str_path
repeated = refl
