-- ===== src/Profiles/Session/Artifacts.antt =====
-- What `validate_profile_session` (analysis/profile_tools.py) has shown of the files of a run.
use net_latency_lab.Base.{
  String, Bool, true, not, ◌⊎◌, inl, inr, Option, none, some, [], ◌∷◌, ◌≡◌, sym, ap, ◌∙◌,
  Bool-cases, if◌then◌else◌,
}
use net_latency_lab.Python.Error.{Error, ok, raise_if, >>=-BothReturn}
use net_latency_lab.Python.Paths.{PurePath, child, parent}
use net_latency_lab.Config.Value.{
  Value, null, boolean, int, float, str, array, object, Entries, find, is_text, is_member, found_or,
}
use net_latency_lab.Config.Checked.{ok_inj, raise_if-not_ok, then-ok}
use net_latency_lab.Profiles.Fields.{filled_text, dict_of}
use net_latency_lab.Profiles.Session.{
  Files, Loaded, json, malformed, require_nonempty, json_object, read_json_object, check_stat,
  check_record, mode_of, check_profile,
}
use net_latency_lab.Profiles.Session.Run.{HasDict, dict_of-ok}
use text.Mathlib.Text.{◌==◌ as same}

module _ {F : Type 0} where
  pub filled_text-ok :
      (exc : Error) (o : Option (Value F)) {text : String}
      → filled_text exc o ≡ ok text
      → o ≡ some (str text)
  unfolding filled_text
  filled_text-ok exc (some (str t)) h = elim (Bool-cases (same t "")) [
    | inl blank ↦ let never = rw blank at h in cc
    | inr filled ↦ ap (λ u. some (str u)) (ok_inj (rw filled at h))
  ]
  filled_text-ok exc none h = cc
  filled_text-ok exc (some null) h = cc
  filled_text-ok exc (some (boolean b)) h = cc
  filled_text-ok exc (some (int n)) h = cc
  filled_text-ok exc (some (float f)) h = cc
  filled_text-ok exc (some (object entries)) h = cc
  filled_text-ok exc (some (array items)) h = cc

  member-cases :
      (value : Value F) (known : Bool)
      → is_member value ("stat" ∷ "record" ∷ []) ≡ ok known
      → known ≡ true
      → (is_text "stat" value ≡ true) ⊎ (is_text "record" value ≡ true)
  member-cases (str t) known h k = elim (Bool-cases (same t "stat")) [
    | inl yes_stat ↦ inl yes_stat
    | inr no_stat ↦ elim (Bool-cases (same t "record")) [
      | inl yes_record ↦ inr yes_record
      | inr no_record ↦ let never = ok_inj (rw (no_stat, no_record) at h) in cc
    ]
  ]
  member-cases null known h k = cc
  member-cases (boolean b) known h k = cc
  member-cases (int n) known h k = cc
  member-cases (float f) known h k = cc
  member-cases (object entries) known h k = cc
  member-cases (array items) known h k = cc

module _ {F : Type 0} (files : Files F) where
  -- A file that is not empty and holds this JSON object
  pub record IsLoaded (path : PurePath) (entries : Entries F) : Type 0 where
    pub filled : files.is_filled path ≡ true
    pub loaded : files.load path ≡ json (object entries)

  json_object-ok :
      (path : PurePath) (description : String) (l : Loaded F) {entries : Entries F}
      → json_object files path description l ≡ ok entries
      → l ≡ json (object entries)
  json_object-ok path description (json (object entries)) h = ap (λ e. json (object e)) (ok_inj h)
  json_object-ok path description (malformed text) h = cc
  json_object-ok path description (json null) h = cc
  json_object-ok path description (json (boolean b)) h = cc
  json_object-ok path description (json (int n)) h = cc
  json_object-ok path description (json (float f)) h = cc
  json_object-ok path description (json (str t)) h = cc
  json_object-ok path description (json (array items)) h = cc

  pub require_nonempty-ok :
      (path : PurePath) (description : String) {u : Unit {0}}
      → require_nonempty files path description ≡ ok u
      → files.is_filled path ≡ true
  unfolding require_nonempty
  require_nonempty-ok path description h = raise_if-not_ok (files.is_filled path) _ h

  pub read_json_object-IsLoaded :
      (path : PurePath) (description : String) {entries : Entries F}
      → read_json_object files path description ≡ ok entries
      → IsLoaded path entries
  unfolding read_json_object
  read_json_object-IsLoaded path description h =
      let a = then-ok (require_nonempty files path description) _ h in
      record {
        filled = require_nonempty-ok path description a.0;
        loaded = json_object-ok path description (files.load path) a.1;
      }

  -- The files that a profile names in its mode
  pub data HasArtifacts (dir : PurePath) (profile : Entries F) : String → Type 0 where
    of_stat :
        (artifact : String)
        → find "artifact" profile ≡ some (str artifact)
        → files.is_filled (child dir artifact) ≡ true
        → HasArtifacts dir profile "stat"
    of_record :
        (perf_data report : String)
        → find "perf_data" profile ≡ some (str perf_data)
        → find "report" profile ≡ some (str report)
        → files.is_filled (child dir perf_data) ≡ true
        → files.is_filled (child dir report) ≡ true
        → HasArtifacts dir profile "record"

  check_stat-HasArtifacts :
      (path : PurePath) (run_id : String) (profile : Entries F) {u : Unit {0}}
      → check_stat files path run_id profile ≡ ok u
      → HasArtifacts (parent path) profile "stat"
  unfolding check_stat
  check_stat-HasArtifacts path run_id profile h =
      let a = >>=-BothReturn (filled_text _ (find "artifact" profile)) _ h in
      of_stat a.value (filled_text-ok _ (find "artifact" profile) a.first)
        (require_nonempty-ok (child (parent path) a.value) _ a.second)

  check_record-HasArtifacts :
      (path : PurePath) (run_id : String) (profile : Entries F) {u : Unit {0}}
      → check_record files path run_id profile ≡ ok u
      → HasArtifacts (parent path) profile "record"
  unfolding check_record
  check_record-HasArtifacts path run_id profile h =
      let a = >>=-BothReturn (filled_text _ (find "perf_data" profile)) _ h in
      let b = >>=-BothReturn (filled_text _ (find "report" profile)) _ a.second in
      let c = then-ok (require_nonempty files (child (parent path) a.value) _) _ b.second in
      of_record a.value b.value (filled_text-ok _ (find "perf_data" profile) a.first)
        (filled_text-ok _ (find "report" profile) b.first)
        (require_nonempty-ok (child (parent path) a.value) _ c.0)
        (require_nonempty-ok (child (parent path) b.value) _ c.1)

  pub record HasProfile (path : PurePath) (metadata : Entries F) (mode : String) : Type 0 where
    pub profile : Entries F
    pub has_profile : HasDict "profile" metadata profile
    pub is_mode : is_text mode (found_or null (find "mode" profile)) ≡ true
    pub artifacts : HasArtifacts (parent path) profile mode

  abbrev IsMode : Value F → String → Type 0
  IsMode value mode =
      ((mode ≡ "stat") × (is_text "stat" value ≡ true))
      ⊎ ((mode ≡ "record") × (is_text "record" value ≡ true))

  mode_of-IsMode :
      (run_id : String) (value : Value F) {mode : String}
      → mode_of files run_id value ≡ ok mode
      → IsMode value mode
  unfolding mode_of
  mode_of-IsMode run_id value h =
      let a = >>=-BothReturn (is_member value ("stat" ∷ "record" ∷ [])) _ h in
      let b = then-ok (raise_if (not a.value) _) _ a.second in
      let known = raise_if-not_ok a.value _ b.0 in
      elim (Bool-cases (is_text "stat" value)) [
        | inl stat ↦ inl (sym (ok_inj (rw stat at b.1)), stat)
        | inr other ↦ elim (member-cases value a.value a.first known) [
          | inl stat ↦ let never = sym other ∙ stat in cc
          | inr is_record ↦ inr (sym (ok_inj (rw other at b.1)), is_record)
        ]
      ]

  check_mode-HasProfile :
      (path : PurePath) (run_id : String) (metadata profile : Entries F) (mode : String)
      {u : Unit {0}}
      → HasDict "profile" metadata profile
      → IsMode (found_or null (find "mode" profile)) mode
      → (if same mode "stat"
          then check_stat files path run_id profile
          else check_record files path run_id profile)
        ≡ ok u
      → HasProfile path metadata mode
  check_mode-HasProfile path run_id metadata profile mode dict (inl (m, text)) h = rw m (record {
    profile = profile;
    has_profile = dict;
    is_mode = text;
    artifacts = check_stat-HasArtifacts path run_id profile (rw m at h);
  })
  check_mode-HasProfile path run_id metadata profile mode dict (inr (m, text)) h = rw m (record {
    profile = profile;
    has_profile = dict;
    is_mode = text;
    artifacts = check_record-HasArtifacts path run_id profile (rw m at h);
  })

  pub check_profile-HasProfile :
      (path : PurePath) (run_id : String) (metadata : Entries F) {mode : String}
      → check_profile files path run_id metadata ≡ ok mode
      → HasProfile path metadata mode
  unfolding check_profile
  check_profile-HasProfile path run_id metadata h =
      let a = >>=-BothReturn (dict_of _ (find "profile" metadata)) _ h in
      let b =
        >>=-BothReturn (mode_of files run_id (found_or null (find "mode" a.value))) _ a.second in
      let c =
        then-ok
          (if same b.value "stat"
            then check_stat files path run_id a.value
            else check_record files path run_id a.value)
          _ b.second in
      rw (← ok_inj c.1) (
        check_mode-HasProfile path run_id metadata a.value b.value
          (record { found = dict_of-ok _ (find "profile" metadata) a.first })
          (mode_of-IsMode run_id (found_or null (find "mode" a.value)) b.first) c.0)
