-- ===== src/Campaign/Run.antt =====
-- The runs of `run_campaign` (main.py), from the build on: the qualification phase, the freeze of
-- the comparative order, the comparative phase, and the manifest that is written after each step.
pub mod Phase
pub mod Order
pub mod Kept
pub mod Machine
pub mod Refines
use net_latency_lab.Base.{
  ℕ, zero, suc, ◌+◌, Bool, true, false, Option, none, some, List, [], ◌∷◌, ◌++◌, map, length,
  if◌then◌else◌,
}
use net_latency_lab.Python.Error.{Error, Result, ok, err}
use net_latency_lab.Campaign.Schedule.{RunTuple}
use net_latency_lab.Campaign.Eligibility.{RunMetadata, qualification_rates, freeze}
use net_latency_lab.Campaign.Attempts.{execute_with_progress}

-- The fields of `session_manifest.json` that the phases fill in, with `R` the entry of a run.
pub record Manifest (R : Type 0) : Type 0 where
  pub eligible_rates_pps : Option (List ℕ)
  pub frozen_comparative_order : Option (List RunTuple)
  pub runs : List R

abbrev pub new_manifest : {R : Type 0} → Manifest R
new_manifest = record { eligible_rates_pps = none; frozen_comparative_order = none; runs = [] }

-- The nodes, the manifest as last written to its file, and the count of runs.
pub record Session (W R : Type 0) : Type 0 where
  pub nodes : W
  pub manifest : Manifest R
  pub completed_runs : ℕ

-- What the campaign calls of its environment: a build, one execution of a run, the reconnection
-- after a transport failure, and `close` on the nodes; and the metadata object of a run's result.
pub record Environment (W R : Type 0) : Type 0 where
  pub build : W → Result (Unit {0}) × W
  pub execute_run : RunTuple → W → Result R × W
  pub reconnect_nodes : W → Result (Unit {0}) × W
  pub close : W → W
  pub metadata_object : R → RunMetadata

module _ {W R : Type 0} (environment : Environment W R) where
  -- `manifest["runs"].append(result)`, and the manifest is written.
  abbrev pub record_run : R → Session W R → Session W R
  record_run result s = record s {
    manifest = record s.manifest { runs = s.manifest.runs ++ result ∷ [] };
  }

  -- `execute_with_progress` on the session: a completed run is counted.
  pub execute : RunTuple → Session W R → Result R × Session W R
  execute item s =
      let (outcome, nodes) =
        execute_with_progress environment.execute_run environment.reconnect_nodes item s.nodes in
      elim outcome [
        | ok result ↦ (ok result, record s { nodes = nodes; completed_runs = s.completed_runs + 1 })
        | err exc ↦ (err exc, record s { nodes = nodes })
      ]

  abbrev pub prepend : R → Result (List R) → Result (List R)
  prepend result (ok results) = ok (result ∷ results)
  prepend result (err exc) = err exc

  -- One round of a phase, after the item's run: `rest` is the loop over the other items.
  pub after_run :
      (Session W R → Result (List R) × Session W R)
      → Result R × Session W R
      → Result (List R) × Session W R
  after_run rest (ok result, s) =
      let (results, s') = rest (record_run result s) in (prepend result results, s')
  after_run rest (err exc, s) = (err exc, s)

  -- The loop over the items of one phase; the results are what the loop has seen.
  pub run_phase : List RunTuple → Session W R → Result (List R) × Session W R
  unfolding after_run
  run_phase [] s = (ok [], s)
  run_phase (item ∷ items) s = after_run (run_phase items) (execute item s)

  -- `qualification_rates(qualification_metadata) if qualification else None`
  abbrev pub eligible_of : List RunTuple → List R → Option (List ℕ)
  eligible_of [] results = none
  eligible_of (item ∷ items) results =
      some (qualification_rates (map environment.metadata_object results))

  -- The freeze: eligible rates and comparative order are set, and the manifest is written.
  abbrev pub freeze_order : Option (List ℕ) → List RunTuple → Session W R → Session W R
  freeze_order eligible comparative s = record s {
    manifest = record s.manifest {
      eligible_rates_pps = eligible;
      frozen_comparative_order = some comparative;
    };
  }

  -- The rest of the `try` after the qualification phase: freeze, then the comparative phase.
  pub after_qualification :
      (RunTuple → Bool)
      → List RunTuple
      → List RunTuple
      → Result (List R) × Session W R
      → Result (List R) × Session W R
  after_qualification uses_qualified qualification comparative (ok results, s) =
      let eligible = eligible_of qualification results in
      let frozen = freeze uses_qualified eligible comparative in
      run_phase frozen (freeze_order eligible frozen s)
  after_qualification uses_qualified qualification comparative (err exc, s) = (err exc, s)

  -- The body of the `try`: the two phases and the freeze between them.
  pub run_phases :
      (RunTuple → Bool)
      → List RunTuple
      → List RunTuple
      → Session W R
      → Result (List R) × Session W R
  unfolding after_qualification
  run_phases uses_qualified qualification comparative s =
      after_qualification uses_qualified qualification comparative (run_phase qualification s)

  abbrev pub start : W → Session W R
  start nodes = record { nodes = nodes; manifest = new_manifest; completed_runs = 0 }

  -- The `try` after the build: nothing is run if the build failed.
  pub after_build :
      (RunTuple → Bool)
      → List RunTuple
      → List RunTuple
      → Result (Unit {0}) × W
      → Result (List R) × Session W R
  after_build uses_qualified qualification comparative (ok _, nodes) =
      run_phases uses_qualified qualification comparative (start nodes)
  after_build uses_qualified qualification comparative (err exc, nodes) = (err exc, start nodes)

  -- `run_campaign` from the `try` on; `finally` closes the nodes on every path. The results of the
  -- comparative phase are returned where the source returns the session's directory.
  pub run_campaign :
      Bool → (RunTuple → Bool) → List RunTuple → List RunTuple → W → Result (List R) × Session W R
  run_campaign skip_build uses_qualified qualification comparative nodes =
      let built : Result (Unit {0}) × W =
        if skip_build then (ok tt, nodes) else environment.build nodes in
      let (outcome, s) = after_build uses_qualified qualification comparative built in
      (outcome, record s { nodes = environment.close s.nodes })
