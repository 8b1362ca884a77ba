-- ===== src/Campaign/Run/Kept.antt =====
-- What every action on the nodes keeps, all of `run_campaign` (main.py) keeps.
use net_latency_lab.Base.{inl, inr, Bool, true, false, List, [], ◌∷◌}
use net_latency_lab.Python.Error.{Result, ok, err}
use net_latency_lab.Campaign.Schedule.{RunTuple}
use net_latency_lab.Campaign.Attempts.{execute_with_progress}
use net_latency_lab.Campaign.Attempts.Kept.{Result-cases, execute_with_progress-kept}
use net_latency_lab.Campaign.Run.{
  Session, Environment, record_run, execute, after_run, run_phase, after_qualification, start,
  after_build, run_phases, run_campaign,
}

module _ {W R : Type 0} (environment : Environment W R) (P : W → Type 0) where
  pub record IsKept : Type 0 where
    pub builds : (w : W) → P w → P (environment.build w).1
    pub runs : (item : RunTuple) (w : W) → P w → P (environment.execute_run item w).1
    pub reconnects : (w : W) → P w → P (environment.reconnect_nodes w).1
    pub closes : (w : W) → P w → P (environment.close w)

  module _ (kept : IsKept) where
    execute-kept :
        (item : RunTuple) (s : Session W R) → P s.nodes → P (execute environment item s).1.nodes
    unfolding execute
    execute-kept item s p =
        let run =
          execute_with_progress environment.execute_run environment.reconnect_nodes item s.nodes in
        let after =
          execute_with_progress-kept P environment.execute_run environment.reconnect_nodes kept.runs
            kept.reconnects item s.nodes p in
        elim (Result-cases run.0) [
          | inl (r, done) ↦ rw (execute, done) after
          | inr (e, failed) ↦ rw (execute, failed) after
        ]

    after_run-kept :
        (rest : Session W R → Result (List R) × Session W R)
        → ((s : Session W R) → P s.nodes → P (rest s).1.nodes)
        → (o : Result R × Session W R) → P o.1.nodes
        → P (after_run environment rest o).1.nodes
    unfolding after_run
    after_run-kept rest keeps (ok result, s) p = keeps (record_run environment result s) p
    after_run-kept rest keeps (err exc, s) p = p

    run_phase-kept :
        (items : List RunTuple) (s : Session W R)
        → P s.nodes
        → P (run_phase environment items s).1.nodes
    unfolding run_phase
    run_phase-kept [] s p = p
    run_phase-kept (item ∷ items) s p =
        after_run-kept (run_phase environment items) (λ s' q. run_phase-kept items s' q)
          (execute environment item s) (execute-kept item s p)

    after_qualification-kept :
        (uses_qualified : RunTuple → Bool) (qualification comparative : List RunTuple)
        (o : Result (List R) × Session W R)
        → P o.1.nodes
        → P (after_qualification environment uses_qualified qualification comparative o).1.nodes
    unfolding after_qualification
    after_qualification-kept uses_qualified qualification comparative (ok results, s) p =
        run_phase-kept _ _ p
    after_qualification-kept uses_qualified qualification comparative (err exc, s) p = p

    after_build-kept :
        (uses_qualified : RunTuple → Bool) (qualification comparative : List RunTuple)
        (built : Result (Unit {0}) × W)
        → P built.1
        → P (after_build environment uses_qualified qualification comparative built).1.nodes
    unfolding after_build run_phases
    after_build-kept uses_qualified qualification comparative (ok _, nodes) p =
        after_qualification-kept uses_qualified qualification comparative _
          (run_phase-kept qualification (start environment nodes) p)
    after_build-kept uses_qualified qualification comparative (err exc, nodes) p = p

    pub run_campaign-kept :
        (skip_build : Bool) (uses_qualified : RunTuple → Bool)
        (qualification comparative : List RunTuple) (nodes : W)
        → P nodes
        → P
            (run_campaign environment skip_build uses_qualified qualification comparative
              nodes).1.nodes
    unfolding run_campaign
    run_campaign-kept true uses_qualified qualification comparative nodes p =
        kept.closes _ (after_build-kept uses_qualified qualification comparative (ok tt, nodes) p)
    run_campaign-kept false uses_qualified qualification comparative nodes p = kept.closes _ (
        after_build-kept uses_qualified qualification comparative (environment.build nodes)
          (kept.builds nodes p))
