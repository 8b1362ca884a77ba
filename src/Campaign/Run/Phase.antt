-- ===== src/Campaign/Run/Phase.antt =====
-- What one phase of `run_campaign` (main.py) has run and recorded, whether it returns or raises.
use net_latency_lab.Base.{
  ◌+◌, ◌≡◌, refl, sym, ap, ◌∙◌, subst, ◌⊎◌, inl, inr, List, [], ◌∷◌, ◌++◌, map, length, append-nil,
  append_assoc, arith,
}
use mathlib.Core.List.{map-append}
use net_latency_lab.Python.Error.{Error, Result, ok, err}
use net_latency_lab.Campaign.Schedule.{RunTuple}
use net_latency_lab.Campaign.Attempts.{
  execute_with_progress, execute_with_progress_label, outcome-cases,
}
use net_latency_lab.Campaign.Run.{
  Manifest, Session, Environment, record_run, execute, after_run, run_phase, prepend,
}

module _ {W R : Type 0} (environment : Environment W R) (item_of : R → RunTuple)
    (labels : (item : RunTuple) (w : W) (r : R)
      → (environment.execute_run item w).0 ≡ ok r
      → item_of r ≡ item) where
  -- What a phase over `items` has done between two sessions: `done` is run and recorded.
  pub record Advances (items done later : List RunTuple) (s s' : Session W R) : Type 0 where
    pub split : items ≡ done ++ later
    pub recorded : map item_of s'.manifest.runs ≡ map item_of s.manifest.runs ++ done
    pub counted : s'.completed_runs ≡ s.completed_runs + length done
    pub eligible : s'.manifest.eligible_rates_pps ≡ s.manifest.eligible_rates_pps
    pub frozen : s'.manifest.frozen_comparative_order ≡ s.manifest.frozen_comparative_order

  -- A phase returns, and has run all its items, or raises.
  pub data Phase (items : List RunTuple) (s : Session W R)
      : Result (List R) × Session W R → Type 0 where
    complete :
        (results : List R) (s' : Session W R)
        → Advances items items [] s s'
        → Phase items s (ok results, s')
    broken :
        (e : Error) (done later : List RunTuple) (s' : Session W R)
        → Advances items done later s s'
        → Phase items s (err e, s')

  Advances-cons :
      (item : RunTuple) (items done later : List RunTuple) (s s₁ s₂ : Session W R) (r : R)
      → item_of r ≡ item
      → s₁.manifest ≡ s.manifest
      → s₁.completed_runs ≡ s.completed_runs + 1
      → Advances items done later (record_run environment r s₁) s₂
      → Advances (item ∷ items) (item ∷ done) later s s₂
  Advances-cons item items done later s s₁ s₂ r labelled same counted a = record {
    split = ap (λ (l : List RunTuple). item ∷ l) a.split;
    recorded =
        a.recorded
        ∙ simp (map-append, append_assoc, labelled, ap (λ (m : Manifest R). m.runs) same);
    counted = omega (arith, a.counted);
    eligible = a.eligible ∙ ap (λ (m : Manifest R). m.eligible_rates_pps) same;
    frozen = a.frozen ∙ ap (λ (m : Manifest R). m.frozen_comparative_order) same;
  }

  Advances-none :
      (items : List RunTuple) (s s' : Session W R)
      → s'.manifest ≡ s.manifest
      → s'.completed_runs ≡ s.completed_runs
      → Advances items [] items s s'
  Advances-none items s s' same counted = record {
    split = refl;
    recorded = rw append-nil (ap (λ (m : Manifest R). map item_of m.runs) same);
    counted = omega arith;
    eligible = ap (λ (m : Manifest R). m.eligible_rates_pps) same;
    frozen = ap (λ (m : Manifest R). m.frozen_comparative_order) same;
  }

  -- One run: its result is for the item, or the manifest and the count are as they were.
  execute-cases :
      (item : RunTuple) (s : Session W R)
      → ((r : R) × (s' : Session W R) × (execute environment item s ≡ (ok r, s'))
          × (item_of r ≡ item)
          × (s'.manifest ≡ s.manifest)
          × (s'.completed_runs ≡ s.completed_runs + 1))
        ⊎ ((e : Error) × (s' : Session W R) × (execute environment item s ≡ (err e, s'))
            × (s'.manifest ≡ s.manifest)
            × (s'.completed_runs ≡ s.completed_runs))
  unfolding execute
  execute-cases item s =
      let run =
        execute_with_progress environment.execute_run environment.reconnect_nodes item s.nodes in
      elim (outcome-cases run) [
        | inl (r, w, done) ↦ inl (
          r,
          record s { nodes = w; completed_runs = s.completed_runs + 1 },
          ground (arith, done),
          execute_with_progress_label environment.execute_run environment.reconnect_nodes item_of
              item item (labels item) s.nodes r (ap (λ (o : Result R × W). o.0) done),
          refl,
          refl,
        )
        | inr (e, w, failed) ↦ inr (e, record s { nodes = w }, ground (arith, failed), refl, refl)
      ]

  Phase-cons :
      (item : RunTuple) (items : List RunTuple) (s s₁ : Session W R) (r : R)
      → item_of r ≡ item
      → s₁.manifest ≡ s.manifest
      → s₁.completed_runs ≡ s.completed_runs + 1
      → {o : Result (List R) × Session W R} → Phase items (record_run environment r s₁) o
      → Phase (item ∷ items) s (prepend environment r o.0, o.1)
  Phase-cons item items s s₁ r labelled same counted (complete results s' a) =
      complete (r ∷ results) s'
        (Advances-cons item items items [] s s₁ s' r labelled same counted a)
  Phase-cons item items s s₁ r labelled same counted (broken e done later s' a) =
      broken e (item ∷ done) later s'
        (Advances-cons item items done later s s₁ s' r labelled same counted a)

  pub run_phase-Phase :
      (items : List RunTuple) (s : Session W R) → Phase items s (run_phase environment items s)
  unfolding run_phase
  run_phase-Phase [] s = complete [] s (Advances-none [] s s refl refl)
  run_phase-Phase (item ∷ items) s =
      let after = after_run environment (run_phase environment items) in
      elim (execute-cases item s) [
        | inl (r, s₁, done, labelled, same, counted) ↦
            subst (λ o. Phase (item ∷ items) s (after o)) (sym done)
              (Phase-cons item items s s₁ r labelled same counted
                (run_phase-Phase items (record_run environment r s₁)))
        | inr (e, s₁, failed, same, counted) ↦
            subst (λ o. Phase (item ∷ items) s (after o)) (sym failed)
              (broken e [] (item ∷ items) s₁ (Advances-none (item ∷ items) s s₁ same counted))
      ]
