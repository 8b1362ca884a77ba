-- ===== src/Campaign/Run/Refines.antt =====
-- `run_campaign` (main.py) implements the machine of its phases.
use net_latency_lab.Base.{
  ◌≡◌, refl, sym, ap, ◌∙◌, subst, ◌⊎◌, inl, inr, Bool, true, false, List, [], ◌++◌, map,
  if◌then◌else◌, append-nil,
}
use net_latency_lab.Python.Error.{Error, Result, ok, err}
use net_latency_lab.Campaign.Schedule.{RunTuple}
use net_latency_lab.Campaign.Eligibility.{freeze}
use net_latency_lab.Campaign.Run.{
  Manifest, Session, Environment, eligible_of, freeze_order, after_qualification, start,
  after_build, run_phases, run_campaign,
}
use net_latency_lab.Campaign.Run.Order.{IsFresh}
use net_latency_lab.Campaign.Run.Phase.{Phase, complete, broken, run_phase-Phase}
use net_latency_lab.Campaign.Run.Machine.{
  View, view, freeze_now, Steps, here, step, Steps-trans, qualify-Steps, compare-Steps, is_some,
}

module _ {W R : Type 0} (environment : Environment W R) (item_of : R → RunTuple)
    (labels : (item : RunTuple) (w : W) (r : R)
      → (environment.execute_run item w).0 ≡ ok r
      → item_of r ≡ item)
    (uses_qualified : RunTuple → Bool) where
  -- The machine comes from `initial` to a view of the manifest, and to its end unless an exception is raised.
  pub record Refines (initial : View) (o : Result (List R) × Session W R) : Type 0 where
    pub final : View
    pub steps : Steps uses_qualified initial final
    pub recorded : map item_of o.1.manifest.runs ≡ final.recorded
    pub frozen : is_some o.1.manifest.frozen_comparative_order ≡ final.is_frozen
    pub ended : ((e : Error) × (o.0 ≡ err e)) ⊎ (final ≡ view [] [] final.recorded true)

  comparative-Refines :
      (frozen done : List RunTuple) (s : Session W R) {o : Result (List R) × Session W R}
      → map item_of s.manifest.runs ≡ done
      → is_some s.manifest.frozen_comparative_order ≡ true
      → Phase environment item_of labels frozen s o
      → Refines (view [] frozen done true) o
  comparative-Refines frozen done s ran froze (complete results s' a) = record {
    final = view [] [] (done ++ frozen) true;
    steps =
        subst (λ l. Steps uses_qualified (view [] l done true) (view [] [] (done ++ frozen) true))
          (append-nil frozen) (compare-Steps uses_qualified frozen [] done);
    recorded = a.recorded ∙ ap (λ (l : List RunTuple). l ++ frozen) ran;
    frozen = ap is_some a.frozen ∙ froze;
    ended = inr refl;
  }
  comparative-Refines frozen done s ran froze (broken e ones later s' a) = record {
    final = view [] later (done ++ ones) true;
    steps =
        subst (λ l. Steps uses_qualified (view [] l done true) (view [] later (done ++ ones) true))
          (sym a.split) (compare-Steps uses_qualified ones later done);
    recorded = a.recorded ∙ ap (λ (l : List RunTuple). l ++ ones) ran;
    frozen = ap is_some a.frozen ∙ froze;
    ended = inl (e, refl);
  }

  -- Steps before those of a refinement
  after-Refines :
      {u v : View} {o : Result (List R) × Session W R}
      → Steps uses_qualified u v
      → Refines v o
      → Refines u o
  after-Refines before r = record {
    final = r.final;
    steps = Steps-trans uses_qualified before r.steps;
    recorded = r.recorded;
    frozen = r.frozen;
    ended = r.ended;
  }

  phases-Refines :
      (qualification comparative : List RunTuple) (s : Session W R)
      {o : Result (List R) × Session W R}
      → IsFresh environment item_of labels s
      → Phase environment item_of labels qualification s o
      → Refines
          (view qualification comparative [] false)
          (after_qualification environment uses_qualified qualification comparative o)
  unfolding after_qualification
  phases-Refines qualification comparative s (fresh, none_yet) (complete results s' a) =
      let eligible = eligible_of environment qualification results in
      let frozen = freeze uses_qualified eligible comparative in
      let s₁ = freeze_order environment eligible frozen s' in
      let before =
        Steps-trans uses_qualified
          (subst
            (λ l.
              Steps uses_qualified (view l comparative [] false)
                (view [] comparative qualification false))
            (append-nil qualification)
            (qualify-Steps uses_qualified qualification [] comparative []))
          (step (freeze_now eligible) here) in
      after-Refines before (
        comparative-Refines frozen qualification s₁
          (a.recorded ∙ ap (λ (m : Manifest R). map item_of m.runs ++ qualification) fresh) refl
          (run_phase-Phase environment item_of labels frozen s₁))
  phases-Refines qualification comparative s (fresh, none_yet) (broken e ones later s' a) = record {
    final = view later comparative ones false;
    steps =
        subst
          (λ l.
            Steps uses_qualified (view l comparative [] false) (view later comparative ones false))
          (sym a.split) (qualify-Steps uses_qualified ones later comparative []);
    recorded = a.recorded ∙ ap (λ (m : Manifest R). map item_of m.runs ++ ones) fresh;
    frozen = ap is_some (a.frozen ∙ ap (λ (m : Manifest R). m.frozen_comparative_order) fresh);
    ended = inl (e, refl);
  }

  after_build-Refines :
      (qualification comparative : List RunTuple) (built : Result (Unit {0}) × W)
      → Refines
          (view qualification comparative [] false)
          (after_build environment uses_qualified qualification comparative built)
  unfolding after_build run_phases
  after_build-Refines qualification comparative (ok _, nodes) =
      phases-Refines qualification comparative (start environment nodes) (refl, refl)
        (run_phase-Phase environment item_of labels qualification (start environment nodes))
  after_build-Refines qualification comparative (err e, nodes) = record {
    final = view qualification comparative [] false;
    steps = here;
    recorded = refl;
    frozen = refl;
    ended = inl (e, refl);
  }

  -- `run_campaign` implements a machine of three steps: record the next qualification run; once none is left,
  -- freeze the comparative order for some eligible rates; record the next run of that order. The machine comes from
  -- the planned runs to a state with the recorded runs of the final manifest, where the order is frozen exactly if
  -- the manifest has one, and to its end unless an exception is raised. (Each result of an execution is taken to
  -- carry the item that was executed.)
  pub run_campaign-Refines :
      (skip_build : Bool) (qualification comparative : List RunTuple) (nodes : W)
      → Refines
          (view qualification comparative [] false)
          (run_campaign environment skip_build uses_qualified qualification comparative nodes)
  unfolding run_campaign
  run_campaign-Refines skip_build qualification comparative nodes =
      let r =
        after_build-Refines qualification comparative
          (if skip_build then (ok tt, nodes) else environment.build nodes) in
      record {
        final = r.final;
        steps = r.steps;
        recorded = r.recorded;
        frozen = r.frozen;
        ended = r.ended;
      }
