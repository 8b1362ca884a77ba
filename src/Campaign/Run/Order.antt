-- ===== src/Campaign/Run/Order.antt =====
-- The order and the completeness of the runs in the manifest of `run_campaign` (main.py).
use net_latency_lab.Base.{
  suc, ◌≡◌, refl, ap, ◌∙◌, ◌⊎◌, inl, inr, Bool, Option, some, List, [], ◌∷◌, ◌++◌, map, length,
  if◌then◌else◌, append-nil, append_assoc, length-append, arith,
}
use net_latency_lab.Python.Error.{Error, Result, ok, err}
use net_latency_lab.Campaign.Schedule.{RunTuple, get_or}
use net_latency_lab.Campaign.Eligibility.{freeze}
use net_latency_lab.Campaign.Run.{
  Manifest, new_manifest, Session, Environment, eligible_of, freeze_order, after_qualification,
  start, after_build, run_phases, run_campaign,
}
use net_latency_lab.Campaign.Run.Phase.{Advances, Phase, complete, broken, run_phase-Phase}

module _ {W R : Type 0} (environment : Environment W R) (item_of : R → RunTuple)
    (labels : (item : RunTuple) (w : W) (r : R)
      → (environment.execute_run item w).0 ≡ ok r
      → item_of r ≡ item) where
  -- The planned runs in their order, those of `results` done and `later` left.
  pub record IsOrdered (planned : List RunTuple) (o : Result (List R) × Session W R) : Type 0 where
    pub later : List RunTuple
    pub in_order : planned ≡ map item_of o.1.manifest.runs ++ later
    pub counted : o.1.completed_runs ≡ length o.1.manifest.runs
    pub complete : (later ≡ []) ⊎ ((e : Error) × (o.0 ≡ err e))

  -- The comparative order that stands in the manifest, none before the freeze.
  abbrev pub frozen_of : Session W R → List RunTuple
  frozen_of s = get_or s.manifest.frozen_comparative_order []

  length_of_recorded : (runs : List R) → length (map item_of runs) ≡ length runs
  length_of_recorded [] = refl
  length_of_recorded (r ∷ runs) = ap suc (length_of_recorded runs)

  -- A session whose recorded runs are `planned`, each counted once.
  abbrev HasRun : List RunTuple → Session W R → Type 0
  HasRun planned s = (map item_of s.manifest.runs ≡ planned) × (s.completed_runs ≡ length planned)

  HasRun-after :
      (planned items done later : List RunTuple) (s s' : Session W R)
      → HasRun planned s
      → Advances environment item_of labels items done later s s'
      → HasRun (planned ++ done) s'
  HasRun-after planned items done later s s' (ran, counted) a = (
    a.recorded ∙ ap (λ (l : List RunTuple). l ++ done) ran,
    omega (arith, a.counted, length-append planned done),
  )

  counted_of :
      (planned : List RunTuple) (s : Session W R)
      → HasRun planned s
      → s.completed_runs ≡ length s.manifest.runs
  counted_of planned s (ran, counted) =
      omega (arith, length_of_recorded s.manifest.runs, ap length ran)

  -- The comparative phase, from a session in which all of qualification is done.
  comparative-IsOrdered :
      (qualification frozen : List RunTuple) (s : Session W R) {o : Result (List R) × Session W R}
      → HasRun qualification s
      → s.manifest.frozen_comparative_order ≡ some frozen
      → Phase environment item_of labels frozen s o
      → IsOrdered (qualification ++ frozen_of o.1) o
  comparative-IsOrdered qualification frozen s ran froze (complete results s' a) =
      let ran' = HasRun-after qualification frozen frozen [] s s' ran a in
      let same = ap (λ (o : Option (List RunTuple)). get_or o []) (a.frozen ∙ froze) in
      record {
        later = [];
        in_order = rw (same, ran'.0, append-nil) refl;
        counted = counted_of (qualification ++ frozen) s' ran';
        complete = inl refl;
      }
  comparative-IsOrdered qualification frozen s ran froze (broken e done later s' a) =
      let ran' = HasRun-after qualification frozen done later s s' ran a in
      let same = ap (λ (o : Option (List RunTuple)). get_or o []) (a.frozen ∙ froze) in
      record {
        later = later;
        in_order = rw (same, ran'.0, a.split, append_assoc) refl;
        counted = counted_of (qualification ++ done) s' ran';
        complete = inr (e, refl);
      }

  -- A session at the start of the `try`: nothing is recorded, counted or frozen.
  abbrev pub IsFresh : Session W R → Type 0
  IsFresh s = (s.manifest ≡ new_manifest) × (s.completed_runs ≡ 0)

  phases-IsOrdered :
      (uses_qualified : RunTuple → Bool) (qualification comparative : List RunTuple)
      (s : Session W R) {o : Result (List R) × Session W R}
      → IsFresh s
      → Phase environment item_of labels qualification s o
      → let end = after_qualification environment uses_qualified qualification comparative o in
        IsOrdered (qualification ++ frozen_of end.1) end
  unfolding after_qualification
  phases-IsOrdered uses_qualified qualification comparative s (fresh, none_yet)
        (complete results s' a) =
      let ran : HasRun [] s = (ap (λ (m : Manifest R). map item_of m.runs) fresh, none_yet) in
      let eligible = eligible_of environment qualification results in
      let frozen = freeze uses_qualified eligible comparative in
      let s₁ = freeze_order environment eligible frozen s' in
      comparative-IsOrdered qualification frozen s₁
        (HasRun-after [] qualification qualification [] s s' ran a) refl
        (run_phase-Phase environment item_of labels frozen s₁)
  phases-IsOrdered uses_qualified qualification comparative s (fresh, none_yet)
        (broken e done later s' a) =
      let ran : HasRun [] s = (ap (λ (m : Manifest R). map item_of m.runs) fresh, none_yet) in
      let ran' = HasRun-after [] qualification done later s s' ran a in
      let same =
        ap (λ (o : Option (List RunTuple)). get_or o [])
          (a.frozen ∙ ap (λ (m : Manifest R). m.frozen_comparative_order) fresh) in
      record {
        later = later;
        in_order = rw (same, ran'.0, append-nil) a.split;
        counted = counted_of done s' ran';
        complete = inr (e, refl);
      }

  after_build-IsOrdered :
      (uses_qualified : RunTuple → Bool) (qualification comparative : List RunTuple)
      (built : Result (Unit {0}) × W)
      → let end = after_build environment uses_qualified qualification comparative built in
        IsOrdered (qualification ++ frozen_of end.1) end
  unfolding after_build run_phases
  after_build-IsOrdered uses_qualified qualification comparative (ok _, nodes) =
      phases-IsOrdered uses_qualified qualification comparative (start environment nodes)
        (refl, refl)
        (run_phase-Phase environment item_of labels qualification (start environment nodes))
  after_build-IsOrdered uses_qualified qualification comparative (err e, nodes) = record {
    later = qualification;
    in_order = append-nil qualification;
    counted = refl;
    complete = inr (e, refl);
  }

  -- However a campaign ends, its manifest holds results of the planned runs in their order, the
  -- qualification runs first and then the comparative runs as frozen; each completed run is counted
  -- once, and no run is left over unless an exception is raised. (Each result of an execution is
  -- taken to carry the item that was executed.)
  pub run_campaign-IsOrdered :
      (skip_build : Bool) (uses_qualified : RunTuple → Bool)
      (qualification comparative : List RunTuple) (nodes : W)
      → let end =
          run_campaign environment skip_build uses_qualified qualification comparative nodes in
        IsOrdered (qualification ++ frozen_of end.1) end
  unfolding run_campaign
  run_campaign-IsOrdered skip_build uses_qualified qualification comparative nodes =
      let ordered =
        after_build-IsOrdered uses_qualified qualification comparative
          (if skip_build then (ok tt, nodes) else environment.build nodes) in
      record {
        later = ordered.later;
        in_order = ordered.in_order;
        counted = ordered.counted;
        complete = ordered.complete;
      }
