-- ===== src/Campaign/Run/Machine.antt =====
-- `run_campaign` (main.py) as a machine that records one planned run after another.
use net_latency_lab.Base.{
  subst, Bool, true, false, Option, none, some, ℕ, List, [], ◌∷◌, ◌++◌, append-nil, append_assoc,
}
use net_latency_lab.Campaign.Schedule.{RunTuple}
use net_latency_lab.Campaign.Eligibility.{freeze}

-- What is left of the two phases, what is recorded, and whether the comparative order is frozen
pub record View : Type 0 where
  pub qualification_left : List RunTuple
  pub comparative_left : List RunTuple
  pub recorded : List RunTuple
  pub is_frozen : Bool

abbrev pub view : List RunTuple → List RunTuple → List RunTuple → Bool → View
view qualification comparative done frozen = record {
  qualification_left = qualification;
  comparative_left = comparative;
  recorded = done;
  is_frozen = frozen;
}

-- One step: the first run of qualification is recorded; the comparative order is frozen, which needs that none of
-- qualification is left; the first run of the frozen order is recorded.
pub data Step (uses_qualified : RunTuple → Bool) : View → View → Type 0 where
  qualify :
      {item : RunTuple} {items comparative done : List RunTuple}
      → Step uses_qualified
          (view (item ∷ items) comparative done false)
          (view items comparative (done ++ item ∷ []) false)
  freeze_now :
      {comparative done : List RunTuple}
      → (eligible : Option (List ℕ))
      → Step uses_qualified
          (view [] comparative done false)
          (view [] (freeze uses_qualified eligible comparative) done true)
  compare_next :
      {item : RunTuple} {items done : List RunTuple}
      → Step uses_qualified
          (view [] (item ∷ items) done true)
          (view [] items (done ++ item ∷ []) true)

pub data Steps (uses_qualified : RunTuple → Bool) : View → View → Type 0 where
  here : {v : View} → Steps uses_qualified v v
  step :
      {u v w : View} → Step uses_qualified u v → Steps uses_qualified v w → Steps uses_qualified u w

module _ (uses_qualified : RunTuple → Bool) where
  pub Steps-trans :
      {u v w : View}
      → Steps uses_qualified u v
      → Steps uses_qualified v w
      → Steps uses_qualified u w
  Steps-trans here second = second
  Steps-trans (step s first) second = step s (Steps-trans first second)

  pub qualify-Steps :
      (items later comparative done : List RunTuple)
      → Steps uses_qualified
          (view (items ++ later) comparative done false)
          (view later comparative (done ++ items) false)
  qualify-Steps [] later comparative done = rw append-nil here
  qualify-Steps (item ∷ items) later comparative done = step qualify (
      subst
        (λ l.
          Steps uses_qualified (view (items ++ later) comparative (done ++ item ∷ []) false)
            (view later comparative l false))
        (append_assoc done (item ∷ []) items)
        (qualify-Steps items later comparative (done ++ item ∷ [])))

  pub compare-Steps :
      (items later done : List RunTuple)
      → Steps uses_qualified
          (view [] (items ++ later) done true)
          (view [] later (done ++ items) true)
  compare-Steps [] later done = rw append-nil here
  compare-Steps (item ∷ items) later done = step compare_next (
      subst
        (λ l.
          Steps uses_qualified (view [] (items ++ later) (done ++ item ∷ []) true)
            (view [] later l true))
        (append_assoc done (item ∷ []) items) (compare-Steps items later (done ++ item ∷ [])))

abbrev pub is_some {ℓ} : {A : Type ℓ} → Option A → Bool
is_some none = false
is_some (some a) = true
