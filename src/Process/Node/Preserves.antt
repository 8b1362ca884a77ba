-- ===== src/Process/Node/Preserves.antt =====
-- Actions that leave an observation of the history alone, one rule for each way to build an action.
use net_latency_lab.Base.{◌≡◌, refl, ◌∙◌, Bool, true, false, ◌∷◌, if◌then◌else◌}
use net_latency_lab.Python.Error.{Error, Result, ok, err}
use net_latency_lab.Process.Node.{
  Call, History, Action, pure, raise, perform, on_timeout, continue, ◌>>=◌,
}

-- `m` changes nothing that `observe` shows, whether it returns or raises.
pub record Preserves {X A : Type 0} (observe : History → X) (m : Action A) : Type 0 where
  pub at : (h : History) → observe (m h).1 ≡ observe h

module _ {X A : Type 0} {observe : History → X} where
  pub Preserves-pure : (a : A) → Preserves observe (pure a)
  unfolding pure
  Preserves-pure a = record { at = λ h. refl }

  pub Preserves-raise : (e : Error) → Preserves observe (raise {A = A} e)
  unfolding raise
  Preserves-raise e = record { at = λ h. refl }

  pub Preserves-perform :
      (call : Call) (answer : History → Result A)
      → ((h : History) → observe (call ∷ h) ≡ observe h)
      → Preserves observe (perform call answer)
  unfolding perform
  Preserves-perform call answer silent = record { at = silent }

  pub Preserves-if :
      (b : Bool) (m n : Action A)
      → Preserves observe m
      → Preserves observe n
      → Preserves observe (if b then m else n)
  Preserves-if true m n km kn = km
  Preserves-if false m n km kn = kn

  pub Preserves-on_timeout :
      (m : Action A) (handler : Error → A)
      → Preserves observe m
      → Preserves observe (on_timeout m handler)
  unfolding on_timeout
  Preserves-on_timeout m handler km = record { at = km.at }

module _ {X A B : Type 0} {observe : History → X} where
  observe-continue :
      (r : Result A) (f : A → Action B) (h : History)
      → ((a : A) → Preserves observe (f a))
      → observe (continue r f h).1 ≡ observe h
  observe-continue (ok a) f h kf = (kf a).at h
  observe-continue (err e) f h kf = refl

  pub Preserves-bind :
      (m : Action A) (f : A → Action B)
      → Preserves observe m
      → ((a : A) → Preserves observe (f a))
      → Preserves observe (m >>= f)
  unfolding ◌>>=◌
  Preserves-bind m f km kf = record {
    at = λ h. let (r, h') = m h in observe-continue r f h' kf ∙ km.at h;
  }

pub ruleset preserves_rules = (
  Preserves-pure, Preserves-raise, Preserves-perform, Preserves-if, Preserves-on_timeout,
  Preserves-bind,
)
