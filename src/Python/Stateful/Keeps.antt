-- ===== src/Python/Stateful/Keeps.antt =====
-- Predicates on the state that code keeps, whether it returns or raises.
use net_latency_lab.Base.{Bool, true, false, if◌then◌else◌, refl, sym, subst}
use net_latency_lab.Python.Error.{Result, ok, err}
use net_latency_lab.Python.Stateful.{
  Stateful, lift, give, proceed, ◌>>=◌, swallow, ended-state, try_finally,
}
use net_latency_lab.Python.Stateful.Triple.{After, Triple}

module _ {S A : Type 0} where
  pub record Keeps (P : S → Type 0) (code : Stateful S A) : Type 0 where
    pub at : (s : S) → P s → P (code s).1

  pub Keeps-lift : (P : S → Type 0) (result : Result A) → Keeps P (lift result)
  unfolding lift
  Keeps-lift P result = record { at = λ s p. p }

  pub Keeps-give : (P : S → Type 0) (value : A) → Keeps P (give value)
  unfolding give
  Keeps-give P value = record { at = λ s p. p }

  pub Keeps-if :
      (P : S → Type 0) (b : Bool) (first second : Stateful S A)
      → Keeps P first
      → Keeps P second
      → Keeps P (if b then first else second)
  Keeps-if P true first second one other = one
  Keeps-if P false first second one other = other

  After-kept :
      (P E : S → Type 0) → ((s : S) → P s → E s) → (o : Result A × S) → P o.1 → After (λ _. P) E o
  After-kept P E fails (ok value, s) p = p
  After-kept P E fails (err exc, s) p = fails s p

  -- What code keeps, as a triple.
  pub Triple-Keeps :
      {P E : S → Type 0} {code : Stateful S A}
      → ((s : S) → P s → E s)
      → Keeps P code
      → Triple P code (λ _. P) E
  Triple-Keeps {P} {E} {code} fails keeps = record {
    after = λ s p. After-kept P E fails (code s) (keeps.at s p);
  }

module _ {S A B : Type 0} where
  proceed-Keeps :
      (P : S → Type 0) (rest : A → Stateful S B)
      → ((value : A) → Keeps P (rest value))
      → (o : Result A × S) → P o.1
      → P (proceed rest o).1
  proceed-Keeps P rest keeps (ok value, s) p = (keeps value).at s p
  proceed-Keeps P rest keeps (err exc, s) p = p

  -- What both parts keep the sequence keeps.
  pub Keeps->>= :
      (P : S → Type 0) (first : Stateful S A) (rest : A → Stateful S B)
      → Keeps P first
      → ((value : A) → Keeps P (rest value))
      → Keeps P (first >>= rest)
  unfolding ◌>>=◌
  Keeps->>= P first rest keeps_first keeps_rest = record {
    at = λ s p. proceed-Keeps P rest keeps_rest (first s) (keeps_first.at s p);
  }

module _ {S A : Type 0} where
  pub Keeps-swallow : (P : S → Type 0) (code : Stateful S A) → Keeps P code → Keeps P (swallow code)
  unfolding swallow
  Keeps-swallow P code keeps = record { at = keeps.at }

  pub Keeps-try_finally :
      (P : S → Type 0) (body : Stateful S A) (clause : Stateful S (Unit {0}))
      → Keeps P body
      → Keeps P clause
      → Keeps P (try_finally body clause)
  unfolding try_finally
  Keeps-try_finally P body clause keeps_body keeps_clause = record {
    at = λ s p.
        let after = body s in
        subst P (sym (ended-state after.0 (clause after.1)))
          (keeps_clause.at after.1 (keeps_body.at s p));
  }

pub ruleset keeps_rules = (Keeps-lift, Keeps-give, Keeps-if, Keeps->>=, refl)
