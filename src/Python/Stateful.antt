-- ===== src/Python/Stateful.antt =====
-- Code that reads and changes a state, and may raise: what it did before an exception stays done.
pub mod Keeps
pub mod Triple
use net_latency_lab.Base.{◌≡◌, refl}
use net_latency_lab.Python.Error.{Error, Result, ok, err}

abbrev pub Stateful : Type 0 → Type 0 → Type 0
Stateful S A = S → Result A × S

module _ {S A : Type 0} where
  -- A computation that leaves the state alone.
  unfoldable pub lift : Result A → Stateful S A
  lift result s = (result, s)

  unfoldable pub give : A → Stateful S A
  give value s = (ok value, s)

-- An assignment.
unfoldable pub modify : {S : Type 0} → (S → S) → Stateful S (Unit {0})
modify change s = (ok tt, change s)

module _ {S A B : Type 0} where
  abbrev pub proceed : (A → Stateful S B) → Result A × S → Result B × S
  proceed rest (ok value, s) = rest value s
  proceed rest (err exc, s) = (err exc, s)

  infixl 5 ◌>>=◌ ◌>>◌
  unfoldable pub ◌>>=◌ : Stateful S A → (A → Stateful S B) → Stateful S B
  ◌>>=◌ first rest s = proceed rest (first s)

  abbrev pub ◌>>◌ : Stateful S A → Stateful S B → Stateful S B
  first >> rest = first >>= λ _. rest

module _ {S A : Type 0} where
  -- `try: … except Exception: pass`
  unfoldable pub swallow : Stateful S A → Stateful S (Unit {0})
  swallow code s = (ok tt, (code s).1)

  -- An exception in the `finally` clause takes the place of what the body came to.
  abbrev pub ended : Result A → Result (Unit {0}) × S → Result A × S
  ended outcome (ok _, s) = (outcome, s)
  ended outcome (err exc, s) = (err exc, s)

  unfoldable pub try_finally : Stateful S A → Stateful S (Unit {0}) → Stateful S A
  try_finally body clause s = let (outcome, s') = body s in ended outcome (clause s')

  pub ended-state : (outcome : Result A) (o : Result (Unit {0}) × S) → (ended outcome o).1 ≡ o.1
  ended-state outcome (ok _, s) = refl
  ended-state outcome (err exc, s) = refl
