-- ===== src/Config/Checked.antt =====
-- What a check of `validate_config` (main.py) that returned has shown.
use net_latency_lab.Base.{Bool, true, false, not, ◌&&◌, ◌||◌, if◌then◌else◌, ◌≡◌, refl}
use net_latency_lab.Python.Error.{Error, Result, ok, err, raise_if, ◌>>◌}

pub ok_inj : {A : Type 0} {a b : A} → (Result.ok a ≡ Result.ok b) → a ≡ b
ok_inj h = cc

pub never :
    {A : Type 0} (e e' : Error) (a : A) (b : Bool)
    → ◌≡◌ {A = Result A} (if b then err e else err e') (ok a)
    → ⊥
never e e' a true h = cc
never e e' a false h = cc

-- The parts of a disjunction that is false and of a conjunction that is true.
pub or_false : (a b : Bool) → (a || b) ≡ false → (a ≡ false) × (b ≡ false)
or_false true b h = cc
or_false false b h = (refl, h)

pub and4_true :
    (a b c d : Bool) → (a && b && c && d) ≡ true → (a ≡ true) × (b ≡ true) × (c ≡ true) × (d ≡ true)
and4_true true true true true h = (refl, refl, refl, refl)
and4_true false b c d h = cc
and4_true true false c d h = cc
and4_true true true false d h = cc
and4_true true true true false h = cc

pub or4_false :
    (a b c d : Bool)
    → (a || b || c || d) ≡ false
    → (a ≡ false) × (b ≡ false) × (c ≡ false) × (d ≡ false)
or4_false false false false false h = (refl, refl, refl, refl)
or4_false true b c d h = cc
or4_false false true c d h = cc
or4_false false false true d h = cc
or4_false false false false true h = cc

pub or5_false :
    (a b c d e : Bool)
    → (a || b || c || d || e) ≡ false
    → (a ≡ false) × (b ≡ false) × (c ≡ false) × (d ≡ false) × (e ≡ false)
or5_false false false false false false h = (refl, refl, refl, refl, refl)
or5_false true b c d e h = cc
or5_false false true c d e h = cc
or5_false false false true d e h = cc
or5_false false false false true e h = cc
or5_false false false false false true h = cc

pub not-false : (a : Bool) → not a ≡ false → a ≡ true
not-false true h = refl
not-false false h = cc

pub raise_if-ok : (bad : Bool) (e : Error) {u : Unit {0}} → raise_if bad e ≡ ok u → bad ≡ false
raise_if-ok true e h = cc
raise_if-ok false e h = refl

pub raise_if-not_ok :
    (good : Bool) (e : Error) {u : Unit {0}} → raise_if (not good) e ≡ ok u → good ≡ true
raise_if-not_ok true e h = refl
raise_if-not_ok false e h = cc

module _ {A : Type 0} where
  -- A guard before the rest of a body that returned.
  pub guard-ok :
      (bad : Bool) (e : Error) (rest : Result A) {a : A}
      → (raise_if bad e >> rest) ≡ ok a
      → (bad ≡ false) × (rest ≡ ok a)
  guard-ok true e rest h = cc
  guard-ok false e rest h = (refl, h)

  pub guard_not-ok :
      (good : Bool) (e : Error) (rest : Result A) {a : A}
      → (raise_if (not good) e >> rest) ≡ ok a
      → (good ≡ true) × (rest ≡ ok a)
  guard_not-ok true e rest h = (refl, h)
  guard_not-ok false e rest h = cc

  pub then-ok :
      (check : Result (Unit {0})) (rest : Result A) {a : A}
      → (check >> rest) ≡ ok a
      → (check ≡ ok tt) × (rest ≡ ok a)
  then-ok (ok _) rest h = (refl, h)
  then-ok (err e) rest h = cc
