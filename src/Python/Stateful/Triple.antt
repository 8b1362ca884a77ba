-- ===== src/Python/Stateful/Triple.antt =====
-- Triples on code that reads and changes a state: from where `P` holds it returns a value with `Q`,
-- or raises where `E` holds.
use net_latency_lab.Base.{◌≡◌, refl}
use net_latency_lab.Python.Error.{Result, ok, err}
use net_latency_lab.Python.Stateful.{Stateful, lift, give, proceed, ◌>>=◌}

module _ {S A : Type 0} where
  abbrev pub After : (A → S → Type 0) → (S → Type 0) → Result A × S → Type 0
  After Q E (ok value, s) = Q value s
  After Q E (err exc, s) = E s

  pub record Triple (P : S → Type 0) (code : Stateful S A) (Q : A → S → Type 0) (E : S → Type 0)
      : Type 0 where
    pub after : (s : S) → P s → After Q E (code s)

  -- What holds whether the code returned or raised.
  pub either : (P : S → Type 0) (o : Result A × S) → After (λ _. P) P o → P o.1
  either P (ok value, s) a = a
  either P (err exc, s) a = a

  After-weaken :
      (Q R : A → S → Type 0) (E : S → Type 0)
      → ((value : A) (s : S) → Q value s → R value s)
      → (o : Result A × S) → After Q E o
      → After R E o
  After-weaken Q R E weaken (ok value, s) a = weaken value s a
  After-weaken Q R E weaken (err exc, s) a = a

  -- A stronger precondition and a weaker postcondition.
  pub Triple-weaken :
      {P P' : S → Type 0} {Q R : A → S → Type 0} {E : S → Type 0} {code : Stateful S A}
      → ((s : S) → P' s → P s)
      → ((value : A) (s : S) → Q value s → R value s)
      → Triple P code Q E
      → Triple P' code R E
  Triple-weaken {Q} {R} {E} {code} strengthen weaken t = record {
    after = λ s p. After-weaken Q R E weaken (code s) (t.after s (strengthen s p));
  }

  -- Code that cannot change the state.
  lift-After :
      (P E : S → Type 0)
      → ((s : S) → P s → E s)
      → (result : Result A) (s : S) → P s
      → After (λ _. P) E (result, s)
  lift-After P E fails (ok value) s p = p
  lift-After P E fails (err exc) s p = fails s p

  pub Triple-lift :
      {P E : S → Type 0} (result : Result A)
      → ((s : S) → P s → E s)
      → Triple P (lift result) (λ _. P) E
  unfolding lift
  Triple-lift {P} {E} result fails = record { after = lift-After P E fails result }

  pub Triple-give :
      {Q : A → S → Type 0} {E : S → Type 0} (value : A) → Triple (Q value) (give value) Q E
  unfolding give
  Triple-give value = record { after = λ s q. q }

  returned-After :
      (E : S → Type 0)
      → ((s : S) → E s)
      → (result r : Result A) (s : S) → result ≡ r
      → After (λ value _. result ≡ ok value) E (r, s)
  returned-After E fails result (ok value) s e = e
  returned-After E fails result (err exc) s e = fails s

  -- What is known of the value that a computation returned.
  pub Triple-returned :
      {P E : S → Type 0} (result : Result A)
      → ((s : S) → E s)
      → Triple P (lift result) (λ value _. result ≡ ok value) E
  unfolding lift
  Triple-returned {E} result fails = record {
    after = λ s p. returned-After E fails result result s refl;
  }

module _ {S A B : Type 0} where
  proceed-After :
      (Q : A → S → Type 0) (R : B → S → Type 0) (E : S → Type 0) (rest : A → Stateful S B)
      → ((value : A) → Triple (Q value) (rest value) R E)
      → (o : Result A × S) → After Q E o
      → After R E (proceed rest o)
  proceed-After Q R E rest t (ok value, s) q = (t value).after s q
  proceed-After Q R E rest t (err exc, s) e = e

  -- One part after another.
  pub Triple->>= :
      {P : S → Type 0} {Q : A → S → Type 0} {R : B → S → Type 0} {E : S → Type 0}
      {first : Stateful S A} {rest : A → Stateful S B}
      → Triple P first Q E
      → ((value : A) → Triple (Q value) (rest value) R E)
      → Triple P (first >>= rest) R E
  unfolding ◌>>=◌
  Triple->>= {Q} {R} {E} {first} {rest} before next = record {
    after = λ s p. proceed-After Q R E rest next (first s) (before.after s p);
  }
