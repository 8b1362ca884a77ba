-- ===== src/Verdict/Notes.antt =====
-- Lists of reasons that are appended under conditions (main.py), and when such a list is empty.
use net_latency_lab.Base.{
  Bool, true, false, List, [], ◌∷◌, ◌++◌, ◌≡◌, refl, ◌↔◌, inl, inr, Bool-cases,
}

-- `if condition: reasons.append(reason)`
abbrev pub note_if {ℓ} : {A : Type ℓ} → Bool → A → List A
note_if true reason = reason ∷ []
note_if false reason = []

module _ {ℓ} {A : Type ℓ} where
  pub append-empty_iff : (xs ys : List A) → ((xs ++ ys) ≡ []) ↔ ((xs ≡ []) × (ys ≡ []))
  append-empty_iff [] ys = (λ h. (refl, h), λ h. h.1)
  append-empty_iff (x ∷ xs) ys = (λ h. cc, λ h. cc)

  pub append-both_iff {κ μ} :
      {P : Type κ} {Q : Type μ} {xs ys : List A}
      → ((xs ≡ []) ↔ P)
      → ((ys ≡ []) ↔ Q)
      → ((xs ++ ys) ≡ []) ↔ (P × Q)
  append-both_iff {xs} {ys} p q =
      let both = append-empty_iff xs ys in
      (λ h. (p.0 (both.0 h).0, q.0 (both.0 h).1), λ h. both.1 (p.1 h.0, q.1 h.1))

  -- A condition that was noted or was not.
  pub note_if_iff {κ} :
      {P : Type κ} {b : Bool} (a : A) → ((b ≡ false) ↔ P) → ((note_if b a ≡ []) ↔ P)
  note_if_iff {b} a p = elim (Bool-cases b) [
    | inl noted ↦ rw noted (λ h. cc, λ h. cc (noted, p.1 h))
    | inr spared ↦ rw spared (λ h. p.0 spared, λ h. refl)
  ]
