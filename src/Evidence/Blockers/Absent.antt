-- ===== src/Evidence/Blockers/Absent.antt =====
-- What `_overlap_blockers` (analysis/generate_claim_evidence.py) asks of a column whose cells may be missing.
use net_latency_lab.Base.{
  String, Bool, true, false, ◌||◌, Option, List, [], ◌∷◌, ◌≡◌, refl, sym, ap, ◌∙◌, ◌↔◌, All, any,
  arith,
}
use net_latency_lab.Base.Int.{ℤ, pos, negsuc, leb_ℤ, eqb_ℤ, differs_iff, eqb_ℤ_iff}
use net_latency_lab.Verdict.Notes.{note_if_iff}
use net_latency_lab.Evidence.Blockers.{Blocker, filled, greater, column_max, column_blockers}

-- The cell is not above zero: a missing cell counts as -1.
abbrev pub IsNotAbove : Option ℤ → Type 0
IsNotAbove cell = leb_ℤ (filled cell) (pos 0) ≡ true

-- Some cell is zero.
abbrev pub has_zero : List (Option ℤ) → Bool
has_zero cells = any (λ cell. eqb_ℤ (filled cell) (pos 0)) cells

eqb-greater :
    (a b : ℤ)
    → leb_ℤ a (pos 0) ≡ true
    → leb_ℤ b (pos 0) ≡ true
    → eqb_ℤ (greater a b) (pos 0) ≡ (eqb_ℤ a (pos 0) || eqb_ℤ b (pos 0))
eqb-greater (pos a) (pos b) p q = ground arith
eqb-greater (pos a) (negsuc b) p q = ground arith
eqb-greater (negsuc a) (pos b) p q = ground arith
eqb-greater (negsuc a) (negsuc b) p q = ground arith

leb-greater_iff :
    (a b : ℤ)
    → (leb_ℤ (greater a b) (pos 0) ≡ true) ↔ ((leb_ℤ a (pos 0) ≡ true) × (leb_ℤ b (pos 0) ≡ true))
leb-greater_iff (pos a) (pos b) = (λ h. ground arith, λ h. ground (arith, h.0, h.1))
leb-greater_iff (pos a) (negsuc b) = (λ h. ground arith, λ h. ground (arith, h.0, h.1))
leb-greater_iff (negsuc a) (pos b) = (λ h. ground arith, λ h. ground (arith, h.0, h.1))
leb-greater_iff (negsuc a) (negsuc b) = (λ h. ground arith, λ h. ground (arith, h.0, h.1))

leb-column_max_iff :
    (cell : Option ℤ) (cells : List (Option ℤ))
    → (leb_ℤ (column_max (cell ∷ cells)) (pos 0) ≡ true) ↔ All IsNotAbove (cell ∷ cells)
unfolding column_max
leb-column_max_iff cell [] = (λ h. (h, tt), λ h. h.0)
leb-column_max_iff cell (next ∷ cells) =
    let both = leb-greater_iff (filled cell) (column_max (next ∷ cells)) in
    let rest = leb-column_max_iff next cells in
    (λ h. ((both.0 h).0, rest.0 (both.0 h).1), λ h. both.1 (h.0, rest.1 h.1))

or_false_right : (b : Bool) → b ≡ (b || false)
or_false_right true = refl
or_false_right false = refl

eqb-column_max :
    (cell : Option ℤ) (cells : List (Option ℤ))
    → All IsNotAbove (cell ∷ cells)
    → eqb_ℤ (column_max (cell ∷ cells)) (pos 0) ≡ has_zero (cell ∷ cells)
unfolding column_max
eqb-column_max cell [] h = or_false_right (eqb_ℤ (filled cell) (pos 0))
eqb-column_max cell (next ∷ cells) h =
    eqb-greater (filled cell) (column_max (next ∷ cells)) h.0
      ((leb-column_max_iff next cells).1 h.1)
    ∙ ap (λ b. eqb_ℤ (filled cell) (pos 0) || b) (eqb-column_max next cells h.1)

zero-nonpositive : (n : ℤ) → n ≡ pos 0 → leb_ℤ n (pos 0) ≡ true
zero-nonpositive n h = ap (λ m. leb_ℤ m (pos 0)) h

-- A column that is there, with no cell above zero and one at zero
abbrev pub IsClear : Bool → List (Option ℤ) → Type 0
IsClear present cells = (present ≡ true) × All IsNotAbove cells × (has_zero cells ≡ true)

-- A column of rows speaks against the overlap exactly when: it is not there, or some cell is above zero, or
-- none is zero. A cell that is missing counts as -1: beside one that is zero it speaks against nothing.
pub column_blockers_iff :
    {F : Type 0} (column description : String) (present : Bool) (cell : Option ℤ)
    (cells : List (Option ℤ))
    → (column_blockers {F = F} column description present (cell ∷ cells) ≡ [])
      ↔ IsClear present (cell ∷ cells)
unfolding column_blockers
column_blockers_iff column description false cell cells = (λ h. cc, λ h. cc (h.0))
column_blockers_iff column description true cell cells =
    let m = column_max (cell ∷ cells) in
    let noted = note_if_iff (Blocker.column_shows description) (differs_iff m (pos 0)) in
    let below = leb-column_max_iff cell cells in
    (
      λ h.
          let all = below.0 (zero-nonpositive m (noted.0 h)) in
          (refl, all, sym (eqb-column_max cell cells all) ∙ (eqb_ℤ_iff m (pos 0)).1 (noted.0 h)),
      λ h. noted.1 ((eqb_ℤ_iff m (pos 0)).0 (eqb-column_max cell cells h.1 ∙ h.2)),
    )
